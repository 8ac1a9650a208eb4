-- ===== src/Mpmc/Pop.antt =====
-- lib/type/type_atom_queue.c: the access that takes a node out of the queue.
use misc_c.Base.{
  false, ℕ, suc, ◌+◌, ◌≤◌, ◌<◌, ◌≡◌, refl, ◌∙◌, ap, sym, Bool, true, ◌&&◌, List, [], ◌∷◌, ◌++◌,
  length, get_or, take, append-nil, arith, Bool-cases, inl, inr,
}
use mathlib.Core.Path.{subst}
use misc_c.Mpmc.{put, Tag, tag_eq, idle, pop_start, Mpmc, unlink_head}
use misc_c.Mpmc.Inv.{nth, LocalOk, Inv, Sound}
use misc_c.Mpmc.Stable.{take-suc, LocalOk-grows, goes-Inv}

-- The values that are out, with that of the next node
pub taken-next :
    (s : Mpmc) (nodes : List ℕ) (h l : ℕ) (v : Inv s nodes h l) (n : ℕ)
    → h + 1 < length nodes
    → n ≡ nth nodes (h + 1)
    → s.popped ++ s.data_of n ∷ [] ≡ take (h + 1) s.pushed
taken-next s nodes h l v n more behind =
    let in_it : h < length s.pushed = omega (arith, more, v.values) in
    let there : s.data_of n ≡ get_or s.pushed h 0 = ap s.data_of behind ∙ sym (v.value h in_it) in
    let one : suc h ≡ h + 1 = omega arith in
    ap (λ xs. xs ++ s.data_of n ∷ []) v.taken
    ∙ ap (λ x. take h s.pushed ++ x ∷ []) there
    ∙ sym (take-suc h s.pushed in_it)
    ∙ ap (λ k. take k s.pushed) one

module _ (s : Mpmc) (nodes : List ℕ) (h l : ℕ) (v : Inv s nodes h l) (t n : ℕ) (head : Tag)
    (more : h + 1 ≤ l) (current : tag_eq s.head head ≡ true) (behind : n ≡ nth nodes (h + 1)) where
  abbrev unlinked : Mpmc
  unlinked = record s {
    head = record { ptr = n; version = head.version + 1 };
    allocated = put s.allocated head.ptr false;
    popped = s.popped ++ s.data_of n ∷ [];
  }

  pub unlinked-Inv : Inv unlinked nodes (h + 1) l
  unlinked-Inv = record {
    order = more;
    bound = v.bound;
    lag = v.lag;
    head_ptr = behind;
    head_version = ground (arith, current, v.head_version);
    tail_ptr = v.tail_ptr;
    tail_version = v.tail_version;
    links = v.links;
    distinct = v.distinct;
    real = v.real;
    live = λ x a. ground (arith, a, v.live x);
    owned = v.owned;
    knows = λ u.
        subst (λ ns. LocalOk ns (h + 1) l (s.locals u)) (append-nil nodes)
          (LocalOk-grows nodes [] h l (h + 1) l (omega arith) (omega arith) v.order v.bound
            (s.locals u) (v.knows u));
    private = v.private;
    apart = v.apart;
    values = v.values;
    value = v.value;
    taken = taken-next s nodes h l v n (omega (arith, more, v.bound)) behind;
  }

pub unlink_head-Sound :
    (s : Mpmc) (nodes : List ℕ) (h l : ℕ) (v : Inv s nodes h l) (t n : ℕ) (head : Tag)
    → (head.version + 1 ≤ l)
    → n ≡ nth nodes (head.version + 1)
    → (ok : Bool) → Sound (unlink_head ok t head n s)
unfolding unlink_head
unlink_head-Sound s nodes h l v t n head more behind ok =
    elim (Bool-cases (ok && tag_eq s.head head)) [
      | inl e ↦
          let place : head.version ≡ h = ground (arith, e, v.head_version) in
          let room : h + 1 ≤ l = omega (arith, more, place) in
          let current : tag_eq s.head head ≡ true = ground (arith, e) in
          let next : n ≡ nth nodes (h + 1) = behind ∙ ap (λ i. nth nodes (i + 1)) place in
          rw (e) (
            nodes,
            h + 1,
            l,
            goes-Inv (unlinked s nodes h l v t n head room current next) nodes (h + 1) l
                (unlinked-Inv s nodes h l v t n head room current next) t idle tt
                (λ no. absurd (no refl)),
          )
      | inr e ↦ rw (e) (nodes, h, l, goes-Inv s nodes h l v t pop_start tt (λ no. absurd (no refl)))
    ]
