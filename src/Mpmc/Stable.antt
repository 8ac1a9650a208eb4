-- ===== src/Mpmc/Stable.antt =====
-- lib/type/type_atom_queue.c: what a thread knows stays true while the others go on.
use misc_c.Base.{
  ℕ, zero, suc, ◌+◌, ◌≤◌, ◌<◌, ◌≡◌, ◌≢◌, refl, ◌∙◌, ap, sym, Bool, true, false, List, [], ◌∷◌, ◌++◌,
  length, get_or, take, length-append, ◌==◌, if◌then◌else◌, arith,
}
use misc_c.Base.Memory.{get_or-append}
use mathlib.Core.Path.{subst}
use misc_c.Mpmc.{
  Tag, Local, idle, pop_start, push_start, push_tail, push_next, push_checked, push_linked,
  pop_head, pop_tail, pop_checked, pop_next, Mpmc, goes,
}
use misc_c.Mpmc.Inv.{nth, TagOk, NextOk, LocalOk, private_of, Own, Private, Inv}

pub if-Ok : {A : Type 0} (P : A → Type 0) (b : Bool) {x y : A} → P x → P y → P (if b then x else y)
if-Ok P true p q = p
if-Ok P false p q = q

-- Past the last node, there is 0.
pub nth-past : (nodes : List ℕ) (i : ℕ) → length nodes ≤ i → nth nodes i ≡ 0
nth-past [] i le = refl
nth-past (x ∷ nodes) zero le = absurd (omega arith)
nth-past (x ∷ nodes) (suc i) le = nth-past nodes i (omega (arith, le))

pub nth-append :
    (nodes more : List ℕ) (i : ℕ) → i < length nodes → nth (nodes ++ more) i ≡ nth nodes i
nth-append nodes more i lt = ground (arith, get_or-append nodes more i 0, lt)

pub nth-last : (nodes : List ℕ) (x : ℕ) → nth (nodes ++ x ∷ []) (length nodes) ≡ x
nth-last [] x = refl
nth-last (y ∷ nodes) x = nth-last nodes x

pub take-suc :
    (h : ℕ) (xs : List ℕ) → h < length xs → take (suc h) xs ≡ take h xs ++ get_or xs h 0 ∷ []
take-suc h [] lt = absurd (omega (arith, lt))
take-suc zero (x ∷ xs) lt = refl
take-suc (suc h) (x ∷ xs) lt = ap (λ ys. x ∷ ys) (take-suc h xs (omega (arith, lt)))

pub take-more : (h : ℕ) (xs more : List ℕ) → h ≤ length xs → take h (xs ++ more) ≡ take h xs
take-more zero xs more le = refl
take-more (suc h) [] more le = absurd (omega (arith, le))
take-more (suc h) (x ∷ xs) more le = ap (λ ys. x ∷ ys) (take-more h xs more (omega (arith, le)))

module _ (nodes more : List ℕ) (h l h' l' : ℕ) (hh : h ≤ h') (ll : l ≤ l') (order : h ≤ l)
    (bound : l < length nodes) where
  pub TagOk-grows :
      (most most' : ℕ) (tag : Tag)
      → most ≤ most'
      → most < length nodes
      → TagOk nodes most tag
      → TagOk (nodes ++ more) most' tag
  TagOk-grows most most' tag le lt (v, p) =
      (omega (arith, v, le), p ∙ sym (nth-append nodes more tag.version (omega (arith, v, lt))))

  pub NextOk-grows : (i n : ℕ) → NextOk nodes i n → NextOk (nodes ++ more) i n
  NextOk-grows i n ok some =
      let (lt, e) = ok some in
      (omega (arith, lt, length-append nodes more), e ∙ sym (nth-append nodes more (i + 1) lt))

  pub LocalOk-grows : (x : Local) → LocalOk nodes h l x → LocalOk (nodes ++ more) h' l' x
  LocalOk-grows idle ok = tt
  LocalOk-grows pop_start ok = tt
  LocalOk-grows (push_start item) ok = ok
  LocalOk-grows (push_tail item tail) (some, ok) = (some, TagOk-grows l l' tail ll bound ok)
  LocalOk-grows (push_next item tail n) (some, ok, next) =
      (some, TagOk-grows l l' tail ll bound ok, NextOk-grows tail.version n next)
  LocalOk-grows (push_checked item tail n) (some, ok, next) =
      (some, TagOk-grows l l' tail ll bound ok, NextOk-grows tail.version n next)
  LocalOk-grows (push_linked item tail) (ok, lt, e) = (
    TagOk-grows l l' tail ll bound ok,
    omega (arith, lt, length-append nodes more),
    e ∙ sym (nth-append nodes more (tail.version + 1) lt),
  )
  LocalOk-grows (pop_head head) ok = TagOk-grows h h' head hh (omega (arith, order, bound)) ok
  LocalOk-grows (pop_tail head tail) (a, b, le) = (
    TagOk-grows h h' head hh (omega (arith, order, bound)) a,
    TagOk-grows l l' tail ll bound b,
    le,
  )
  LocalOk-grows (pop_checked head tail) (a, b, le) = (
    TagOk-grows h h' head hh (omega (arith, order, bound)) a,
    TagOk-grows l l' tail ll bound b,
    le,
  )
  LocalOk-grows (pop_next head tail n) (a, b, le, next, some) = (
    TagOk-grows h h' head hh (omega (arith, order, bound)) a,
    TagOk-grows l l' tail ll bound b,
    le,
    NextOk-grows head.version n next,
    some,
  )

module _ (s : Mpmc) (nodes : List ℕ) (h l : ℕ) (v : Inv s nodes h l) (t : ℕ) where
  pub knows-at : (x : Local) → s.locals t ≡ x → LocalOk nodes h l x
  knows-at x e = subst (LocalOk nodes h l) e (v.knows t)

  -- A step that only one thread sees
  pub goes-Inv :
      (x : Local)
      → LocalOk nodes h l x
      → (private_of x ≢ 0 → private_of x ≡ private_of (s.locals t))
      → Inv (goes t x s) nodes h l
  goes-Inv x ok same = record {
    order = v.order;
    bound = v.bound;
    lag = v.lag;
    head_ptr = v.head_ptr;
    head_version = v.head_version;
    tail_ptr = v.tail_ptr;
    tail_version = v.tail_version;
    links = v.links;
    distinct = v.distinct;
    real = v.real;
    live = v.live;
    owned = v.owned;
    knows = λ u. if-Ok (LocalOk nodes h l) (u == t) ok (v.knows u);
    private = λ u.
        if-Ok (Private s nodes) (u == t)
          (λ some.
            subst (Own s nodes) (sym (same some)) (v.private t (λ no. some (same some ∙ no))))
          (v.private u);
    apart = λ u w some e. ground (arith, some, e, same, v.apart u w, v.apart t w, v.apart u t);
    values = v.values;
    value = v.value;
    taken = v.taken;
  }
