-- ===== src/Mpmc/Alone/Push.antt =====
-- lib/type/type_atom_queue.c: a push of a thread that goes on while the others stand still.
use misc_c.Base.{
  ℕ, suc, ◌+◌, ◌≡◌, ◌≢◌, refl, ◌∙◌, ap, sym, true, false, not, ◌&&◌, List, [], ◌∷◌, ◌++◌, length,
  ◌==◌, ltb, arith, Bool-cases, inl, inr,
}
use misc_c.Mpmc.Inv.{nth, Inv}
use misc_c.Mpmc.Stable.{nth-past}
use misc_c.Mpmc.Push.{called, called-Inv}
use misc_c.Mpmc.{
  idle, push_start, push_tail, push_next, push_checked, push_linked, Mpmc, put, goes, link, proceed,
  step, access, call_push, is_idle,
}
use misc_c.Mpmc.Alone.{alone, tag_eq-same, put-same, goes-goes, step-goes, rests, suc-cases}

module _ (s : Mpmc) (t item : ℕ) where
  tail_loaded : step (access true) t (goes t (push_start item) s) ≡ goes t (push_tail item s.tail) s
  unfolding proceed
  tail_loaded =
      step-goes t s (push_start item) ∙ goes-goes t s (push_start item) (push_tail item s.tail)

  next_loaded :
      step (access true) t (goes t (push_tail item s.tail) s)
      ≡ goes t (push_next item s.tail (s.next s.tail.ptr)) s
  unfolding proceed
  next_loaded =
      step-goes t s (push_tail item s.tail)
      ∙ goes-goes t s (push_tail item s.tail) (push_next item s.tail (s.next s.tail.ptr))

  tail_checked :
      (n : ℕ)
      → step (access true) t (goes t (push_next item s.tail n) s)
        ≡ goes t (push_checked item s.tail n) s
  unfolding proceed
  tail_checked n =
      step-goes t s (push_next item s.tail n)
      ∙ rw (tag_eq-same s.tail)
          (goes-goes t s (push_next item s.tail n) (push_checked item s.tail n))

  checked :
      alone 3 t (goes t (push_start item) s)
      ≡ goes t (push_checked item s.tail (s.next s.tail.ptr)) s
  checked =
      ap (alone 2 t) tail_loaded ∙ ap (alone 1 t) next_loaded ∙ tail_checked (s.next s.tail.ptr)

  abbrev helped : ℕ → Mpmc
  helped n = record s { tail = record { ptr = n; version = s.tail.version + 1 } }

  -- The tail is behind: the thread helps it on.
  helps :
      (n : ℕ)
      → s.next s.tail.ptr ≡ suc n
      → alone 4 t (goes t (push_start item) s) ≡ goes t (push_start item) (helped (suc n))
  unfolding proceed
  helps n e =
      ap (alone 1 t) (checked ∙ ap (λ n. goes t (push_checked item s.tail n) s) e)
      ∙ step-goes t s (push_checked item s.tail (suc n))
      ∙ rw (tag_eq-same s.tail)
          (goes-goes t (helped (suc n)) (push_checked item s.tail (suc n)) (push_start item))

  abbrev pub appended : Mpmc
  appended = record s {
    next = put s.next s.tail.ptr item;
    pushed = s.pushed ++ s.data_of item ∷ [];
    tail = record { ptr = item; version = s.tail.version + 1 };
  }

  abbrev placed : Mpmc
  placed = record s { next = put s.next s.tail.ptr item; pushed = s.pushed ++ s.data_of item ∷ [] }

  node_linked :
      s.next s.tail.ptr ≡ 0
      → step (access true) t (goes t (push_checked item s.tail 0) s)
        ≡ goes t (push_linked item s.tail) placed
  unfolding proceed link
  node_linked e =
      step-goes t s (push_checked item s.tail 0)
      ∙ rw (e) (goes-goes t placed (push_checked item s.tail 0) (push_linked item s.tail))

  tail_moved : step (access true) t (goes t (push_linked item s.tail) placed) ≡ goes t idle appended
  unfolding proceed
  tail_moved =
      step-goes t placed (push_linked item s.tail)
      ∙ rw (tag_eq-same s.tail) (goes-goes t appended (push_linked item s.tail) idle)

  -- The tail is at the last node: the thread links its own and moves the tail.
  links : s.next s.tail.ptr ≡ 0 → alone 5 t (goes t (push_start item) s) ≡ goes t idle appended
  links e =
      ap (alone 2 t) (checked ∙ ap (λ n. goes t (push_checked item s.tail n) s) e)
      ∙ ap (alone 1 t) (node_linked e)
      ∙ tail_moved

-- What a thread that goes on alone has when its push comes to an end
abbrev pub Pushed : (s after : Mpmc) → (t value : ℕ) → Type 0
Pushed s after t value =
    (after.locals t ≡ idle) × (after.pushed ≡ s.pushed ++ value ∷ []) × (after.popped ≡ s.popped)

module _ (s : Mpmc) (nodes : List ℕ) (h l : ℕ) (v : Inv s nodes h l) (t item value : ℕ)
    (rest : s.locals t ≡ idle) (some : item ≢ 0) (fresh : s.given item ≡ false) where
  abbrev c : Mpmc
  c = called s nodes h l v item value

  started : step (call_push item value) t s ≡ goes t (push_start item) c
  unfolding step
  started =
      let free : is_idle (s.locals t) && (not (item == 0) && not (s.allocated item)) ≡ true =
        ground (arith, ap is_idle rest, some, fresh, v.live item) in
      rw (free) refl

  sound : Inv (goes t (push_start item) c) nodes h l
  sound = called-Inv s nodes h l v t item value some fresh

  behind_tail : c.next c.tail.ptr ≡ nth nodes (l + 1)
  behind_tail = ap c.next sound.tail_ptr ∙ sound.links l sound.bound

  -- The tail is one node behind at most.
  one_behind : (n : ℕ) → c.next c.tail.ptr ≡ suc n → c.next (suc n) ≡ 0
  one_behind n e =
      let there : suc n ≡ nth nodes (l + 1) = sym e ∙ behind_tail in
      elim (Bool-cases (ltb (l + 1) (length nodes))) [
        | inl more ↦
            ap c.next there
            ∙ sound.links (l + 1) (ground (arith, more))
            ∙ nth-past nodes (l + 1 + 1) (omega (arith, sound.lag))
        | inr less ↦ absurd (ground (arith, there, nth-past nodes (l + 1), less))
      ]

  ends :
      (after d : Mpmc)
      → after ≡ goes t idle d
      → d.pushed ≡ s.pushed ++ c.data_of item ∷ []
      → d.popped ≡ s.popped
      → Pushed s after t value
  ends after d e pushed popped = (
    ap (λ a. a.locals t) e ∙ put-same t d.locals idle,
    ap (λ a. a.pushed) e ∙ pushed ∙ ap (λ x. s.pushed ++ x ∷ []) (put-same item s.data_of value),
    ap (λ a. a.popped) e ∙ popped,
  )

  pub push-Pushed : Pushed s (alone 9 t (step (call_push item value) t s)) t value
  push-Pushed = elim (suc-cases (c.next c.tail.ptr)) [
    | inl e ↦
        ends (alone 9 t (step (call_push item value) t s)) (appended c t item)
          (ap (alone 9 t) started
            ∙ ap (alone 4 t) (links c t item e)
            ∙ rests 4 t (appended c t item))
          refl refl
    | inr (n, e) ↦
        let d : Mpmc = helped c t item (suc n) in
        ends (alone 9 t (step (call_push item value) t s)) (appended d t item)
          (ap (alone 9 t) started
            ∙ ap (alone 5 t) (helps c t item n e)
            ∙ links d t item (one_behind n e))
          refl refl
  ]
