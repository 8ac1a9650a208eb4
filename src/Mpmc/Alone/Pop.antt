-- ===== src/Mpmc/Alone/Pop.antt =====
-- lib/type/type_atom_queue.c: a pop of a thread that goes on while the others stand still.
use misc_c.Base.{
  ℕ, zero, suc, ◌+◌, ◌≤◌, ◌<◌, ◌≡◌, ◌≢◌, refl, ◌∙◌, ap, sym, true, false, List, [], ◌∷◌, ◌++◌,
  length, take, length-take, ◌==◌, ltb, arith, Bool-cases, inl, inr,
}
use misc_c.Mpmc.Inv.{nth, Inv}
use misc_c.Mpmc.Stable.{nth-past}
use misc_c.Mpmc.Pop.{taken-next}
use misc_c.Mpmc.{
  put, Local, idle, pop_start, pop_head, pop_tail, pop_checked, pop_next, Mpmc, goes, unlink_head,
  proceed, step, access, call_pop, is_idle,
}
use misc_c.Mpmc.Alone.{alone, tag_eq-same, put-same, goes-goes, step-goes, rests}

module _ (s : Mpmc) (t : ℕ) where
  head_loaded : step (access true) t (goes t pop_start s) ≡ goes t (pop_head s.head) s
  unfolding proceed
  head_loaded = step-goes t s pop_start ∙ goes-goes t s pop_start (pop_head s.head)

  tail_loaded :
      step (access true) t (goes t (pop_head s.head) s) ≡ goes t (pop_tail s.head s.tail) s
  unfolding proceed
  tail_loaded =
      step-goes t s (pop_head s.head) ∙ goes-goes t s (pop_head s.head) (pop_tail s.head s.tail)

  head_checked :
      step (access true) t (goes t (pop_tail s.head s.tail) s)
      ≡ goes t (pop_checked s.head s.tail) s
  unfolding proceed
  head_checked =
      step-goes t s (pop_tail s.head s.tail)
      ∙ rw (tag_eq-same s.head) (goes-goes t s (pop_tail s.head s.tail) (pop_checked s.head s.tail))

  abbrev found : Local
  found = pop_next s.head s.tail (s.next s.head.ptr)

  next_loaded : step (access true) t (goes t (pop_checked s.head s.tail) s) ≡ goes t found s
  unfolding proceed
  next_loaded =
      step-goes t s (pop_checked s.head s.tail) ∙ goes-goes t s (pop_checked s.head s.tail) found

  lap : alone 4 t (goes t pop_start s) ≡ goes t found s
  lap =
      ap (alone 3 t) head_loaded
      ∙ ap (alone 2 t) tail_loaded
      ∙ ap (alone 1 t) head_checked
      ∙ next_loaded

  -- The queue is empty.
  finds_none :
      (s.head.ptr == s.tail.ptr) ≡ true
      → (s.next s.head.ptr == 0) ≡ true
      → alone 5 t (goes t pop_start s) ≡ goes t idle s
  unfolding proceed
  finds_none one none =
      ap (alone 1 t) lap ∙ step-goes t s found ∙ rw (one, none) (goes-goes t s found idle)

  abbrev helped : Mpmc
  helped = record s { tail = record { ptr = s.next s.head.ptr; version = s.tail.version + 1 } }

  -- The tail is behind: the thread helps it on.
  helps :
      (s.head.ptr == s.tail.ptr) ≡ true
      → (s.next s.head.ptr == 0) ≡ false
      → alone 5 t (goes t pop_start s) ≡ goes t pop_start helped
  unfolding proceed
  helps one some =
      ap (alone 1 t) lap
      ∙ step-goes t s found
      ∙ rw (one, some, tag_eq-same s.tail) (goes-goes t helped found pop_start)

  abbrev taken : Mpmc
  taken = record s {
    head = record { ptr = s.next s.head.ptr; version = s.head.version + 1 };
    allocated = put s.allocated s.head.ptr false;
    popped = s.popped ++ s.data_of (s.next s.head.ptr) ∷ [];
  }

  -- The head goes on, and its value is out.
  takes : (s.head.ptr == s.tail.ptr) ≡ false → alone 5 t (goes t pop_start s) ≡ goes t idle taken
  unfolding proceed unlink_head
  takes two =
      ap (alone 1 t) lap
      ∙ step-goes t s found
      ∙ rw (two, tag_eq-same s.head) (goes-goes t taken found idle)

take-past : (n : ℕ) (xs : List ℕ) → length xs ≤ n → take n xs ≡ xs
take-past zero [] le = refl
take-past zero (x ∷ xs) le = absurd (omega (arith, le))
take-past (suc n) [] le = refl
take-past (suc n) (x ∷ xs) le = ap (λ ys. x ∷ ys) (take-past n xs (omega (arith, le)))

-- What a thread that goes on alone has when its pop comes to an end: the oldest value, if there is one
abbrev pub Popped : (s after : Mpmc) → (t : ℕ) → Type 0
Popped s after t =
    (after.locals t ≡ idle)
    × (after.pushed ≡ s.pushed)
    × (after.popped ≡ take (length s.popped + 1) s.pushed)

module _ (s : Mpmc) (nodes : List ℕ) (h l : ℕ) (v : Inv s nodes h l) (t : ℕ)
    (rest : s.locals t ≡ idle) where
  started : step call_pop t s ≡ goes t pop_start s
  unfolding step
  started = let free : is_idle (s.locals t) ≡ true = ap is_idle rest in rw (free) refl

  behind_head : s.next s.head.ptr ≡ nth nodes (h + 1)
  behind_head = ap s.next v.head_ptr ∙ v.links h (omega (arith, v.order, v.bound))

  out : length s.popped ≡ h
  out = ap length v.taken ∙ ground (arith, length-take h s.pushed, v.order, v.bound, v.values)

  ends :
      (after d : Mpmc)
      → after ≡ goes t idle d
      → d.pushed ≡ s.pushed
      → d.popped ≡ take (h + 1) s.pushed
      → Popped s after t
  ends after d e pushed popped = (
    ap (λ a. a.locals t) e ∙ put-same t d.locals idle,
    ap (λ a. a.pushed) e ∙ pushed,
    ap (λ a. a.popped) e ∙ popped ∙ ap (λ k. take (k + 1) s.pushed) (sym out),
  )

  more_behind : s.next s.head.ptr ≢ 0 → h + 1 < length nodes
  more_behind some = elim (Bool-cases (ltb (h + 1) (length nodes))) [
    | inl more ↦ ground (arith, more)
    | inr less ↦ absurd (some (behind_head ∙ nth-past nodes (h + 1) (ground (arith, less))))
  ]

  none_left : s.next s.head.ptr ≡ 0 → s.popped ≡ take (h + 1) s.pushed
  none_left none =
      let last : ¬ (h + 1 < length nodes) = λ more. v.real (h + 1) more (sym behind_head ∙ none) in
      v.taken
      ∙ take-past h s.pushed (omega (arith, last, v.values))
      ∙ sym (take-past (h + 1) s.pushed (omega (arith, last, v.values)))

  abbrev after : Mpmc
  after = alone 10 t (step call_pop t s)

  meets : (s.head.ptr == s.tail.ptr) ≡ true → h ≡ l
  meets one =
      v.distinct h l (omega (arith, v.order, v.bound)) v.bound
        (sym v.head_ptr ∙ ground (arith, one) ∙ v.tail_ptr)

  pub pop-Popped : Popped s after t
  pop-Popped = elim (Bool-cases (s.head.ptr == s.tail.ptr)) [
    | inl one ↦ elim (Bool-cases (s.next s.head.ptr == 0)) [
      | inl none ↦
          ends after s
            (ap (alone 10 t) started ∙ ap (alone 5 t) (finds_none s t one none) ∙ rests 5 t s) refl
            (none_left (ground (arith, none)))
      | inr some ↦
          let d : Mpmc = helped s t in
          let more : h + 1 < length nodes = more_behind (ground (arith, some)) in
          let two : (s.head.ptr == s.next s.head.ptr) ≡ false =
            ground (arith, behind_head, v.head_ptr, v.distinct h (h + 1), more) in
          ends after (taken d t)
            (ap (alone 10 t) started ∙ ap (alone 5 t) (helps s t one some) ∙ takes d t two) refl
            (taken-next s nodes h l v (s.next s.head.ptr) more behind_head)
    ]
    | inr two ↦
        let apart : h < l = ground (arith, v.order, v.head_ptr, v.tail_ptr, two, ap (nth nodes)) in
        ends after (taken s t)
          (ap (alone 10 t) started ∙ ap (alone 5 t) (takes s t two) ∙ rests 5 t (taken s t)) refl
          (taken-next s nodes h l v (s.next s.head.ptr) (omega (arith, apart, v.bound)) behind_head)
  ]
