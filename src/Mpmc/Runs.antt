-- ===== src/Mpmc/Runs.antt =====
-- lib/type/type_atom_queue.c: any threads, in any order of their accesses.
use misc_c.Base.{
  true, ℕ, zero, suc, ◌+◌, ◌<◌, ◌≡◌, ◌≢◌, refl, ◌∙◌, ap, sym, Bool, not, ◌&&◌, List, [], ◌∷◌,
  length, ◌==◌, arith, ltb, Bool-cases, inl, inr,
}
use mathlib.Core.Path.{subst}
use misc_c.Mpmc.{
  goes, tag_eq, Local, idle, pop_start, push_start, push_tail, push_next, push_checked, push_linked,
  pop_head, pop_tail, pop_checked, pop_next, Mpmc,
}
use misc_c.Mpmc.Inv.{LocalOk, nth, TagOk, NextOk, private_of, Inv, Sound}
use misc_c.Mpmc.Stable.{nth-past, knows-at, goes-Inv}
use misc_c.Mpmc.{
  Action, call_push, call_pop, access, proceed, step, is_new, gives_once, run, mpmc_init, is_idle,
}
use misc_c.Mpmc.Push.{called-Inv, swing_tail-Sound}
use misc_c.Mpmc.Link.{link-Sound}
use misc_c.Mpmc.Pop.{unlink_head-Sound}

module _ (s : Mpmc) (nodes : List ℕ) (h l : ℕ) (v : Inv s nodes h l) (t : ℕ) where
  -- What a load of `next` gives
  loaded : (i : ℕ) → i < length nodes → NextOk nodes i (s.next (nth nodes i))
  loaded i lt some = elim (Bool-cases (ltb (i + 1) (length nodes))) [
    | inl more ↦ (ground (arith, more), v.links i lt)
    | inr less ↦ absurd (some (v.links i lt ∙ nth-past nodes (i + 1) (ground (arith, less))))
  ]

  head_now : TagOk nodes h s.head
  head_now = (omega (arith, v.head_version), v.head_ptr ∙ ap (nth nodes) (sym v.head_version))

  tail_now : TagOk nodes l s.tail
  tail_now = (omega (arith, v.tail_version), v.tail_ptr ∙ ap (nth nodes) (sym v.tail_version))

  -- A thread keeps its node
  keeps :
      (x : Local)
      → LocalOk nodes h l x
      → private_of x ≡ private_of (s.locals t)
      → Sound (goes t x s)
  keeps x ok same = (nodes, h, l, goes-Inv s nodes h l v t x ok (λ _. same))

  -- A thread has no node of its own.
  passes : (x : Local) → LocalOk nodes h l x → private_of x ≡ 0 → Sound (goes t x s)
  passes x ok none = (nodes, h, l, goes-Inv s nodes h l v t x ok (λ some. absurd (some none)))

  proceed-Sound : (x : Local) → s.locals t ≡ x → (ok : Bool) → Sound (proceed x ok t s)
  unfolding proceed
  proceed-Sound idle e ok = (nodes, h, l, v)
  proceed-Sound (push_start item) e ok =
      keeps (push_tail item s.tail) (knows-at s nodes h l v t (push_start item) e, tail_now)
        (sym (ap private_of e))
  proceed-Sound (push_tail item tail) e ok =
      let (some, (a, p)) = knows-at s nodes h l v t (push_tail item tail) e in
      keeps (push_next item tail (s.next tail.ptr))
        (
          some,
          (a, p),
          subst (λ x. NextOk nodes tail.version (s.next x)) (sym p)
              (loaded tail.version (omega (arith, a, v.bound))),
        )
        (sym (ap private_of e))
  proceed-Sound (push_next item tail n) e ok =
      let (some, a, next) = knows-at s nodes h l v t (push_next item tail n) e in
      elim (Bool-cases (tag_eq tail s.tail)) [
        | inl b ↦ rw (b) (keeps (push_checked item tail n) (some, a, next) (sym (ap private_of e)))
        | inr b ↦ rw (b) (keeps (push_start item) some (sym (ap private_of e)))
      ]
  proceed-Sound (push_checked item tail zero) e ok = link-Sound s nodes h l v t item 0 tail e ok
  proceed-Sound (push_checked item tail (suc n)) e ok =
      let (some, a, next) = knows-at s nodes h l v t (push_checked item tail (suc n)) e in
      let (lt, p) = next (λ z. ground (arith, z)) in
      swing_tail-Sound s nodes h l v ok tail (suc n) lt p t (push_start item) (λ l. some)
        (λ _. sym (ap private_of e))
  proceed-Sound (push_linked item tail) e ok =
      let (a, lt, p) = knows-at s nodes h l v t (push_linked item tail) e in
      swing_tail-Sound s nodes h l v ok tail item lt p t idle (λ l. tt) (λ some. absurd (some refl))
  proceed-Sound pop_start e ok = passes (pop_head s.head) head_now refl
  proceed-Sound (pop_head head) e ok =
      let (a, p) = knows-at s nodes h l v t (pop_head head) e in
      passes (pop_tail head s.tail) ((a, p), tail_now, omega (arith, a, v.order, v.tail_version))
        refl
  proceed-Sound (pop_tail head tail) e ok = elim (Bool-cases (tag_eq head s.head)) [
    | inl b ↦
        rw (b)
          (passes (pop_checked head tail) (knows-at s nodes h l v t (pop_tail head tail) e) refl)
    | inr b ↦ rw (b) (passes pop_start tt refl)
  ]
  proceed-Sound (pop_checked head tail) e ok =
      let ((a, p), b, le) = knows-at s nodes h l v t (pop_checked head tail) e in
      let here : head.version < length nodes = omega (arith, a, v.order, v.bound) in
      let next : NextOk nodes head.version (s.next head.ptr) =
        subst (λ x. NextOk nodes head.version (s.next x)) (sym p) (loaded head.version here) in
      let more : head.version < tail.version → s.next head.ptr ≢ 0 = λ lt z.
        v.real (head.version + 1) (omega (arith, lt, b, v.bound))
          (sym (v.links head.version here) ∙ ap s.next (sym p) ∙ z) in
      passes (pop_next head tail (s.next head.ptr)) ((a, p), b, le, next, more) refl
  proceed-Sound (pop_next head tail n) e ok =
      let ((a, p), (b, q), le, next, more) = knows-at s nodes h l v t (pop_next head tail n) e in
      elim (Bool-cases (head.ptr == tail.ptr)) [
        | inl one ↦
            let same : head.version ≡ tail.version =
              v.distinct head.version tail.version (omega (arith, a, v.order, v.bound))
                (omega (arith, b, v.bound)) (sym p ∙ ground (arith, one) ∙ q) in
            elim (Bool-cases (n == 0)) [
              | inl none ↦ rw (one, none) (passes idle tt refl)
              | inr some ↦
                  let (lt, r) = next (ground (arith, some)) in
                  rw (one, some)
                    (swing_tail-Sound s nodes h l v ok tail n (omega (arith, lt, same))
                      (r ∙ ap (λ i. nth nodes (i + 1)) same) t pop_start (λ l. tt)
                      (λ some. absurd (some refl)))
            ]
        | inr two ↦
            let apart : head.version < tail.version =
              ground (arith, two, p, q, le, ap (nth nodes)) in
            let (lt, r) = next (more apart) in
            rw (two) (unlink_head-Sound s nodes h l v t n head (omega (arith, apart, b)) r ok)
      ]

  step-Sound : (a : Action) → is_new a s ≡ true → Sound (step a t s)
  unfolding step
  step-Sound (call_push item value) new =
      elim (Bool-cases (is_idle (s.locals t) && (not (item == 0) && not (s.allocated item)))) [
        | inl e ↦ rw (e) (
          nodes,
          h,
          l,
          called-Inv s nodes h l v t item value (ground (arith, e)) (ground (arith, new)),
        )
        | inr e ↦ rw (e) (nodes, h, l, v)
      ]
  step-Sound call_pop new = elim (Bool-cases (is_idle (s.locals t))) [
    | inl e ↦ rw (e) (passes pop_start tt refl)
    | inr e ↦ rw (e) (nodes, h, l, v)
  ]
  step-Sound (access ok) new = proceed-Sound (s.locals t) refl ok

both : (a b : Bool) → a && b ≡ true → (a ≡ true) × (b ≡ true)
both a b e = (ground (arith, e), ground (arith, e))

pub run-Sound :
    (actions : List (ℕ × Action)) (s : Mpmc)
    → gives_once actions s ≡ true
    → Sound s
    → Sound (run actions s)
run-Sound [] s once sound = sound
run-Sound ((t, a) ∷ more) s once (nodes, h, l, v) =
    let (new, later) = both (is_new a s) (gives_once more (step a t s)) once in
    run-Sound more (step a t s) later (step-Sound s nodes h l v t a new)

pub init-Sound : (dummy : ℕ) → dummy ≢ 0 → Sound (mpmc_init dummy)
init-Sound dummy some = (
  dummy ∷ [],
  0,
  0,
  record {
    order = omega arith;
    bound = omega arith;
    lag = omega arith;
    head_ptr = refl;
    head_version = refl;
    tail_ptr = refl;
    tail_version = refl;
    links = λ i lt. sym (nth-past (dummy ∷ []) (i + 1) (omega arith));
    distinct = λ i j li lj e. ground (arith, li, lj);
    real = λ i lt e. some (sym (only i lt) ∙ e);
    live = λ x a. a;
    owned = λ i lt. ground (arith, only i lt);
    knows = λ t. tt;
    private = λ t some. absurd (some refl);
    apart = λ t u some. absurd (some refl);
    values = refl;
    value = λ i lt. absurd (omega (arith, lt));
    taken = refl;
  },
)
  where
    only : (i : ℕ) → i < 1 → nth (dummy ∷ []) i ≡ dummy
    only zero lt = refl
    only (suc i) lt = absurd (omega (arith, lt))
