-- ===== src/Mpmc/Alone.antt =====
-- lib/type/type_atom_queue.c: a thread that goes on while the others stand still.
pub mod Push
pub mod Pop
use misc_c.Base.{
  ℕ, zero, suc, ◌+◌, ◌≤◌, ◌<◌, ◌≡◌, ◌≢◌, refl, ◌∙◌, ap, sym, ◌⊎◌, Bool, true, false, not, ◌&&◌,
  List, [], ◌∷◌, ◌++◌, length, ◌==◌, ltb, if◌then◌else◌, arith, Bool-cases, inl, inr,
}
use mathlib.Core.Path.{fun_ext}
use misc_c.Mpmc.Inv.{nth, Inv}
use misc_c.Mpmc.Stable.{nth-past}
use misc_c.Mpmc.Push.{called, called-Inv}
use misc_c.Mpmc.{
  Tag, tag_eq, Local, idle, push_start, push_tail, push_next, push_checked, push_linked, pop_start,
  pop_head, pop_tail, pop_checked, pop_next, Mpmc, put, goes, swing_tail, link, unlink_head,
  proceed, step, access, call_push, call_pop, is_idle,
}

-- The next accesses of one thread
abbrev pub alone : ℕ → ℕ → Mpmc → Mpmc
alone zero t s = s
alone (suc n) t s = alone n t (step (access true) t s)

pub tag_eq-same : (a : Tag) → tag_eq a a ≡ true
tag_eq-same a = ground arith

module _ (t : ℕ) where
  pub put-same : {A : Type 0} (f : ℕ → A) (x : A) → put f t x t ≡ x
  put-same f x = ground arith

  pub put-put : {A : Type 0} (f : ℕ → A) (x y : A) → put (put f t x) t y ≡ put f t y
  put-put f x y = fun_ext (λ u. ground arith)

  pub goes-goes : (s : Mpmc) (x y : Local) → goes t y (goes t x s) ≡ goes t y s
  goes-goes s x y = ap (λ f. record s { locals = f }) (put-put s.locals x y)

  pub step-goes :
      (s : Mpmc) (x : Local) → step (access true) t (goes t x s) ≡ proceed x true t (goes t x s)
  unfolding step
  step-goes s x = ap (λ y. proceed y true t (goes t x s)) (put-same s.locals x)

pub rests : (n t : ℕ) (s : Mpmc) → alone n t (goes t idle s) ≡ goes t idle s
unfolding proceed
rests zero t s = refl
rests (suc n) t s = ap (alone n t) (step-goes t s idle) ∙ rests n t s

pub suc-cases : (x : ℕ) → (x ≡ 0) ⊎ ((n : ℕ) × (x ≡ suc n))
suc-cases zero = inl refl
suc-cases (suc n) = inr (n, refl)
