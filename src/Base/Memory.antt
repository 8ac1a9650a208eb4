-- ===== src/Base/Memory.antt =====
-- `memcpy` into an array, lists compared entry by entry, and ring indices.
use Prim.Native.Nat.{ℕ, zero, suc, ◌+◌, ◌-◌, ◌%◌, ◌≤◌, ◌<◌}
use mathlib.Core.Path.{◌≡◌, refl, ap, ap₂}
use mathlib.Core.Logic.{◌⊎◌, inl, inr}
use mathlib.Core.Bool.{◌&&◌}
use mathlib.Core.List.{List, [], ◌∷◌, ◌++◌}
use native.Mathlib.Nat.{mod-eq_of_lt, mod-eq-sub-mod}
use native.Mathlib.Decide.{dec_lt}
use native.Mathlib.Omega.{arith}
use misc_c.Base.Tests.{ltb, leb, ◌==◌, if◌then◌else◌}
use misc_c.Base.Lists.{length, get_or, set, take, drop, length-set}

module _ {ℓ} {A : Type ℓ} where
  -- memcpy(a + i, xs, length xs); what falls behind the end of `a` is dropped.
  unfoldable pub copy_at : List A → ℕ → List A → List A
  copy_at a i [] = a
  copy_at a i (x ∷ xs) = copy_at (set a i x) (i + 1) xs

  pub length-copy_at : (a : List A) (i : ℕ) (xs : List A) → length (copy_at a i xs) ≡ length a
  unfolding copy_at
  length-copy_at a i [] = refl
  length-copy_at a i (x ∷ xs) =
      omega (arith, length-copy_at (set a i x) (i + 1) xs, length-set a i x)

  pub get_or-set :
      (a : List A) (i j : ℕ) (v d : A)
      → i < length a
      → get_or (set a i v) j d ≡ (if i == j then v else get_or a j d)
  get_or-set [] i j v d h = absurd (omega arith)
  get_or-set (x ∷ a) zero zero v d h = refl
  get_or-set (x ∷ a) zero (suc j) v d h = ground arith
  get_or-set (x ∷ a) (suc i) zero v d h = ground arith
  get_or-set (x ∷ a) (suc i) (suc j) v d h = ground (arith, get_or-set a i j v d)

  get_or-cons :
      (x : A) (xs : List A) (i : ℕ) (d : A)
      → get_or (x ∷ xs) i d ≡ (if i == 0 then x else get_or xs (i - 1) d)
  get_or-cons x xs zero d = ground arith
  get_or-cons x xs (suc i) d = ground arith

  pub get_or-append :
      (xs ys : List A) (i : ℕ) (d : A)
      → get_or (xs ++ ys) i d
        ≡ (if ltb i (length xs) then get_or xs i d else get_or ys (i - length xs) d)
  get_or-append [] ys i d = ground arith
  get_or-append (x ∷ xs) ys zero d = ground arith
  get_or-append (x ∷ xs) ys (suc i) d = ground (arith, get_or-append xs ys i d)

  pub get_or-take :
      (n : ℕ) (xs : List A) (i : ℕ) (d : A) → i < n → get_or (take n xs) i d ≡ get_or xs i d
  get_or-take zero xs i d h = absurd (omega arith)
  get_or-take (suc n) [] i d h = refl
  get_or-take (suc n) (x ∷ xs) zero d h = refl
  get_or-take (suc n) (x ∷ xs) (suc i) d h = get_or-take n xs i d (omega arith)

  pub get_or-drop :
      (n : ℕ) (xs : List A) (i : ℕ) (d : A) → get_or (drop n xs) i d ≡ get_or xs (n + i) d
  get_or-drop zero xs i d = ap (λ k. get_or xs k d) (omega arith)
  get_or-drop (suc n) [] i d = refl
  get_or-drop (suc n) (x ∷ xs) i d =
      ground (arith, get_or-drop n xs i d, get_or-cons x xs (suc n + i) d)

  -- Two lists of one length with the same entries are one list.
  pub eq_of_get_or :
      (xs ys : List A) (d : A)
      → length xs ≡ length ys
      → ((i : ℕ) → i < length xs → get_or xs i d ≡ get_or ys i d)
      → xs ≡ ys
  eq_of_get_or [] [] d e h = refl
  eq_of_get_or [] (y ∷ ys) d e h = absurd (omega arith)
  eq_of_get_or (x ∷ xs) [] d e h = absurd (omega arith)
  eq_of_get_or (x ∷ xs) (y ∷ ys) d e h =
      ap₂ ◌∷◌ (h 0 (omega arith))
        (eq_of_get_or xs ys d (omega arith) (λ i p. h (suc i) (omega arith)))

module _ {A : Type 0} where
  -- What stands at `j` after a copy that fits.
  pub get_or-copy_at :
      (a : List A) (i : ℕ) (xs : List A) (j : ℕ) (d : A)
      → i + length xs ≤ length a
      → get_or (copy_at a i xs) j d
        ≡ (if leb i j && ltb j (i + length xs) then get_or xs (j - i) d else get_or a j d)
  unfolding copy_at
  get_or-copy_at a i [] j d h = ground arith
  get_or-copy_at a i (x ∷ xs) j d h = ground (
    arith,
    get_or-copy_at (set a i x) (i + 1) xs j d,
    get_or-set a i j x d,
    length-set a i x,
    get_or-cons x xs (j - i) d,
  )

-- A step of at most one round from a place in the ring.
pub ring_step :
    (a i s : ℕ)
    → a < s
    → i ≤ s
    → (((a + i) % s ≡ a + i) × (a + i < s)) ⊎ (((a + i) % s + s ≡ a + i) × (s ≤ a + i))
ring_step a i s ha hi = elim (dec_lt (a + i) s) [
  | yes p ↦ inl (mod-eq_of_lt p, p)
  | no p ↦ inr (
    omega (
      arith,
      mod-eq-sub-mod {n = a + i} {m = s} (omega arith),
      mod-eq_of_lt {n = a + i - s} {m = s} (omega arith),
    ),
    omega arith,
  )
]

pub drop-cons {ℓ} :
    {A : Type ℓ} (xs : List A) (i : ℕ) (d : A)
    → i < length xs
    → drop i xs ≡ get_or xs i d ∷ drop (suc i) xs
drop-cons [] i d h = absurd (omega arith)
drop-cons (x ∷ xs) zero d h = refl
drop-cons (x ∷ xs) (suc i) d h = drop-cons xs i d (omega arith)
