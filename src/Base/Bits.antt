-- ===== src/Base/Bits.antt =====
-- Masks and the test for a power of two, as `fifo_create` and `fifo_write` use them.
use Prim.Native.Nat.{
  ℕ, zero, suc, ◌+◌, ◌-◌, ◌*◌, ◌/◌, ◌%◌, ◌^◌, ◌≤◌, ◌<◌, min, bit_and, digits, bit_and-bitwise,
}
use mathlib.Core.Path.{◌≡◌, refl, ap, sym, ◌∙◌}
use mathlib.Core.Logic.{◌⊎◌, inl, inr}
use native.Mathlib.Nat.{pow-suc, div-add-mod, mod-lt, mod_self, mul-add-mod_self_left}
use native.Mathlib.Omega.{arith}

pub Zero-cases : (n : ℕ) → (n ≡ 0) ⊎ (0 < n)
Zero-cases zero = inl refl
Zero-cases (suc n) = inr (omega arith)

-- The recursion that the native `bit_and` stands for, with its fuel.
abbrev conj : ℕ → ℕ → ℕ → ℕ
conj = digits (λ b. zero) min

conj_any_fuel : (f g x y : ℕ) → x ≤ f → x ≤ g → conj f x y ≡ conj g x y
conj_any_fuel zero zero x y p q = refl
conj_any_fuel zero (suc g) zero y p q = refl
conj_any_fuel (suc f) zero zero y p q = refl
conj_any_fuel (suc f) (suc g) zero y p q = refl
conj_any_fuel zero g (suc x) y p q = absurd (omega arith)
conj_any_fuel (suc f) zero (suc x) y p q = absurd (omega arith)
conj_any_fuel (suc f) (suc g) (suc x) y p q =
    omega (arith, conj_any_fuel f g (suc x / 2) (y / 2) (omega arith) (omega arith))

pub and_zero_left : (y : ℕ) → bit_and 0 y ≡ 0
and_zero_left y = bit_and-bitwise 0 y

-- The lowest binary digit of a conjunction, and the rest.
pub and_digit : (x y : ℕ) → bit_and x y ≡ 2 * bit_and (x / 2) (y / 2) + min (x % 2) (y % 2)
and_digit zero y = omega (arith, and_zero_left y, and_zero_left (y / 2))
and_digit (suc x) y = omega (
  arith,
  bit_and-bitwise (suc x) y,
  bit_and-bitwise (suc x / 2) (y / 2),
  conj_any_fuel x (suc x / 2) (suc x / 2) (y / 2) (omega arith) (omega arith),
)

and_zero_below : (n x : ℕ) → x ≤ n → bit_and x 0 ≡ 0
and_zero_below zero x h = let e : x ≡ 0 = omega arith in rw e (and_zero_left 0)
and_zero_below (suc n) x h = elim (Zero-cases x) [
  | inl e ↦ rw e (and_zero_left 0)
  | inr p ↦ omega (arith, and_digit x 0, and_zero_below n (x / 2) (omega arith))
]

and_self_below : (n x : ℕ) → x ≤ n → bit_and x x ≡ x
and_self_below zero x h = let e : x ≡ 0 = omega arith in rw e (and_zero_left 0)
and_self_below (suc n) x h = elim (Zero-cases x) [
  | inl e ↦ rw e (and_zero_left 0)
  | inr p ↦ omega (arith, and_digit x x, and_self_below n (x / 2) (omega arith))
]

-- A remainder is known by its range and a quotient.
pub mod_unique : (x m q r : ℕ) → r < m → x ≡ m * q + r → x % m ≡ r
mod_unique x m q r h e = grind (arith, div-add-mod x m, mod-lt x {m = m})

-- The remainder by a product, taken again by a factor.
pub mod-mul_mod : (x m n : ℕ) → x % (m * n) % m ≡ x % m
mod-mul_mod x m n =
    let e : x ≡ m * (n * (x / (m * n))) + x % (m * n) = omega (arith, div-add-mod x (m * n)) in
    sym (ap (λ t. t % m) e ∙ mul-add-mod_self_left m (n * (x / (m * n))) (x % (m * n)))

double_mod : (x p : ℕ) → 0 < p → x % (p * 2) ≡ 2 * (x / 2 % p) + x % 2
double_mod x p h =
    mod_unique x (p * 2) (x / 2 / p) (2 * (x / 2 % p) + x % 2) (omega (arith, mod-lt (x / 2) h))
      (omega (arith, ap (λ (t : ℕ). 2 * t) (div-add-mod (x / 2) p)))

pub pow_pos : (k : ℕ) → 0 < 2 ^ k
pow_pos zero = omega arith
pow_pos (suc k) = omega (arith, pow-suc 2 k, pow_pos k)

-- `x & (2^k - 1)` is the remainder by 2^k.
pub mask-mod : (k x : ℕ) → bit_and x (2 ^ k - 1) ≡ x % 2 ^ k
mask-mod zero x = omega (arith, and_zero_below x x (omega arith))
mask-mod (suc k) x =
    let half : (2 ^ suc k - 1) / 2 ≡ 2 ^ k - 1 = omega (arith, pow-suc 2 k, pow_pos k) in
    let odd : (2 ^ suc k - 1) % 2 ≡ 1 = omega (arith, pow-suc 2 k, pow_pos k) in
    rw (and_digit x, half, odd, mask-mod k (x / 2), pow-suc 2 k, double_mod x (2 ^ k) (pow_pos k))
      (omega arith)

-- `size > 0 && !(size & (size - 1))` holds of the powers of two only.
pub pow_of_test : (n x : ℕ) → x ≤ n → 0 < x → bit_and x (x - 1) ≡ 0 → (k : ℕ) × (x ≡ 2 ^ k)
pow_of_test zero x h p t = absurd (omega arith)
pow_of_test (suc n) x h p t = elim (Zero-cases (x % 2)) [
  | inl even ↦
      let half : (x - 1) / 2 ≡ x / 2 - 1 = omega arith in
      let digit : bit_and x (x - 1) ≡ 2 * bit_and (x / 2) (x / 2 - 1) + min (x % 2) ((x - 1) % 2) =
        rw half at (and_digit x (x - 1)) in
      let (k, e) = pow_of_test n (x / 2) (omega arith) (omega arith) (omega arith) in
      (suc k, omega (arith, pow-suc 2 k))
  | inr odd ↦
      let half : (x - 1) / 2 ≡ x / 2 = omega arith in
      let digit : bit_and x (x - 1) ≡ 2 * bit_and (x / 2) (x / 2) + min (x % 2) ((x - 1) % 2) =
        rw half at (and_digit x (x - 1)) in
      (0, omega (arith, and_self_below (x / 2) (x / 2)))
]

pub test_of_pow : (k : ℕ) → bit_and (2 ^ k) (2 ^ k - 1) ≡ 0
test_of_pow k = omega (arith, mask-mod k (2 ^ k), mod_self (2 ^ k))

pub pow-add : (k d : ℕ) → 2 ^ (k + d) ≡ 2 ^ k * 2 ^ d
pow-add k zero = let e : k + 0 ≡ k = omega arith in rw e (omega arith)
pow-add k (suc d) =
    let e : k + suc d ≡ suc (k + d) = omega arith in
    rw (e, pow-suc 2 (k + d), pow-suc 2 d, pow-add k d) (omega arith)

-- A word counter and its remainder by a smaller power of two wrap together.
pub pow_small : (k : ℕ) → k ≤ 31 → 2 ^ k < 2 ^ 32
pow_small k h =
    let sum : k + (31 - k) ≡ 31 = omega arith in
    let whole : 2 ^ 31 ≡ 2 ^ k * 2 ^ (31 - k) = ap (λ j. 2 ^ j) (sym sum) ∙ pow-add k (31 - k) in
    let pos = pow_pos (31 - k) in
    let less : 2 ^ k ≤ 2 ^ k * 2 ^ (31 - k) = grind arith in omega arith

pub mod-pow_mod : (x k n : ℕ) → k ≤ n → x % 2 ^ n % 2 ^ k ≡ x % 2 ^ k
mod-pow_mod x k n h =
    let e : n ≡ k + (n - k) = omega arith in
    let p : 2 ^ n ≡ 2 ^ k * 2 ^ (n - k) = ap (λ t. 2 ^ t) e ∙ pow-add k (n - k) in
    rw p (mod-mul_mod x (2 ^ k) (2 ^ (n - k)))
