-- ===== src/Base/Bytes.antt =====
-- Numbers put together from bytes: `(a << 8) | b`, and what a mask does to each byte.
use Prim.Native.Nat.{
  ℕ, zero, suc, ◌+◌, ◌*◌, ◌/◌, ◌%◌, ◌^◌, ◌≤◌, ◌<◌, max, bit_and, bit_or, digits, bit_or-bitwise,
}
use mathlib.Core.Path.{◌≡◌, refl, sym, ◌∙◌}
use mathlib.Core.Logic.{inl, inr}
use native.Mathlib.Nat.{pow-suc}
use native.Mathlib.Omega.{arith}
use misc_c.Base.Bits.{Zero-cases, and_digit, and_zero_left}

-- The recursion that the native `bit_or` stands for, with its fuel.
abbrev disj : ℕ → ℕ → ℕ → ℕ
disj = digits (λ b. b) max

disj_any_fuel : (f g x y : ℕ) → x ≤ f → x ≤ g → disj f x y ≡ disj g x y
disj_any_fuel zero zero x y p q = refl
disj_any_fuel zero (suc g) zero y p q = refl
disj_any_fuel (suc f) zero zero y p q = refl
disj_any_fuel (suc f) (suc g) zero y p q = refl
disj_any_fuel zero g (suc x) y p q = absurd (omega arith)
disj_any_fuel (suc f) zero (suc x) y p q = absurd (omega arith)
disj_any_fuel (suc f) (suc g) (suc x) y p q =
    omega (arith, disj_any_fuel f g (suc x / 2) (y / 2) (omega arith) (omega arith))

or_zero_left : (y : ℕ) → bit_or 0 y ≡ y
or_zero_left y = bit_or-bitwise 0 y

or_digit : (x y : ℕ) → bit_or x y ≡ 2 * bit_or (x / 2) (y / 2) + max (x % 2) (y % 2)
or_digit zero y = omega (arith, or_zero_left y, or_zero_left (y / 2))
or_digit (suc x) y = omega (
  arith,
  bit_or-bitwise (suc x) y,
  bit_or-bitwise (suc x / 2) (y / 2),
  disj_any_fuel x (suc x / 2) (suc x / 2) (y / 2) (omega arith) (omega arith),
)

or_zero_below : (n x : ℕ) → x ≤ n → bit_or x 0 ≡ x
or_zero_below zero x h = let e : x ≡ 0 = omega arith in rw e (or_zero_left 0)
or_zero_below (suc n) x h = elim (Zero-cases x) [
  | inl e ↦ rw e (or_zero_left 0)
  | inr p ↦ omega (arith, or_digit x 0, or_zero_below n (x / 2) (omega arith))
]

pow_double : (k a : ℕ) → 2 ^ suc k * a ≡ 2 * (2 ^ k * a)
pow_double k a = rw (pow-suc 2 k) (grind arith)

-- Digits above `c` and `c` itself do not meet.
pub or-shift : (k a c : ℕ) → c < 2 ^ k → bit_or (2 ^ k * a) c ≡ 2 ^ k * a + c
or-shift zero a c h =
    let e : c ≡ 0 = omega arith in rw e (or_zero_below (1 * a) (1 * a) (omega arith) ∙ omega arith)
or-shift (suc k) a c h =
    let e = pow_double k a in
    let half : 2 * (2 ^ k * a) / 2 ≡ 2 ^ k * a = omega arith in
    rw (e, or_digit, half) (omega (arith, or-shift k a (c / 2) (omega (arith, pow-suc 2 k))))

-- A mask works on the digits above and below separately.
pub and-join :
    (k a b c d : ℕ)
    → c < 2 ^ k
    → d < 2 ^ k
    → bit_and (2 ^ k * a + c) (2 ^ k * b + d) ≡ 2 ^ k * bit_and a b + bit_and c d
and-join zero a b c d h g =
    let ec : c ≡ 0 = omega arith in
    let ed : d ≡ 0 = omega arith in
    let ea : 1 * a + 0 ≡ a = omega arith in
    let eb : 1 * b + 0 ≡ b = omega arith in rw (ec, ed, ea, eb, and_zero_left 0) (omega arith)
and-join (suc k) a b c d h g =
    let ha : (2 * (2 ^ k * a) + c) / 2 ≡ 2 ^ k * a + c / 2 = omega arith in
    let hb : (2 * (2 ^ k * b) + d) / 2 ≡ 2 ^ k * b + d / 2 = omega arith in
    let more =
      and-join k a b (c / 2) (d / 2) (omega (arith, pow-suc 2 k)) (omega (arith, pow-suc 2 k)) in
    rw
      (
        pow_double k a,
        pow_double k b,
        and_digit,
        ha,
        hb,
        more,
        pow_double k (bit_and a b),
        and_digit c d,
      )
      (omega arith)

and_le_below : (n x y : ℕ) → x ≤ n → bit_and x y ≤ x
and_le_below zero x y h =
    let e : x ≡ 0 = omega arith in omega (arith, rw (sym e) at (and_zero_left y))
and_le_below (suc n) x y h = elim (Zero-cases x) [
  | inl e ↦ omega (arith, rw (sym e) at (and_zero_left y))
  | inr p ↦ omega (arith, and_digit x y, and_le_below n (x / 2) (y / 2) (omega arith))
]

pub and-le : (x y : ℕ) → bit_and x y ≤ x
and-le x y = and_le_below x x y (omega arith)
