-- ===== src/Fifo/Inv.antt =====
-- The representation invariant of fifo_t: a power of two for its size, and no more bytes than fit.
use Prim.Native.Nat.{bit_and}
use misc_c.Base.{
  ℕ, ◌-◌, ◌%◌, ◌^◌, ◌≤◌, ◌<◌, ◌≡◌, true, none, some, length, arith, length-replicate, replicate,
  Bool-cases, inl, inr, ◌≢◌, refl,
}
use native.Mathlib.Nat.{pow-le-pow_right}
use native.Mathlib.Decide.{dec_lt}
use misc_c.Base.Bits.{mask-mod, pow_of_test, test_of_pow, pow_pos, mod-pow_mod}
use misc_c.Fifo.{Fifo, sub_size, mask, is_pow, fifo_create}

abbrev pub used : Fifo → ℕ
used f = sub_size f.tail f.head

pub record IsValid (f : Fifo) : Type 0 where
  pub shift : ℕ
  pub narrow : shift < 64
  pub pow : f.size ≡ 2 ^ shift
  pub storage : length f.buffer ≡ f.size
  pub head_in : f.head < 2 ^ 64
  pub tail_in : f.tail < 2 ^ 64
  pub fits : used f ≤ f.size

-- Facts that the proofs need of a valid ring.
pub record Facts (f : Fifo) : Type 0 where
  pub pos : 0 < f.size
  pub small : f.size ≤ 2 ^ 63
  pub masked : (x : ℕ) → bit_and x (mask f) ≡ x % f.size
  pub wraps : (x : ℕ) → x % 2 ^ 64 % f.size ≡ x % f.size

pow-le : (k n : ℕ) → k ≤ n → 2 ^ k ≤ 2 ^ n
pow-le k n h = pow-le-pow_right {n = 2} (omega arith) h

pub facts : {f : Fifo} → IsValid f → Facts f
facts {f} v =
    let pos : 0 < f.size = rw v.pow (pow_pos v.shift) in
    let small : f.size ≤ 2 ^ 63 = rw v.pow (pow-le v.shift 63 (omega arith)) in
    let mask_eq : mask f ≡ 2 ^ v.shift - 1 = omega arith in
    record {
      pos = pos;
      small = small;
      masked = λ x. rw (mask_eq, mask-mod v.shift x, v.pow);
      wraps = λ x. rw v.pow (mod-pow_mod x v.shift 64 (omega arith));
    }

-- What the test `size > 0 && !(size & (size - 1))` lets through.
is_pow-pow : (size : ℕ) → size < 2 ^ 64 → is_pow size ≡ true → (k : ℕ) × (size ≡ 2 ^ k) × (k < 64)
is_pow-pow size h e =
    let pos : 0 < size = ground arith in
    let minus : sub_size size 1 ≡ size - 1 = omega arith in
    let clear : bit_and size (sub_size size 1) ≡ 0 = ground arith in
    let (k, p) = pow_of_test size size (omega arith) pos (rw minus at clear) in
    (
      k,
      p,
      elim (dec_lt k 64) [
        | yes below ↦ below
        | no above ↦ absurd (omega (arith, pow-le 64 k (omega arith)))
      ],
    )

pow-is_pow : (k size : ℕ) → size < 2 ^ 64 → size ≡ 2 ^ k → is_pow size ≡ true
pow-is_pow k size h e =
    let pos : 0 < size = rw e (pow_pos k) in
    let minus : sub_size size 1 ≡ 2 ^ k - 1 = omega arith in
    let clear : bit_and size (sub_size size 1) ≡ 0 = rw (minus, e) (test_of_pow k) in ground arith

-- Where there is memory, fifo_create accepts exactly the powers of two among the sizes that
-- `size_t` holds, and what it returns is valid, empty and of that size.
pub fifo_create_lem :
    (size : ℕ)
    → size < 2 ^ 64
    → ((f : Fifo) → fifo_create true size ≡ some f → IsValid f × (f.size ≡ size) × (used f ≡ 0))
      × ((k : ℕ) → size ≡ 2 ^ k → fifo_create true size ≢ none)
      × (((k : ℕ) → size ≢ 2 ^ k) → fifo_create true size ≡ none)
unfolding fifo_create
fifo_create_lem size h = (
  λ f e.
      let (k, p, below) = is_pow-pow size h (ground arith) in
      let made : f ≡ record { head = 0; tail = 0; size = size; buffer = replicate size 0 } =
        ground arith in
      rw made (
        record {
          shift = k;
          narrow = below;
          pow = p;
          storage = length-replicate size 0;
          head_in = omega arith;
          tail_in = omega arith;
          fits = omega arith;
        },
        refl,
        refl,
      ),
  λ k e. ground (arith, pow-is_pow k size h e),
  λ other. elim (Bool-cases (is_pow size)) [
    | inl e ↦ let (k, p, below) = is_pow-pow size h e in absurd (other k p)
    | inr e ↦ rw e
  ],
)
