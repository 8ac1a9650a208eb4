-- ===== src/HashTable/Load.antt =====
-- The resizing policy: the shift that fits a count, and the table after an addition or a removal.
use misc_c.Base.{
  ℕ, zero, suc, ◌+◌, ◌-◌, ◌/◌, ◌%◌, ◌^◌, ◌≤◌, ◌<◌, ◌≡◌, ◌⊎◌, inl, inr, true, false, ltb, ◌==◌,
  if◌then◌else◌, arith, Bool-cases,
}
use misc_c.Base.Bits.{pow_pos, pow_small}
use misc_c.HashTable.Ops.{hash_size_lem}
use native.Mathlib.Nat.{pow-suc}
use misc_c.HashTable.{Hash}
use misc_c.HashTable.Policy.{
  bits, hash_shift, type_hash_resize_tresh_up, type_hash_resize_tresh_down, type_hash_shift_cal,
}

bits_le : (fuel k n : ℕ) → n < 2 ^ k → bits fuel n ≤ k
unfolding bits
bits_le zero k n h = omega arith
bits_le (suc fuel) zero n h = let none_left : n ≡ 0 = omega arith in ground arith
bits_le (suc fuel) (suc k) n h =
    let half : n / 2 < 2 ^ k = omega (arith, pow-suc 2 k) in ground (arith, bits_le fuel k (n / 2))

bits_gt : (fuel k n : ℕ) → 2 ^ k ≤ n → n < 2 ^ fuel → k < bits fuel n
unfolding bits
bits_gt zero k n h l = absurd (omega (arith, pow_pos k))
bits_gt (suc fuel) zero n h l = ground arith
bits_gt (suc fuel) (suc k) n h l =
    let low : 2 ^ k ≤ n / 2 = omega (arith, pow-suc 2 k) in
    let high : n / 2 < 2 ^ fuel = omega (arith, pow-suc 2 fuel) in
    let pos = pow_pos k in ground (arith, bits_gt fuel k (n / 2))

bits_fit : (fuel n : ℕ) → n < 2 ^ fuel → n < 2 ^ bits fuel n
unfolding bits
bits_fit zero n l = l
bits_fit (suc fuel) n l =
    let rest : n / 2 < 2 ^ bits fuel (n / 2) =
      bits_fit fuel (n / 2) (omega (arith, pow-suc 2 fuel)) in
    let next : bits fuel (n / 2) + 1 ≡ suc (bits fuel (n / 2)) = omega arith in
    elim (Bool-cases (n == 0)) [
      | inl e ↦ rw e (ground arith)
      | inr e ↦ rw (e, next, pow-suc 2 (bits fuel (n / 2))) (omega arith)
    ]

hash_shift_le : (k n : ℕ) → n < 2 ^ k → hash_shift n ≤ k
unfolding hash_shift
hash_shift_le k n h = bits_le 32 k n h

hash_shift_gt : (k n : ℕ) → 2 ^ k ≤ n → n < 2 ^ 32 → k < hash_shift n
unfolding hash_shift
hash_shift_gt k n h l = bits_gt 32 k n h l

hash_shift_fit : (n : ℕ) → n < 2 ^ 32 → n < 2 ^ hash_shift n
unfolding hash_shift
hash_shift_fit n l = bits_fit 32 n l

half_pow : (k : ℕ) → 0 < k → 2 ^ k / 2 ≡ 2 ^ (k - 1)
half_pow zero h = absurd (omega arith)
half_pow (suc k) h = let e : suc k - 1 ≡ k = omega arith in rw e (omega (arith, pow-suc 2 k))

pow_two : (k : ℕ) → 1 ≤ k → 2 ≤ 2 ^ k
pow_two zero h = absurd (omega arith)
pow_two (suc k) h = omega (arith, pow-suc 2 k, pow_pos k)

-- The shifts of a table that type_hash_init has made.
pub record IsSized (h : Hash) : Type 0 where
  pub min_pos : 0 < h.min_shift
  pub above_min : h.min_shift ≤ h.tab_shift
  pub below_max : h.tab_shift ≤ h.max_shift
  pub max_bound : h.max_shift ≤ 31

module _ (h : Hash) (z : IsSized h) (narrow : h.count < 2 ^ 32) where
  -- A table that is due to grow gets a larger shift.
  pub shift_cal-grow :
      type_hash_resize_tresh_up h ≡ true
      → (h.tab_shift < type_hash_shift_cal h)
        × (type_hash_shift_cal h ≤ h.max_shift)
        × ((h.count < 2 ^ type_hash_shift_cal h) ⊎ (type_hash_shift_cal h ≡ h.max_shift))
  shift_cal-grow up =
      let count = if h.count == 0 then 1 else h.count in
      let size = hash_size_lem h.tab_shift (omega (arith, z.below_max, z.max_bound)) in
      let full : 2 ^ h.tab_shift ≤ h.count = ground (arith, size) in
      let pos = pow_pos h.tab_shift in
      let same : count ≡ h.count = ground arith in
      let larger : h.tab_shift < hash_shift count =
        hash_shift_gt h.tab_shift count (omega arith) (omega arith) in
      let fit : count < 2 ^ hash_shift count = hash_shift_fit count (omega arith) in
      let b = z.below_max in
      let a = z.above_min in
      let not_low : ltb (hash_shift count) h.min_shift ≡ false = ground arith in
      (
        ground arith,
        ground arith,
        elim (Bool-cases (ltb h.max_shift (hash_shift count))) [
          | inl e ↦ inr (rw e (ground arith))
          | inr e ↦ inl (rw (e, not_low) (omega arith))
        ],
      )

  pub shift_cal-shrink :
      type_hash_resize_tresh_down h ≡ true
      → (type_hash_shift_cal h < h.tab_shift) × (h.min_shift ≤ type_hash_shift_cal h)
  shift_cal-shrink down =
      let count = if h.count == 0 then 1 else h.count in
      let a = z.above_min in
      let m = z.min_pos in
      let top = z.below_max in
      let last = z.max_bound in
      let lower = h.tab_shift - 1 in
      let above : 1 ≤ lower = ground arith in
      let half : 2 ^ h.tab_shift / 2 ≡ 2 ^ lower = half_pow h.tab_shift (omega arith) in
      let bound : 2 ^ lower < 2 ^ 32 = pow_small lower (omega arith) in
      let two : 2 ≤ 2 ^ lower = pow_two lower above in
      let few : h.count ≤ (2 ^ h.tab_shift / 2 + 2 ^ 32 - 1) % 2 ^ 32 =
        ground (arith, hash_size_lem h.tab_shift (omega (arith, z.below_max, z.max_bound))) in
      let smaller : hash_shift count ≤ h.tab_shift - 1 =
        hash_shift_le (h.tab_shift - 1) count (ground arith) in
      ground arith
