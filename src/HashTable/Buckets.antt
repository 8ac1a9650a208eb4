-- ===== src/HashTable/Buckets.antt =====
-- The buckets of a table as one list of items: only the bucket that the top bits select matters to
-- a hash value.
use misc_c.Base.{
  ℕ, ◌+◌, ◌-◌, ◌*◌, ◌/◌, ◌^◌, ◌<◌, ◌≡◌, refl, Bool, true, ◌&&◌, List, [], ◌∷◌, ◌++◌, arith, ltb,
  ◌==◌,
}
use misc_c.Base.Bits.{pow_pos}
use native.Mathlib.Nat.{div-lt_iff_lt-mul, div-mul-le_self}
use misc_c.HashTable.{Item, hash_key}
use misc_c.HashTable.Chains.{sorted, above}

abbrev pub concat : List (List Item) → List Item
concat [] = []
concat (c ∷ cs) = c ++ concat cs

-- Whether bucket `i` is where these items belong.
abbrev pub all_key : (shift i : ℕ) → List Item → Bool
all_key shift i [] = true
all_key shift i (x ∷ xs) = (hash_key shift x.hash_val == i) && all_key shift i xs

-- Whether the buckets from number `i` on are sorted and hold what belongs to them.
abbrev pub placed : (shift i : ℕ) → List (List Item) → Bool
placed shift i [] = true
placed shift i (c ∷ cs) = all_key shift i c && (sorted c && placed shift (i + 1) cs)

-- Whether all hash values of the list are below that of `x`.
abbrev pub below : Item → List Item → Bool
below x [] = true
below x (y ∷ ys) = ltb y.hash_val x.hash_val && below x ys

pub key_lt : (shift a b : ℕ) → hash_key shift a < hash_key shift b → a < b
key_lt shift a b h =
    let d = 2 ^ (32 - shift) in
    let under : a < b / d * d =
      (div-lt_iff_lt-mul {k = d} {x = a} {y = b / d} (pow_pos (32 - shift))).0 h in
    omega (arith, div-mul-le_self b d)

above-append :
    (x : Item) (xs ys : List Item)
    → above x xs ≡ true
    → above x ys ≡ true
    → above x (xs ++ ys) ≡ true
above-append x [] ys h k = k
above-append x (y ∷ xs) ys h k = ground (arith, above-append x xs ys)

all_key-above :
    (shift i : ℕ) (it : Item) (xs : List Item)
    → hash_key shift it.hash_val < i
    → all_key shift i xs ≡ true
    → above it xs ≡ true
all_key-above shift i it [] l k = refl
all_key-above shift i it (x ∷ xs) l k =
    ground (arith, all_key-above shift i it xs, key_lt shift it.hash_val x.hash_val)

pub all_key-below :
    (shift i : ℕ) (it : Item) (xs : List Item)
    → i < hash_key shift it.hash_val
    → all_key shift i xs ≡ true
    → below it xs ≡ true
all_key-below shift i it [] l k = refl
all_key-below shift i it (x ∷ xs) l k =
    ground (arith, all_key-below shift i it xs, key_lt shift x.hash_val it.hash_val)

pub placed-above :
    (shift i : ℕ) (it : Item) (cs : List (List Item))
    → hash_key shift it.hash_val < i
    → placed shift i cs ≡ true
    → above it (concat cs) ≡ true
placed-above shift i it [] l p = refl
placed-above shift i it (c ∷ cs) l p =
    above-append it c (concat cs) (all_key-above shift i it c l (ground arith))
      (placed-above shift (i + 1) it cs (omega arith) (ground arith))
