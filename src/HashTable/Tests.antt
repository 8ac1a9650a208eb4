-- ===== src/HashTable/Tests.antt =====
-- Tests of the hash table, and its theorems at a table of two buckets.
use misc_c.Base.{
  length, ℕ, ◌*◌, ◌%◌, ◌^◌, ◌≡◌, ◌⊎◌, ◌<◌, refl, Bool, true, false, none, some, [], ◌∷◌, arith,
  ◌==◌,
}
use native.Mathlib.Nat.{mod-lt}
use misc_c.HashTable.{Item, Hash, type_hash_find, find_less}
use misc_c.HashTable.Chains.{insert, remove, holds, search}
use misc_c.HashTable.Ops.{items, IsValid, item_at, type_hash_find_lem}
use misc_c.Base.Memory.{copy_at}
use misc_c.HashTable.Resize.{type_hash_grow}
use misc_c.HashTable.Grow.{type_hash_grow_lem}
use misc_c.HashTable.Policy.{hash_add, hash_del}
use misc_c.HashTable.Load.{IsSized}
use misc_c.HashTable.Resized.{hash_add_lem, hash_del_lem}

-- Addresses are the same if their last digits are; the hash value is a multiple of 2^30.
abbrev same_digit : ℕ → ℕ → Bool
same_digit a b = a % 10 == b % 10

abbrev hash_of : ℕ → ℕ
hash_of a = a % 4 * 2 ^ 30

hash_of_bound : (a : ℕ) → hash_of a < 2 ^ 32
hash_of_bound a = let four : 0 < 4 = omega arith in omega (arith, mod-lt a four)

-- Buckets of 13 and of 2 and 3.
abbrev three : Hash
three = record {
  entries =
      (record { addr = 13; hash_val = 2 ^ 30 } ∷ [])
      ∷ (record { addr = 2; hash_val = 2 * 2 ^ 30 }
          ∷ record { addr = 7; hash_val = 3 * 2 ^ 30 }
          ∷ [])
      ∷ [];
  count = 3;
  tab_shift = 1;
  min_shift = 1;
  max_shift = 4;
}

three-IsValid : IsValid hash_of three
three-IsValid = record {
  buckets = refl;
  narrow_shift = omega arith;
  in_place = refl;
  own_hash = refl;
  counted = refl;
  narrow = omega arith;
}

find_27 :
    type_hash_find same_digit hash_of three 27 ≡ some (record { addr = 7; hash_val = 3 * 2 ^ 30 })
unfolding type_hash_find find_less
find_27 = refl

type_hash_find_lem_example :
    type_hash_find same_digit hash_of three 27
    ≡ search same_digit (item_at hash_of 27) (items three)
type_hash_find_lem_example =
    type_hash_find_lem same_digit hash_of three 27 hash_of_bound three-IsValid

type_hash_grow_lem_example :
    IsValid hash_of (type_hash_grow three 3)
    × (items (type_hash_grow three 3) ≡ items three)
    × ((type_hash_grow three 3).tab_shift ≡ 3)
type_hash_grow_lem_example =
    type_hash_grow_lem hash_of three 3 three-IsValid (omega arith) (omega arith)

abbrev wide_three : Hash
wide_three = type_hash_grow three 3

-- Growth puts the items 2 and 7 apart.
wide_three_buckets : length wide_three.entries ≡ 8
unfolding type_hash_grow copy_at
wide_three_buckets = refl

three-IsSized : IsSized three
three-IsSized = record {
  min_pos = omega arith;
  above_min = omega arith;
  below_max = omega arith;
  max_bound = omega arith;
}

hash_add_lem_example :
    (t : Hash) × (((x : Item) × (search same_digit (item_at hash_of 6) (items three) ≡ some x)
        × (hash_add same_digit hash_of three 6 ≡ (some x, t))
        × (items t ≡ items three))
      ⊎ ((search same_digit (item_at hash_of 6) (items three) ≡ none)
          × (hash_add same_digit hash_of three 6 ≡ (none, t))
          × (items t ≡ insert (item_at hash_of 6) (items three))))
    × IsValid hash_of t
    × IsSized t
    × ((t.count < 2 ^ t.tab_shift) ⊎ (t.tab_shift ≡ three.max_shift))
hash_add_lem_example =
    hash_add_lem same_digit hash_of three 6 hash_of_bound three-IsValid three-IsSized (omega arith)

hash_del_lem_example :
    ((t : Hash) × (holds (item_at hash_of 2) (items three) ≡ true)
      × (hash_del three (item_at hash_of 2) ≡ (some (item_at hash_of 2), t))
      × (items t ≡ remove (item_at hash_of 2) (items three))
      × IsValid hash_of t
      × IsSized t)
    ⊎ ((holds (item_at hash_of 2) (items three) ≡ false)
        × (hash_del three (item_at hash_of 2) ≡ (none, three)))
hash_del_lem_example =
    hash_del_lem hash_of three (item_at hash_of 2) hash_of_bound refl three-IsValid three-IsSized
