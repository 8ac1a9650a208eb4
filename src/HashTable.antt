-- ===== src/HashTable.antt =====
-- lib/type/type_hash: intrusive hash tables. A bucket is the list of the items that its chain links,
-- kept in the order of their hash values; the top bits of the hash value select the bucket.
pub mod Chains
pub mod Removal
pub mod Buckets
pub mod Select
pub mod Resize
pub mod Cut
pub mod Rows
pub mod Grow
pub mod Chunks
pub mod Shrink
pub mod Policy
pub mod Load
pub mod Resized
pub mod Ops
mod Tests
use misc_c.Base.{
  ℕ, zero, suc, ◌+◌, ◌-◌, ◌*◌, ◌/◌, ◌%◌, ◌^◌, Bool, true, false, ◌&&◌, Option, none, some, List, [],
  ◌∷◌, ltb, leb, ◌==◌, if◌then◌else◌, get_or, set, replicate,
}

-- `hash_item_t`: its address and its hash value.
pub record Item : Type 0 where
  pub addr : ℕ
  pub hash_val : ℕ

-- `hash_head_t`
pub record Hash : Type 0 where
  pub entries : List (List Item)
  pub count : ℕ
  pub tab_shift : ℕ
  pub min_shift : ℕ
  pub max_shift : ℕ

abbrev pub hash_size : (shift : ℕ) → ℕ
hash_size shift = 2 ^ shift % 2 ^ 32

-- val >> (32 - shift)
abbrev pub hash_key : (shift val : ℕ) → ℕ
hash_key shift val = val / 2 ^ (32 - shift)

unfoldable pub type_hash_init : (min_shift max_shift : ℕ) → Hash
type_hash_init min_shift max_shift = record {
  entries = replicate (hash_size min_shift) [];
  count = 0;
  tab_shift = min_shift;
  min_shift = min_shift;
  max_shift = max_shift;
}

-- What a walk along a chain has come to: the item found, if any, and the chain afterwards.
pub record Walk : Type 0 where
  pub found : Option Item
  pub chain : List Item

abbrev pub keep_front : Item → Walk → Walk
keep_front x w = record { found = w.found; chain = x ∷ w.chain }

-- `same` says whether cmp_func gives 0, on the addresses of the items that it compares.
module _ (same : ℕ → ℕ → Bool) where
  -- The second loop of type_hash_add, and the insertion.
  unfoldable pub add_equal : Item → List Item → Walk
  add_equal it [] = record { found = none; chain = it ∷ [] }
  add_equal it (x ∷ xs) =
      let rest = add_equal it xs in
      if x.hash_val == it.hash_val
      then (if same x.addr it.addr
          then record { found = some x; chain = x ∷ xs }
          else keep_front x rest)
      else record { found = none; chain = it ∷ x ∷ xs }

  -- The first loop of type_hash_add.
  unfoldable pub add_less : Item → List Item → Walk
  unfolding add_equal
  add_less it [] = add_equal it []
  add_less it (x ∷ xs) =
      let rest = add_less it xs in
      if ltb x.hash_val it.hash_val then keep_front x rest else add_equal it (x ∷ xs)

  unfoldable pub find_equal : Item → List Item → Option Item
  find_equal it [] = none
  find_equal it (x ∷ xs) =
      let rest = find_equal it xs in
      if x.hash_val == it.hash_val then (if same x.addr it.addr then some x else rest) else none

  unfoldable pub find_less : Item → List Item → Option Item
  unfolding find_equal
  find_less it [] = none
  find_less it (x ∷ xs) =
      let rest = find_less it xs in
      if ltb x.hash_val it.hash_val then rest else find_equal it (x ∷ xs)

  module _ (hash : ℕ → ℕ) where
    -- The result is the item that was there already.
    unfoldable pub type_hash_add : Hash → (addr : ℕ) → Option Item × Hash
    unfolding add_less
    type_hash_add h addr =
        let it : Item = record { addr = addr; hash_val = hash addr } in
        let high_bits = hash_key h.tab_shift it.hash_val in
        let w = add_less it (get_or h.entries high_bits []) in
        elim w.found [
          | some x ↦ (some x, h)
          | none ↦ (
            none,
            record h { entries = set h.entries high_bits w.chain; count = (h.count + 1) % 2 ^ 32 },
          )
        ]

    unfoldable pub type_hash_find : Hash → (addr : ℕ) → Option Item
    unfolding find_less
    type_hash_find h addr =
        let it : Item = record { addr = addr; hash_val = hash addr } in
        find_less it (get_or h.entries (hash_key h.tab_shift it.hash_val) [])

-- The second loop of type_hash_del, and the removal.
unfoldable pub del_equal : Item → List Item → Walk
del_equal it [] = record { found = none; chain = [] }
del_equal it (x ∷ xs) =
    let rest = del_equal it xs in
    if x.addr == it.addr
    then record { found = some x; chain = xs }
    else if x.hash_val == it.hash_val
    then keep_front x rest
    else record { found = none; chain = x ∷ xs }

unfoldable pub del_less : Item → List Item → Walk
unfolding del_equal
del_less it [] = del_equal it []
del_less it (x ∷ xs) =
    let rest = del_less it xs in
    if ltb x.hash_val it.hash_val then keep_front x rest else del_equal it (x ∷ xs)

unfoldable pub type_hash_del : Hash → Item → Option Item × Hash
unfolding del_less
type_hash_del h it =
    let high_bits = hash_key h.tab_shift it.hash_val in
    let w = del_less it (get_or h.entries high_bits []) in
    elim w.found [
      | none ↦ (none, h)
      | some x ↦ (
        some x,
        record h {
          entries = set h.entries high_bits w.chain;
          count = (h.count + 2 ^ 32 - 1) % 2 ^ 32;
        },
      )
    ]
