-- ===== src/HashTable/Policy.antt =====
-- When a hash table is resized, and the functions of declare_hash that do it.
use misc_c.Base.{
  ℕ, zero, suc, ◌+◌, ◌-◌, ◌/◌, ◌%◌, ◌^◌, Bool, false, Option, none, some, ltb, leb, ◌==◌,
  if◌then◌else◌,
}
use misc_c.HashTable.{Item, Hash, hash_size, type_hash_add, type_hash_del}
use misc_c.HashTable.Resize.{type_hash_grow, type_hash_shrink}

pub data SizeOpt : Type 0 where
  opt_grow opt_shrink : SizeOpt

-- The number of binary digits of `n`, of at most `fuel`.
unfoldable pub bits : (fuel n : ℕ) → ℕ
bits zero n = 0
bits (suc fuel) n = let rest = bits fuel (n / 2) in if n == 0 then 0 else rest + 1

-- 32 - __builtin_clz(n)
unfoldable pub hash_shift : ℕ → ℕ
hash_shift n = bits 32 n

abbrev pub type_hash_resize_tresh_up : Hash → Bool
type_hash_resize_tresh_up h =
    if h.tab_shift == h.max_shift then false else leb (hash_size h.tab_shift) h.count

abbrev pub type_hash_resize_tresh_down : Hash → Bool
type_hash_resize_tresh_down h =
    if h.tab_shift == h.min_shift
    then false
    else leb h.count ((hash_size h.tab_shift / 2 + 2 ^ 32 - 1) % 2 ^ 32)

abbrev pub type_hash_shift_cal : Hash → ℕ
type_hash_shift_cal h =
    let count = if h.count == 0 then 1 else h.count in
    let shift = hash_shift count in
    let capped = if ltb h.max_shift shift then h.max_shift else shift in
    if ltb capped h.min_shift then h.min_shift else capped

abbrev pub type_hash_resize : Hash → SizeOpt → Hash
type_hash_resize h opt =
    let new_shift = type_hash_shift_cal h in
    if new_shift == h.tab_shift then h else elim opt [
      | opt_grow ↦ type_hash_grow h new_shift
      | opt_shrink ↦ type_hash_shrink h new_shift
    ]

abbrev pub grown_after_add : Hash → Hash
grown_after_add h = if type_hash_resize_tresh_up h then type_hash_resize h opt_grow else h

abbrev pub shrunk_after_del : Hash → Hash
shrunk_after_del h = if type_hash_resize_tresh_down h then type_hash_resize h opt_shrink else h

-- fprefix ## _hash_add; the item is its own structure's address.
unfoldable pub hash_add : (ℕ → ℕ → Bool) → (ℕ → ℕ) → Hash → (addr : ℕ) → Option Item × Hash
hash_add same hash h addr =
    let (found, t) = type_hash_add same hash h addr in (found, grown_after_add t)

abbrev pub finish_del : Option Item × Hash → Option Item × Hash
finish_del (none, t) = (none, t)
finish_del (some x, t) = (some x, shrunk_after_del t)

-- fprefix ## _hash_del
unfoldable pub hash_del : Hash → Item → Option Item × Hash
hash_del h it = finish_del (type_hash_del h it)
