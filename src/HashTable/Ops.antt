-- ===== src/HashTable/Ops.antt =====
-- type_hash_add, type_hash_find and type_hash_del against one list of items in the order of their hash
-- values.
use misc_c.Base.{
  ℕ, zero, suc, ◌+◌, ◌-◌, ◌*◌, ◌%◌, ◌^◌, ◌≤◌, ◌<◌, ◌≡◌, refl, sym, ◌∙◌, ap, ◌⊎◌, inl, inr, Bool,
  true, false, none, some, List, [], arith, length, get_or, set, length-set, length-replicate,
  replicate, Bool-cases, Option-cases,
}
use misc_c.Base.Bits.{pow_pos, pow-add, pow_small}
use native.Mathlib.Nat.{div-lt_iff_lt-mul}
use misc_c.HashTable.{
  Item, Hash, hash_key, hash_size, type_hash_init, type_hash_add, type_hash_find, type_hash_del,
}
use misc_c.HashTable.Chains.{
  insert, remove, holds, hashed, search, find_less-search, add_less-search,
}
use misc_c.HashTable.Removal.{del_less-remove}
use misc_c.HashTable.Buckets.{concat, placed}
use misc_c.HashTable.Select.{
  Bucket, search-concat, holds-concat, insert-concat, remove-concat, sorted-Bucket, hashed-get_or,
  hashed-insert, hashed-remove, length-insert, length-remove,
}

abbrev pub items : Hash → List Item
items h = concat h.entries

-- The table's items carry the values of `hash`.
pub record IsValid (hash : ℕ → ℕ) (h : Hash) : Type 0 where
  pub buckets : length h.entries ≡ 2 ^ h.tab_shift
  pub narrow_shift : h.tab_shift ≤ 31
  pub in_place : placed h.tab_shift 0 h.entries ≡ true
  pub own_hash : hashed hash (items h) ≡ true
  pub counted : h.count ≡ length (items h)
  pub narrow : length (items h) < 2 ^ 32

pub hash_size_lem : (shift : ℕ) → shift ≤ 31 → hash_size shift ≡ 2 ^ shift
hash_size_lem shift le = omega (arith, pow_small shift le)

key_bound : (shift val : ℕ) → shift ≤ 31 → val < 2 ^ 32 → hash_key shift val < 2 ^ shift
key_bound shift val h l =
    let d = 2 ^ (32 - shift) in
    let sum : shift + (32 - shift) ≡ 32 = omega arith in
    let whole : 2 ^ shift * d ≡ 2 ^ 32 = sym (pow-add shift (32 - shift)) ∙ ap (λ k. 2 ^ k) sum in
    (div-lt_iff_lt-mul {k = d} {x = val} {y = 2 ^ shift} (pow_pos (32 - shift))).1 (omega arith)

module _ (hash : ℕ → ℕ) (wide : (a : ℕ) → hash a < 2 ^ 32) (h : Hash) (v : IsValid hash h) where
  selected :
      (it : Item)
      → it.hash_val ≡ hash it.addr
      → Bucket it h.tab_shift 0 h.entries (hash_key h.tab_shift it.hash_val)
  selected it e = record {
    ok = v.in_place;
    inside =
        let bound = key_bound h.tab_shift (hash it.addr) v.narrow_shift (wide it.addr) in
        rw (v.buckets, e) bound;
    key = omega arith;
  }

-- The item at an address, as type_hash_add and type_hash_find set its hash value.
abbrev pub item_at : (ℕ → ℕ) → ℕ → Item
item_at hash addr = record { addr = addr; hash_val = hash addr }

-- In a valid table type_hash_find gives the first item, in the order of the hash values, that has the
-- hash value looked for and that the comparison takes for the same, and NULL if there is none.
pub type_hash_find_lem :
    (same : ℕ → ℕ → Bool) (hash : ℕ → ℕ) (h : Hash) (addr : ℕ)
    → ((a : ℕ) → hash a < 2 ^ 32)
    → IsValid hash h
    → type_hash_find same hash h addr ≡ search same (item_at hash addr) (items h)
unfolding type_hash_find
type_hash_find_lem same hash h addr wide v =
    let it = item_at hash addr in
    let k = hash_key h.tab_shift (hash addr) in
    let b = selected hash wide h v it refl in
    find_less-search same it (get_or h.entries k []) (sorted-Bucket it h.tab_shift 0 h.entries k b)
    ∙ sym (search-concat it h.tab_shift same 0 h.entries k b)

-- type_hash_add on a valid table of fewer than 2^32 - 1 items: if one of that hash value is there which
-- the comparison takes for the same, it is returned and nothing changes; else NULL is returned and
-- the item is added behind those whose hash value is not greater, so that the table is valid and
-- holds the others in their order.
pub type_hash_add_lem :
    (same : ℕ → ℕ → Bool) (hash : ℕ → ℕ) (h : Hash) (addr : ℕ)
    → ((a : ℕ) → hash a < 2 ^ 32)
    → IsValid hash h
    → suc (length (items h)) < 2 ^ 32
    → ((x : Item) × (search same (item_at hash addr) (items h) ≡ some x)
        × (type_hash_add same hash h addr ≡ (some x, h)))
      ⊎ ((t : Hash) × (search same (item_at hash addr) (items h) ≡ none)
          × (type_hash_add same hash h addr ≡ (none, t))
          × IsValid hash t
          × (items t ≡ insert (item_at hash addr) (items h)))
unfolding type_hash_add
type_hash_add_lem same hash h addr wide v room =
    let it = item_at hash addr in
    let k = hash_key h.tab_shift (hash addr) in
    let c = get_or h.entries k [] in
    let b = selected hash wide h v it refl in
    let (found, chain) = add_less-search same it c (sorted-Bucket it h.tab_shift 0 h.entries k b) in
    let whole = search-concat it h.tab_shift same 0 h.entries k b in
    elim (Option-cases (search same it c)) [
      | inr (x, e) ↦ inl (x, whole ∙ e, rw (type_hash_add, found, e) refl)
      | inl e ↦
          let (same_items, ok) = insert-concat it h.tab_shift 0 h.entries k b in
          let longer = length-insert it (items h) in
          let t : Hash = record h {
            entries = set h.entries k (insert it c);
            count = (h.count + 1) % 2 ^ 32;
          } in
          inr (
            t,
            whole ∙ e,
            rw (type_hash_add, found, e, chain e) refl,
            record {
              buckets = length-set h.entries k (insert it c) ∙ v.buckets;
              narrow_shift = v.narrow_shift;
              in_place = ok;
              own_hash = rw same_items (hashed-insert hash it (items h) refl v.own_hash);
              counted = let n = v.counted in rw same_items (omega arith);
              narrow = rw same_items (omega arith);
            },
            same_items,
          )
    ]

-- type_hash_del on a valid table, for an item that carries its hash value: if it is in the table,
-- it is returned and taken out, and the table is valid and holds the others in their order; else
-- NULL is returned and nothing changes.
pub type_hash_del_lem :
    (hash : ℕ → ℕ) (h : Hash) (it : Item)
    → ((a : ℕ) → hash a < 2 ^ 32)
    → it.hash_val ≡ hash it.addr
    → IsValid hash h
    → ((t : Hash) × (holds it (items h) ≡ true)
        × (type_hash_del h it ≡ (some it, t))
        × IsValid hash t
        × (items t ≡ remove it (items h)))
      ⊎ ((holds it (items h) ≡ false) × (type_hash_del h it ≡ (none, h)))
unfolding type_hash_del
type_hash_del_lem hash h it wide g v =
    let k = hash_key h.tab_shift it.hash_val in
    let c = get_or h.entries k [] in
    let b = selected hash wide h v it g in
    let (found, chain) =
      del_less-remove hash it g c (hashed-get_or hash h.entries k v.own_hash)
        (sorted-Bucket it h.tab_shift 0 h.entries k b) in
    let whole = holds-concat it h.tab_shift 0 h.entries k b in
    elim (Bool-cases (holds it c)) [
      | inr e ↦ inr (whole ∙ e, rw (type_hash_del, found, e) refl)
      | inl e ↦
          let (same_items, ok) = remove-concat it h.tab_shift 0 h.entries k b in
          let shorter = length-remove it (items h) (whole ∙ e) in
          let t : Hash = record h {
            entries = set h.entries k (remove it c);
            count = (h.count + 2 ^ 32 - 1) % 2 ^ 32;
          } in
          inl (
            t,
            whole ∙ e,
            rw (type_hash_del, found, e, chain) refl,
            record {
              buckets = length-set h.entries k (remove it c) ∙ v.buckets;
              narrow_shift = v.narrow_shift;
              in_place = ok;
              own_hash = rw same_items (hashed-remove hash it (items h) v.own_hash);
              counted = let n = v.counted in let w = v.narrow in rw same_items (omega arith);
              narrow = let w = v.narrow in rw same_items (omega arith);
            },
            same_items,
          )
    ]

concat-empty : (n : ℕ) → concat (replicate n []) ≡ []
concat-empty zero = refl
concat-empty (suc n) = concat-empty n

placed-empty : (shift i n : ℕ) → placed shift i (replicate n []) ≡ true
placed-empty shift i zero = refl
placed-empty shift i (suc n) = placed-empty shift (i + 1) n

-- An initialised table is valid and empty.
pub type_hash_init-IsValid :
    (hash : ℕ → ℕ) (min_shift max_shift : ℕ)
    → min_shift ≤ 31
    → IsValid hash (type_hash_init min_shift max_shift)
      × (items (type_hash_init min_shift max_shift) ≡ [])
unfolding type_hash_init
type_hash_init-IsValid hash min_shift max_shift l =
    let n = hash_size min_shift in
    (
      record {
        buckets = length-replicate {A = List Item} n [] ∙ hash_size_lem min_shift l;
        narrow_shift = l;
        in_place = placed-empty min_shift 0 n;
        own_hash = rw (concat-empty n) refl;
        counted = rw (concat-empty n) refl;
        narrow = rw (concat-empty n) (omega arith);
      },
      concat-empty n,
    )
