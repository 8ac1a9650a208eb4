-- ===== src/HashTable/Resize.antt =====
-- type_hash_grow: each bucket's sorted chain is cut into the chains of the new buckets.
use Prim.Native.Nat.{bit_and}
use misc_c.Base.{
  ℕ, zero, suc, ◌+◌, ◌-◌, ◌*◌, ◌^◌, List, [], ◌∷◌, ◌++◌, ltb, if◌then◌else◌, get_or, set, take,
  replicate,
}
use misc_c.Base.Memory.{copy_at}
use misc_c.HashTable.{Item, Hash, hash_size, hash_key}

-- The low `delta` bits of the item's new key.
abbrev pub mid_bits : (new_shift delta : ℕ) → Item → ℕ
mid_bits new_shift delta x = bit_and (hash_key new_shift x.hash_val) (2 ^ delta - 1)

-- The inner loop: the front of the chain that stays in new bucket `i`, and what is left.
abbrev pub cut_chain : (new_shift delta i : ℕ) → List Item → List Item × List Item
cut_chain new_shift delta i [] = ([], [])
cut_chain new_shift delta i (x ∷ xs) =
    let (front, rest) = cut_chain new_shift delta i xs in
    if ltb i (mid_bits new_shift delta x) then ([], x ∷ xs) else (x ∷ front, rest)

-- The chains of `n` new buckets from number `i` on; what is left stays in the last one.
abbrev pub spread : (new_shift delta n i : ℕ) → List Item → List (List Item)
spread new_shift delta zero i c = []
spread new_shift delta (suc zero) i c = c ∷ []
spread new_shift delta (suc (suc n)) i c =
    let (front, rest) = cut_chain new_shift delta i c in
    front ∷ spread new_shift delta (suc n) (i + 1) rest

-- The loop over the old buckets, from the last one down. The new index `(old << delta) | i` is
-- a sum, as `i` is below 2^delta.
abbrev pub grow_loop : (new_shift delta old_size : ℕ) → List (List Item) → List (List Item)
grow_loop new_shift delta zero entries = entries
grow_loop new_shift delta (suc old) entries = grow_loop new_shift delta old (
    copy_at (set entries old []) (old * 2 ^ delta)
      (spread new_shift delta (2 ^ delta) 0 (get_or entries old [])))

unfoldable pub type_hash_grow : Hash → (new_shift : ℕ) → Hash
type_hash_grow h new_shift =
    let delta = new_shift - h.tab_shift in
    let old_size = hash_size h.tab_shift in
    record h {
      tab_shift = new_shift;
      entries =
          grow_loop new_shift delta old_size
            (h.entries ++ replicate (hash_size new_shift - old_size) []);
    }

-- The chains of `n` old buckets from `index` on, linked one behind the other.
abbrev pub join : (n index : ℕ) → List (List Item) → List Item
join zero index entries = []
join (suc n) index entries = get_or entries index [] ++ join n (index + 1) entries

-- The loop of type_hash_shrink over the `n` new buckets from `i` on.
abbrev pub shrink_loop : (delta n i : ℕ) → List (List Item) → List (List Item)
shrink_loop delta zero i entries = entries
shrink_loop delta (suc n) i entries =
    shrink_loop delta n (i + 1) (set entries i (join (2 ^ delta) (i * 2 ^ delta) entries))

unfoldable pub type_hash_shrink : Hash → (new_shift : ℕ) → Hash
type_hash_shrink h new_shift =
    let delta = h.tab_shift - new_shift in
    let new_size = hash_size new_shift in
    record h {
      tab_shift = new_shift;
      entries = take new_size (shrink_loop delta new_size 0 h.entries);
    }
