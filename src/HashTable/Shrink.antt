-- ===== src/HashTable/Shrink.antt =====
-- type_hash_shrink keeps the table's items in their order, in the buckets where they belong.
use misc_c.Base.{
  ℕ, zero, suc, ◌+◌, ◌-◌, ◌*◌, ◌/◌, ◌^◌, ◌≤◌, ◌<◌, ◌≡◌, refl, sym, ◌∙◌, ap, ap₂, true, List, [],
  ◌∷◌, ◌++◌, arith, length, take, drop, take-append-drop, length-take, length-drop,
}
use misc_c.Base.Bits.{pow_pos, pow-add}
use native.Mathlib.Nat.{div-lt_iff_lt-mul, le-div_iff_mul-le}
use misc_c.HashTable.{Item, Hash, hash_key}
use misc_c.HashTable.Chains.{from, above, sorted}
use misc_c.HashTable.Buckets.{concat, all_key, placed, placed-above}
use misc_c.HashTable.Resize.{shrink_loop, type_hash_shrink}
use misc_c.HashTable.Cut.{within}
use misc_c.HashTable.Grow.{concat-append}
use misc_c.HashTable.Ops.{items, IsValid, hash_size_lem}
use misc_c.HashTable.Chunks.{chunks, shrink_loop-chunks}

-- The new key of items whose old keys lie in one group of 2^delta.
joined_key :
    (new delta v b : ℕ)
    → new + delta ≤ 31
    → b * 2 ^ delta ≤ hash_key (new + delta) v
    → hash_key (new + delta) v < b * 2 ^ delta + 2 ^ delta
    → hash_key new v ≡ b
joined_key new delta v b l lo hi =
    let d = 2 ^ (32 - (new + delta)) in
    let r = 2 ^ delta in
    let sum : 32 - new ≡ 32 - (new + delta) + delta = omega arith in
    let wide : 2 ^ (32 - new) ≡ d * r = ap (λ k. 2 ^ k) sum ∙ pow-add (32 - (new + delta)) delta in
    let pos : 0 < d = pow_pos (32 - (new + delta)) in
    let pos' : 0 < d * r = rw (← wide) (pow_pos (32 - new)) in
    let low : b * r * d ≤ v = (le-div_iff_mul-le {k = d} {x = b * r} {y = v} pos).0 lo in
    let high : v < (b * r + r) * d = (div-lt_iff_lt-mul {k = d} {x = v} {y = b * r + r} pos).0 hi in
    let low' : b ≤ v / (d * r) =
      (le-div_iff_mul-le {k = d * r} {x = b} {y = v} pos').1 (omega arith) in
    let high' : v / (d * r) < b + 1 =
      (div-lt_iff_lt-mul {k = d * r} {x = v} {y = b + 1} pos').1 (omega arith) in
    rw wide (omega arith)

above-from : (x : Item) (xs : List Item) → above x xs ≡ true → from x xs ≡ true
above-from x [] h = refl
above-from x (y ∷ xs) h = ground (arith, above-from x xs)

from-append :
    (x : Item) (xs ys : List Item) → from x xs ≡ true → from x ys ≡ true → from x (xs ++ ys) ≡ true
from-append x [] ys f g = g
from-append x (y ∷ xs) ys f g = ground (arith, from-append x xs ys)

from-placed :
    (shift i : ℕ) (x : Item) (cs : List (List Item))
    → hash_key shift x.hash_val < i
    → placed shift i cs ≡ true
    → from x (concat cs) ≡ true
from-placed shift i x cs l p = above-from x (concat cs) (placed-above shift i x cs l p)

-- The chain of consecutive buckets is sorted.
sorted-join :
    (shift i : ℕ) (xs : List Item) (cs : List (List Item))
    → sorted xs ≡ true
    → all_key shift i xs ≡ true
    → placed shift (i + 1) cs ≡ true
    → sorted (concat cs) ≡ true
    → sorted (xs ++ concat cs) ≡ true
sorted-join shift i [] cs s k p q = q
sorted-join shift i (x ∷ xs) cs s k p q =
    ground (
      arith,
      sorted-join shift i xs cs,
      from-placed shift (i + 1) x cs,
      from-append x xs (concat cs),
    )

sorted-concat :
    (shift i : ℕ) (cs : List (List Item)) → placed shift i cs ≡ true → sorted (concat cs) ≡ true
sorted-concat shift i [] p = refl
sorted-concat shift i (c ∷ cs) p =
    sorted-join shift i c cs (ground arith) (ground arith) (ground arith)
      (sorted-concat shift (i + 1) cs (ground arith))

placed-take :
    (shift i n : ℕ) (cs : List (List Item))
    → placed shift i cs ≡ true
    → placed shift i (take n cs) ≡ true
placed-take shift i zero cs p = refl
placed-take shift i (suc n) [] p = refl
placed-take shift i (suc n) (c ∷ cs) p = ground (arith, placed-take shift (i + 1) n cs)

placed-drop :
    (shift i n : ℕ) (cs : List (List Item))
    → placed shift i cs ≡ true
    → placed shift (i + n) (drop n cs) ≡ true
placed-drop shift i zero cs p = let z : i + 0 ≡ i = omega arith in rw z p
placed-drop shift i (suc n) [] p = refl
placed-drop shift i (suc n) (c ∷ cs) p =
    let next : i + suc n ≡ i + 1 + n = omega arith in
    rw next (placed-drop shift (i + 1) n cs (ground arith))

module _ (new delta : ℕ) (l : new + delta ≤ 31) (b : ℕ) where
  within-all_key :
      (xs : List Item)
      → within (new + delta) (b * 2 ^ delta) (b * 2 ^ delta + 2 ^ delta) xs ≡ true
      → all_key new b xs ≡ true
  within-all_key [] w = refl
  within-all_key (x ∷ xs) w = ground (arith, within-all_key xs, joined_key new delta x.hash_val b l)

within-append :
    (shift lo hi : ℕ) (xs ys : List Item)
    → within shift lo hi xs ≡ true
    → within shift lo hi ys ≡ true
    → within shift lo hi (xs ++ ys) ≡ true
within-append shift lo hi [] ys v w = w
within-append shift lo hi (x ∷ xs) ys v w = ground (arith, within-append shift lo hi xs ys)

all_key-between :
    (shift lo hi i : ℕ) (xs : List Item)
    → lo ≤ i
    → i < hi
    → all_key shift i xs ≡ true
    → within shift lo hi xs ≡ true
all_key-between shift lo hi i [] l m k = refl
all_key-between shift lo hi i (x ∷ xs) l m k = ground (arith, all_key-between shift lo hi i xs)

placed-within :
    (shift lo hi i : ℕ) (cs : List (List Item))
    → lo ≤ i
    → i + length cs ≤ hi
    → placed shift i cs ≡ true
    → within shift lo hi (concat cs) ≡ true
placed-within shift lo hi i [] l m p = refl
placed-within shift lo hi i (c ∷ cs) l m p =
    within-append shift lo hi c (concat cs)
      (all_key-between shift lo hi i c l (omega arith) (ground arith))
      (placed-within shift lo hi (i + 1) cs (omega arith) (omega arith) (ground arith))

module _ (new delta : ℕ) (l : new + delta ≤ 31) where
  -- What the new buckets are, from number `b` on.
  record Shrunk (n b : ℕ) (cs : List (List Item)) : Type 0 where
    same_items : concat (chunks (2 ^ delta) n cs) ≡ concat cs
    ok : placed new b (chunks (2 ^ delta) n cs) ≡ true
    count : length (chunks (2 ^ delta) n cs) ≡ n

  chunks-Shrunk :
      (n b : ℕ) (cs : List (List Item))
      → length cs ≡ n * 2 ^ delta
      → placed (new + delta) (b * 2 ^ delta) cs ≡ true
      → Shrunk n b cs
  chunks-Shrunk zero b [] e p = record { same_items = refl; ok = refl; count = refl }
  chunks-Shrunk zero b (c ∷ cs) e p = absurd (omega arith)
  chunks-Shrunk (suc n) b cs e p =
      let r = 2 ^ delta in
      let size : suc n * r ≡ n * r + r = omega arith in
      let next : b * r + r ≡ (b + 1) * r = omega arith in
      let front = take r cs in
      let back = drop r cs in
      let p' : placed (new + delta) ((b + 1) * r) back ≡ true =
        rw (← next) (placed-drop (new + delta) (b * r) r cs p) in
      let rest = chunks-Shrunk n (b + 1) back (omega (arith, length-drop r cs)) p' in
      let q = placed-take (new + delta) (b * r) r cs p in
      let inside =
        placed-within (new + delta) (b * r) (b * r + r) (b * r) front (omega arith)
          (omega (arith, length-take r cs)) q in
      let key = within-all_key new delta l b (concat front) inside in
      let sort = sorted-concat (new + delta) (b * r) front q in
      record {
        same_items =
            ap (λ ys. concat front ++ ys) rest.same_items
            ∙ sym (concat-append front back)
            ∙ ap concat (take-append-drop r cs);
        ok = let o = rest.ok in ground arith;
        count = ap suc rest.count;
      }

-- type_hash_shrink of a valid table to a smaller shift leaves all items in their order, keeps the
-- table valid and sets the shift.
pub type_hash_shrink_lem :
    (hash : ℕ → ℕ) (h : Hash) (new_shift : ℕ)
    → IsValid hash h
    → new_shift < h.tab_shift
    → IsValid hash (type_hash_shrink h new_shift)
      × (items (type_hash_shrink h new_shift) ≡ items h)
      × ((type_hash_shrink h new_shift).tab_shift ≡ new_shift)
unfolding type_hash_shrink
type_hash_shrink_lem hash h new_shift v lt =
    let delta = h.tab_shift - new_shift in
    let n = 2 ^ new_shift in
    let r = 2 ^ delta in
    let old = v.narrow_shift in
    let sum : new_shift + delta ≡ h.tab_shift = omega arith in
    let l : new_shift + delta ≤ 31 = omega arith in
    let z : 0 * r ≡ 0 = omega arith in
    let count : length h.entries ≡ n * r =
      v.buckets ∙ ap (λ k. 2 ^ k) (sym sum) ∙ pow-add new_shift delta in
    let p : placed (new_shift + delta) (0 * r) h.entries ≡ true =
      ap₂ (λ s i. placed s i h.entries) sum z ∙ v.in_place in
    let k = chunks-Shrunk new_shift delta l n 0 h.entries count p in
    let looped : take n (shrink_loop delta n 0 h.entries) ≡ chunks r n h.entries =
      let from_zero : 0 + n ≡ n = omega arith in
      ap (λ j. take j (shrink_loop delta n 0 h.entries)) (sym from_zero)
      ∙ shrink_loop-chunks delta n 0 h.entries (omega arith)
      ∙ ap (λ j. chunks r n (drop j h.entries)) z in
    let made : (type_hash_shrink h new_shift).entries ≡ chunks r n h.entries =
      ap (λ m. take m (shrink_loop delta m 0 h.entries)) (hash_size_lem new_shift (omega arith))
      ∙ looped in
    let same_items = ap concat made ∙ k.same_items in
    (
      record {
        buckets = ap length made ∙ k.count;
        narrow_shift = omega arith;
        in_place = rw made k.ok;
        own_hash = rw same_items v.own_hash;
        counted = rw same_items v.counted;
        narrow = rw same_items v.narrow;
      },
      same_items,
      refl,
    )
