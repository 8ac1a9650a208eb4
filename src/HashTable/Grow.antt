-- ===== src/HashTable/Grow.antt =====
-- type_hash_grow keeps the table's items in their order, in the buckets where they belong.
use misc_c.Base.{
  ℕ, zero, suc, ◌+◌, ◌-◌, ◌*◌, ◌/◌, ◌^◌, ◌≤◌, ◌<◌, ◌≡◌, refl, sym, ◌∙◌, ap, ap₂, true, List, [],
  ◌∷◌, ◌++◌, arith, length, get_or, set, take, drop, drop-all, replicate, length-set, length-append,
  length-replicate, append-nil, append_assoc,
}
use misc_c.Base.Memory.{copy_at, length-copy_at}
use misc_c.Base.Bits.{pow_pos, pow-add}
use native.Mathlib.Nat.{div-lt_iff_lt-mul, le-div_iff_mul-le}
use misc_c.HashTable.{Item, Hash, hash_key}
use misc_c.HashTable.Buckets.{concat, all_key, placed}
use misc_c.HashTable.Resize.{spread, grow_loop, type_hash_grow}
use misc_c.HashTable.Cut.{within, spread-Spread}
use misc_c.HashTable.Ops.{items, IsValid, hash_size_lem}
use misc_c.HashTable.Rows.{length-spread, take-suc, take-written, drop-written}

pub take-append : (n : ℕ) (xs ys : List (List Item)) → length xs ≡ n → take n (xs ++ ys) ≡ xs
take-append zero [] ys e = refl
take-append zero (x ∷ xs) ys e = absurd (omega arith)
take-append (suc n) [] ys e = absurd (omega arith)
take-append (suc n) (x ∷ xs) ys e = ap (λ zs. x ∷ zs) (take-append n xs ys (omega arith))

pub concat-append : (xs ys : List (List Item)) → concat (xs ++ ys) ≡ concat xs ++ concat ys
concat-append [] ys = refl
concat-append (c ∷ xs) ys =
    ap (λ zs. c ++ zs) (concat-append xs ys) ∙ sym (append_assoc c (concat xs) (concat ys))

placed-append :
    (shift i : ℕ) (xs ys : List (List Item))
    → placed shift i xs ≡ true
    → placed shift (i + length xs) ys ≡ true
    → placed shift i (xs ++ ys) ≡ true
placed-append shift i [] ys p q = let z : i + 0 ≡ i = omega arith in rw (← z) q
placed-append shift i (c ∷ xs) ys p q =
    let z : i + suc (length xs) ≡ i + 1 + length xs = omega arith in
    let rest = placed-append shift (i + 1) xs ys (ground arith) (rw (← z) q) in ground arith

-- The old key `b` and the new keys of one old bucket.
split_key :
    (old delta v b : ℕ)
    → old + delta ≤ 31
    → hash_key old v ≡ b
    → (b * 2 ^ delta ≤ hash_key (old + delta) v)
      × (hash_key (old + delta) v < b * 2 ^ delta + 2 ^ delta)
split_key old delta v b l e =
    let d = 2 ^ (32 - (old + delta)) in
    let r = 2 ^ delta in
    let sum : 32 - old ≡ 32 - (old + delta) + delta = omega arith in
    let wide : 2 ^ (32 - old) ≡ d * r = ap (λ k. 2 ^ k) sum ∙ pow-add (32 - (old + delta)) delta in
    let e' : v / (d * r) ≡ b = rw (← wide) e in
    let pos : 0 < d = pow_pos (32 - (old + delta)) in
    let pos' : 0 < d * r = rw (← wide) (pow_pos (32 - old)) in
    let low : b * (d * r) ≤ v =
      (le-div_iff_mul-le {k = d * r} {x = b} {y = v} pos').0 (omega arith) in
    let high : v < (b + 1) * (d * r) =
      (div-lt_iff_lt-mul {k = d * r} {x = v} {y = b + 1} pos').0 (omega arith) in
    (
      (le-div_iff_mul-le {k = d} {x = b * r} {y = v} pos).1 (omega arith),
      (div-lt_iff_lt-mul {k = d} {x = v} {y = b * r + r} pos).1 (omega arith),
    )

module _ (old delta : ℕ) where
  abbrev row : List Item → List (List Item)
  row c = spread (old + delta) delta (2 ^ delta) 0 c

  -- The chains of all new buckets.
  abbrev rows : List (List Item) → List (List Item)
  rows [] = []
  rows (c ∷ cs) = row c ++ rows cs

  rows-append : (xs ys : List (List Item)) → rows (xs ++ ys) ≡ rows xs ++ rows ys
  rows-append [] ys = refl
  rows-append (c ∷ xs) ys =
      ap (λ zs. row c ++ zs) (rows-append xs ys) ∙ sym (append_assoc (row c) (rows xs) (rows ys))

  grow_loop-rows :
      (b : ℕ) (es : List (List Item))
      → b * 2 ^ delta ≤ length es
      → grow_loop (old + delta) delta b es ≡ rows (take b es) ++ drop (b * 2 ^ delta) es
  grow_loop-rows zero es h = let z : 0 * 2 ^ delta ≡ 0 = omega arith in ap (λ k. drop k es) (sym z)
  grow_loop-rows (suc b) es h =
      let r = 2 ^ delta in
      let pos : 0 < r = pow_pos delta in
      let c = get_or es b [] in
      let next : suc b * r ≡ b * r + r = omega arith in
      let before : b ≤ b * r = grind arith in
      let count = length-spread (old + delta) delta r 0 c in
      let es' = copy_at (set es b []) (b * r) (row c) in
      let long = length-copy_at (set es b []) (b * r) (row c) ∙ length-set es b [] in
      let front : rows (take (suc b) es) ≡ rows (take b es) ++ row c =
        ap rows (take-suc es b (omega arith))
        ∙ rows-append (take b es) (c ∷ [])
        ∙ ap (λ ys. rows (take b es) ++ ys) (append-nil (row c)) in
      grow_loop-rows b es' (omega arith)
      ∙ ap₂ (λ xs ys. rows xs ++ ys)
          (take-written es b (b * r) r (row c) before pos (omega arith) count)
          (drop-written es b (b * r) r (row c) before pos (omega arith) count)
      ∙ sym (append_assoc (rows (take b es)) (row c) (drop (b * r + r) es))
      ∙ ap₂ (λ xs k. xs ++ drop k es) (sym front) (sym next)

module _ (old delta : ℕ) (l : old + delta ≤ 31) where
  all_key-within :
      (b : ℕ) (c : List Item)
      → all_key old b c ≡ true
      → within (old + delta) (b * 2 ^ delta) (b * 2 ^ delta + 2 ^ delta) c ≡ true
  all_key-within b [] k = refl
  all_key-within b (x ∷ c) k =
      let (lo, hi) = split_key old delta x.hash_val b l (ground arith) in
      ground (arith, all_key-within b c)

  -- What the new buckets are, from old bucket `b` on.
  record Grown (b : ℕ) (cs : List (List Item)) : Type 0 where
    same_items : concat (rows old delta cs) ≡ concat cs
    ok : placed (old + delta) (b * 2 ^ delta) (rows old delta cs) ≡ true
    count : length (rows old delta cs) ≡ length cs * 2 ^ delta

  rows-Grown : (b : ℕ) (cs : List (List Item)) → placed old b cs ≡ true → Grown b cs
  rows-Grown b [] p = record { same_items = refl; ok = refl; count = omega arith }
  rows-Grown b (c ∷ cs) p =
      let r = 2 ^ delta in
      let rest = rows-Grown (b + 1) cs (ground arith) in
      let start : b * r + 0 ≡ b * r = omega arith in
      let end : (b + 1) * r ≡ b * r + r = omega arith in
      let inside : within (old + delta) (b * r + 0) (b * r + r) c ≡ true =
        rw start (all_key-within b c (ground arith)) in
      let k =
        spread-Spread (old + delta) delta b r 0 c (pow_pos delta) (omega arith) (ground arith)
          inside in
      let first : placed (old + delta) (b * r) (row old delta c) ≡ true = rw (← start) k.ok in
      let others : placed (old + delta) (b * r + r) (rows old delta cs) ≡ true =
        rw (← end) rest.ok in
      record {
        same_items =
            concat-append (row old delta c) (rows old delta cs) ∙ ap₂ ◌++◌ k.joined rest.same_items;
        ok =
            placed-append (old + delta) (b * r) (row old delta c) (rows old delta cs) first
              (rw k.count others);
        count =
            let n = rest.count in
            let m = k.count in omega (arith, length-append (row old delta c) (rows old delta cs));
      }

-- type_hash_grow of a valid table to a larger shift, of at most 31, leaves all items in their order,
-- keeps the table valid and sets the shift.
pub type_hash_grow_lem :
    (hash : ℕ → ℕ) (h : Hash) (new_shift : ℕ)
    → IsValid hash h
    → h.tab_shift < new_shift
    → new_shift ≤ 31
    → IsValid hash (type_hash_grow h new_shift)
      × (items (type_hash_grow h new_shift) ≡ items h)
      × ((type_hash_grow h new_shift).tab_shift ≡ new_shift)
unfolding type_hash_grow
type_hash_grow_lem hash h new_shift v lt le =
    let delta = new_shift - h.tab_shift in
    let n = 2 ^ h.tab_shift in
    let r = 2 ^ delta in
    let sum : h.tab_shift + delta ≡ new_shift = omega arith in
    let l : h.tab_shift + delta ≤ 31 = omega arith in
    let power : 2 ^ new_shift ≡ n * r = ap (λ k. 2 ^ k) (sym sum) ∙ pow-add h.tab_shift delta in
    let g = rows-Grown h.tab_shift delta l 0 h.entries v.in_place in
    let spare : List (List Item) = replicate (2 ^ new_shift - n) [] in
    let es = h.entries ++ spare in
    let more : n ≤ n * r = let pos = pow_pos delta in grind arith in
    let b = v.buckets in
    let long : length es ≡ n * r = omega (
      arith,
      length-append h.entries spare,
      length-replicate {A = List Item} (2 ^ new_shift - n) [],
    ) in
    let looped : grow_loop new_shift delta n es ≡ rows h.tab_shift delta h.entries =
      ap (λ s. grow_loop s delta n es) (sym sum)
      ∙ grow_loop-rows h.tab_shift delta n es (omega arith)
      ∙ ap₂ (λ xs ys. rows h.tab_shift delta xs ++ ys) (take-append n h.entries spare b)
          (drop-all es (n * r) (omega arith))
      ∙ append-nil (rows h.tab_shift delta h.entries) in
    let made : (type_hash_grow h new_shift).entries ≡ rows h.tab_shift delta h.entries =
      ap₂ (λ a b. grow_loop new_shift delta a (h.entries ++ replicate (b - a) []))
        (hash_size_lem h.tab_shift v.narrow_shift) (hash_size_lem new_shift le)
      ∙ looped in
    let ok : placed new_shift 0 (rows h.tab_shift delta h.entries) ≡ true =
      let z : 0 * r ≡ 0 = omega arith in
      ap₂ (λ s i. placed s i (rows h.tab_shift delta h.entries)) (sym sum) (sym z) ∙ g.ok in
    let same_items = ap concat made ∙ g.same_items in
    (
      record {
        buckets = ap length made ∙ g.count ∙ ap (λ k. k * r) b ∙ sym power;
        narrow_shift = le;
        in_place = rw made ok;
        own_hash = rw same_items v.own_hash;
        counted = rw same_items v.counted;
        narrow = rw same_items v.narrow;
      },
      same_items,
      refl,
    )
