-- ===== src/HashTable/Select.antt =====
-- Search, insertion and removal in all buckets are those in the bucket selected.
use misc_c.Base.{
  ℕ, zero, suc, ◌+◌, ◌<◌, ◌≡◌, refl, sym, ◌∙◌, ap, Bool, true, List, [], ◌∷◌, ◌++◌, arith, length,
  get_or, set,
}
use misc_c.HashTable.{Item, hash_key}
use misc_c.HashTable.Chains.{
  sorted, above, insert, remove, holds, hashed, search, search-above, insert-above, holds-above,
  remove-absent,
}
use misc_c.HashTable.Removal.{sorted-insert, sorted-remove}
use misc_c.HashTable.Buckets.{concat, all_key, placed, below, all_key-below, placed-above}

module _ (it : Item) where
  module _ (same : ℕ → ℕ → Bool) where
    search-back :
        (xs ys : List Item) → below it xs ≡ true → search same it (xs ++ ys) ≡ search same it ys
    search-back [] ys h = refl
    search-back (x ∷ xs) ys h = ground (arith, search-back xs ys)

    search-front :
        (xs ys : List Item) → above it ys ≡ true → search same it (xs ++ ys) ≡ search same it xs
    search-front [] ys h = search-above same it ys h
    search-front (x ∷ xs) ys h = ground (arith, search-front xs ys)

  holds-back : (xs ys : List Item) → below it xs ≡ true → holds it (xs ++ ys) ≡ holds it ys
  holds-back [] ys h = refl
  holds-back (x ∷ xs) ys h = ground (arith, holds-back xs ys)

  holds-front : (xs ys : List Item) → above it ys ≡ true → holds it (xs ++ ys) ≡ holds it xs
  holds-front [] ys h = holds-above it ys h
  holds-front (x ∷ xs) ys h = ground (arith, holds-front xs ys)

  insert-back : (xs ys : List Item) → below it xs ≡ true → insert it (xs ++ ys) ≡ xs ++ insert it ys
  insert-back [] ys h = refl
  insert-back (x ∷ xs) ys h = ground (arith, insert-back xs ys)

  insert-front :
      (xs ys : List Item) → above it ys ≡ true → insert it (xs ++ ys) ≡ insert it xs ++ ys
  insert-front [] ys h = insert-above it ys h
  insert-front (x ∷ xs) ys h = ground (arith, insert-front xs ys)

  remove-back : (xs ys : List Item) → below it xs ≡ true → remove it (xs ++ ys) ≡ xs ++ remove it ys
  remove-back [] ys h = refl
  remove-back (x ∷ xs) ys h = ground (arith, remove-back xs ys)

  remove-front :
      (xs ys : List Item) → above it ys ≡ true → remove it (xs ++ ys) ≡ remove it xs ++ ys
  remove-front [] ys h = remove-absent it ys (holds-above it ys h)
  remove-front (x ∷ xs) ys h = ground (arith, remove-front xs ys)

  all_key-insert :
      (shift i : ℕ) (xs : List Item)
      → hash_key shift it.hash_val ≡ i
      → all_key shift i xs ≡ true
      → all_key shift i (insert it xs) ≡ true
  all_key-insert shift i [] e k = ground arith
  all_key-insert shift i (x ∷ xs) e k = ground (arith, all_key-insert shift i xs)

  all_key-remove :
      (shift i : ℕ) (xs : List Item)
      → all_key shift i xs ≡ true
      → all_key shift i (remove it xs) ≡ true
  all_key-remove shift i [] k = refl
  all_key-remove shift i (x ∷ xs) k = ground (arith, all_key-remove shift i xs)

  -- The bucket `k` of the buckets from number `i` on is the one selected.
  module _ (shift : ℕ) where
    pub record Bucket (i : ℕ) (cs : List (List Item)) (k : ℕ) : Type 0 where
      pub ok : placed shift i cs ≡ true
      pub inside : k < length cs
      pub key : hash_key shift it.hash_val ≡ i + k

    tail-Bucket :
        (i : ℕ) (c : List Item) (cs : List (List Item)) (k : ℕ)
        → Bucket i (c ∷ cs) (suc k)
        → Bucket (i + 1) cs k
    tail-Bucket i c cs k b = record {
      ok = let o = b.ok in ground arith;
      inside = let l = b.inside in omega arith;
      key = let e = b.key in omega arith;
    }

    rest-above :
        (i : ℕ) (c : List Item) (cs : List (List Item))
        → Bucket i (c ∷ cs) zero
        → above it (concat cs) ≡ true
    rest-above i c cs b =
        let o = b.ok in
        let e = b.key in placed-above shift (i + 1) it cs (omega arith) (ground arith)

    first-below :
        (i : ℕ) (c : List Item) (cs : List (List Item)) (k : ℕ)
        → Bucket i (c ∷ cs) (suc k)
        → below it c ≡ true
    first-below i c cs k b =
        let o = b.ok in let e = b.key in all_key-below shift i it c (omega arith) (ground arith)

    pub search-concat :
        (same : ℕ → ℕ → Bool) (i : ℕ) (cs : List (List Item)) (k : ℕ)
        → Bucket i cs k
        → search same it (concat cs) ≡ search same it (get_or cs k [])
    search-concat same i [] k b = absurd (let l = b.inside in omega arith)
    search-concat same i (c ∷ cs) zero b = search-front same c (concat cs) (rest-above i c cs b)
    search-concat same i (c ∷ cs) (suc k) b =
        search-back same c (concat cs) (first-below i c cs k b)
        ∙ search-concat same (i + 1) cs k (tail-Bucket i c cs k b)

    pub holds-concat :
        (i : ℕ) (cs : List (List Item)) (k : ℕ)
        → Bucket i cs k
        → holds it (concat cs) ≡ holds it (get_or cs k [])
    holds-concat i [] k b = absurd (let l = b.inside in omega arith)
    holds-concat i (c ∷ cs) zero b = holds-front c (concat cs) (rest-above i c cs b)
    holds-concat i (c ∷ cs) (suc k) b =
        holds-back c (concat cs) (first-below i c cs k b)
        ∙ holds-concat (i + 1) cs k (tail-Bucket i c cs k b)

    pub insert-concat :
        (i : ℕ) (cs : List (List Item)) (k : ℕ)
        → Bucket i cs k
        → let ds = set cs k (insert it (get_or cs k [])) in
          (concat ds ≡ insert it (concat cs)) × (placed shift i ds ≡ true)
    insert-concat i [] k b = absurd (let l = b.inside in omega arith)
    insert-concat i (c ∷ cs) zero b = (
      sym (insert-front c (concat cs) (rest-above i c cs b)),
      (let o = b.ok in
          let e = b.key in ground (arith, all_key-insert shift i c, sorted-insert it c)),
    )
    insert-concat i (c ∷ cs) (suc k) b =
        let (same_items, ok) = insert-concat (i + 1) cs k (tail-Bucket i c cs k b) in
        (
          ap (λ xs. c ++ xs) same_items ∙ sym (insert-back c (concat cs) (first-below i c cs k b)),
          (let o = b.ok in ground arith),
        )

    pub remove-concat :
        (i : ℕ) (cs : List (List Item)) (k : ℕ)
        → Bucket i cs k
        → let ds = set cs k (remove it (get_or cs k [])) in
          (concat ds ≡ remove it (concat cs)) × (placed shift i ds ≡ true)
    remove-concat i [] k b = absurd (let l = b.inside in omega arith)
    remove-concat i (c ∷ cs) zero b = (
      sym (remove-front c (concat cs) (rest-above i c cs b)),
      (let o = b.ok in ground (arith, all_key-remove shift i c, sorted-remove it c)),
    )
    remove-concat i (c ∷ cs) (suc k) b =
        let (same_items, ok) = remove-concat (i + 1) cs k (tail-Bucket i c cs k b) in
        (
          ap (λ xs. c ++ xs) same_items ∙ sym (remove-back c (concat cs) (first-below i c cs k b)),
          (let o = b.ok in ground arith),
        )

    pub sorted-Bucket :
        (i : ℕ) (cs : List (List Item)) (k : ℕ) → Bucket i cs k → sorted (get_or cs k []) ≡ true
    sorted-Bucket i [] k b = refl
    sorted-Bucket i (c ∷ cs) zero b = let o = b.ok in ground arith
    sorted-Bucket i (c ∷ cs) (suc k) b = sorted-Bucket (i + 1) cs k (tail-Bucket i c cs k b)

hashed-append :
    (hash : ℕ → ℕ) (xs ys : List Item)
    → hashed hash (xs ++ ys) ≡ true
    → (hashed hash xs ≡ true) × (hashed hash ys ≡ true)
hashed-append hash [] ys h = (refl, h)
hashed-append hash (x ∷ xs) ys h =
    (ground (arith, hashed-append hash xs ys), ground (arith, hashed-append hash xs ys))

pub hashed-get_or :
    (hash : ℕ → ℕ) (cs : List (List Item)) (k : ℕ)
    → hashed hash (concat cs) ≡ true
    → hashed hash (get_or cs k []) ≡ true
hashed-get_or hash [] k h = refl
hashed-get_or hash (c ∷ cs) zero h = (hashed-append hash c (concat cs) h).0
hashed-get_or hash (c ∷ cs) (suc k) h =
    hashed-get_or hash cs k (hashed-append hash c (concat cs) h).1

pub hashed-insert :
    (hash : ℕ → ℕ) (it : Item) (xs : List Item)
    → it.hash_val ≡ hash it.addr
    → hashed hash xs ≡ true
    → hashed hash (insert it xs) ≡ true
hashed-insert hash it [] e h = ground arith
hashed-insert hash it (x ∷ xs) e h = ground (arith, hashed-insert hash it xs)

pub hashed-remove :
    (hash : ℕ → ℕ) (it : Item) (xs : List Item)
    → hashed hash xs ≡ true
    → hashed hash (remove it xs) ≡ true
hashed-remove hash it [] h = refl
hashed-remove hash it (x ∷ xs) h = ground (arith, hashed-remove hash it xs)

pub length-insert : (it : Item) (xs : List Item) → length (insert it xs) ≡ suc (length xs)
length-insert it [] = refl
length-insert it (x ∷ xs) = ground (arith, length-insert it xs)

pub length-remove :
    (it : Item) (xs : List Item) → holds it xs ≡ true → suc (length (remove it xs)) ≡ length xs
length-remove it [] h = absurd cc
length-remove it (x ∷ xs) h = ground (arith, length-remove it xs)
