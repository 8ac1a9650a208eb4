-- ===== src/HashTable/Chains.antt =====
-- The walks along one sorted chain, against plain functions on lists of items.
use misc_c.Base.{
  ℕ, ◌≤◌, ◌<◌, ◌≡◌, refl, Bool, true, false, ◌&&◌, Option, none, some, List, [], ◌∷◌, arith, ltb,
  leb, ◌==◌, if◌then◌else◌,
}
use misc_c.HashTable.{Item, add_equal, add_less, find_equal, find_less}

-- Whether no item of the list comes before `x` by its hash value.
abbrev pub from : Item → List Item → Bool
from x [] = true
from x (y ∷ ys) = leb x.hash_val y.hash_val && from x ys

abbrev pub sorted : List Item → Bool
sorted [] = true
sorted (x ∷ xs) = from x xs && sorted xs

-- Whether all hash values of the list are above that of `x`.
abbrev pub above : Item → List Item → Bool
above x [] = true
above x (y ∷ ys) = ltb x.hash_val y.hash_val && above x ys

-- The list with `it` behind the items whose hash value is not greater.
abbrev pub insert : Item → List Item → List Item
insert it [] = it ∷ []
insert it (x ∷ xs) = if leb x.hash_val it.hash_val then x ∷ insert it xs else it ∷ x ∷ xs

-- The list without the first item of that address and hash value.
abbrev pub remove : Item → List Item → List Item
remove it [] = []
remove it (x ∷ xs) =
    if x.addr == it.addr && (x.hash_val == it.hash_val) then xs else x ∷ remove it xs

abbrev pub holds : Item → List Item → Bool
holds it [] = false
holds it (x ∷ xs) = if x.addr == it.addr && (x.hash_val == it.hash_val) then true else holds it xs

-- Whether the items carry the hash values of their addresses.
abbrev pub hashed : (ℕ → ℕ) → List Item → Bool
hashed hash [] = true
hashed hash (x ∷ xs) = (x.hash_val == hash x.addr) && hashed hash xs

pub from-from :
    (it x : Item) (xs : List Item) → it.hash_val ≤ x.hash_val → from x xs ≡ true → from it xs ≡ true
from-from it x [] l f = refl
from-from it x (y ∷ ys) l f = ground (arith, from-from it x ys)

pub from-above :
    (it x : Item) (xs : List Item)
    → from x xs ≡ true
    → it.hash_val < x.hash_val
    → above it xs ≡ true
from-above it x [] h l = refl
from-above it x (y ∷ ys) h l = ground (arith, from-above it x ys)

pub insert-above : (it : Item) (xs : List Item) → above it xs ≡ true → insert it xs ≡ it ∷ xs
insert-above it [] h = refl
insert-above it (x ∷ xs) h = ground arith

pub holds-above : (it : Item) (xs : List Item) → above it xs ≡ true → holds it xs ≡ false
holds-above it [] h = refl
holds-above it (x ∷ xs) h = ground (arith, holds-above it xs)

pub remove-absent : (it : Item) (xs : List Item) → holds it xs ≡ false → remove it xs ≡ xs
remove-absent it [] h = refl
remove-absent it (x ∷ xs) h = ground (arith, remove-absent it xs)

module _ (same : ℕ → ℕ → Bool) where
  -- The first item of that hash value which the comparison takes for the same.
  abbrev pub search : Item → List Item → Option Item
  search it [] = none
  search it (x ∷ xs) =
      if x.hash_val == it.hash_val && same x.addr it.addr then some x else search it xs

  pub search-above : (it : Item) (xs : List Item) → above it xs ≡ true → search it xs ≡ none
  search-above it [] h = refl
  search-above it (x ∷ xs) h = ground (arith, search-above it xs)

  find_equal-search :
      (it : Item) (xs : List Item)
      → sorted xs ≡ true
      → from it xs ≡ true
      → find_equal same it xs ≡ search it xs
  unfolding find_equal
  find_equal-search it [] s f = refl
  find_equal-search it (x ∷ xs) s f =
      ground (arith, find_equal-search it xs, search-above it xs, from-above it x xs)

  pub find_less-search :
      (it : Item) (xs : List Item) → sorted xs ≡ true → find_less same it xs ≡ search it xs
  unfolding find_less
  find_less-search it [] s = refl
  find_less-search it (x ∷ xs) s =
      ground (arith, find_less-search it xs, find_equal-search it (x ∷ xs), from-from it x xs)

  add_equal-search :
      (it : Item) (xs : List Item)
      → sorted xs ≡ true
      → from it xs ≡ true
      → ((add_equal same it xs).found ≡ search it xs)
        × (search it xs ≡ none → (add_equal same it xs).chain ≡ insert it xs)
  unfolding add_equal
  add_equal-search it [] s f = (refl, λ _. refl)
  add_equal-search it (x ∷ xs) s f = (
    ground (arith, add_equal-search it xs, search-above it xs, from-above it x xs),
    λ e. ground (arith, add_equal-search it xs, insert-above it xs, from-above it x xs),
  )

  pub add_less-search :
      (it : Item) (xs : List Item)
      → sorted xs ≡ true
      → ((add_less same it xs).found ≡ search it xs)
        × (search it xs ≡ none → (add_less same it xs).chain ≡ insert it xs)
  unfolding add_less add_equal
  add_less-search it [] s = (refl, λ _. refl)
  add_less-search it (x ∷ xs) s = (
    ground (arith, add_less-search it xs, add_equal-search it (x ∷ xs), from-from it x xs),
    λ e. ground (arith, add_less-search it xs, add_equal-search it (x ∷ xs), from-from it x xs),
  )
