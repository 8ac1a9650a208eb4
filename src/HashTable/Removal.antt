-- ===== src/HashTable/Removal.antt =====
-- type_hash_del along one sorted chain, and what insertion and removal keep.
use misc_c.Base.{
  ℕ, ◌≤◌, ◌≡◌, refl, sym, ◌∙◌, ap, true, Option, none, some, List, [], ◌∷◌, arith, if◌then◌else◌,
}
use misc_c.HashTable.{Item, del_equal, del_less}
use misc_c.HashTable.Chains.{
  from, sorted, insert, remove, holds, hashed, from-from, from-above, holds-above, remove-absent,
}

Item-ext : (x y : Item) → x.addr ≡ y.addr → x.hash_val ≡ y.hash_val → x ≡ y
Item-ext x y e f = λ i. record { addr = e i; hash_val = f i }

abbrev pub if_held : Item → List Item → Option Item
if_held it xs = if holds it xs then some it else none

module _ (hash : ℕ → ℕ) where
  -- An item at the address has the hash value.
  same_hash :
      (it x : Item) (xs : List Item)
      → it.hash_val ≡ hash it.addr
      → hashed hash (x ∷ xs) ≡ true
      → x.addr ≡ it.addr
      → x.hash_val ≡ it.hash_val
  same_hash it x xs g k e =
      let own : x.hash_val ≡ hash x.addr = ground arith in own ∙ ap hash e ∙ sym g

  module _ (it : Item) (g : it.hash_val ≡ hash it.addr) where
    del_equal-remove :
        (xs : List Item)
        → hashed hash xs ≡ true
        → sorted xs ≡ true
        → from it xs ≡ true
        → ((del_equal it xs).found ≡ if_held it xs) × ((del_equal it xs).chain ≡ remove it xs)
    unfolding del_equal
    del_equal-remove [] k s f = (refl, refl)
    del_equal-remove (x ∷ xs) k s f = (
      ground (
        arith,
        del_equal-remove xs,
        same_hash it x xs,
        Item-ext x it,
        holds-above it xs,
        from-above it x xs,
      ),
      ground (
        arith,
        del_equal-remove xs,
        same_hash it x xs,
        holds-above it xs,
        from-above it x xs,
        remove-absent it xs,
      ),
    )

    pub del_less-remove :
        (xs : List Item)
        → hashed hash xs ≡ true
        → sorted xs ≡ true
        → ((del_less it xs).found ≡ if_held it xs) × ((del_less it xs).chain ≡ remove it xs)
    unfolding del_less del_equal
    del_less-remove [] k s = (refl, refl)
    del_less-remove (x ∷ xs) k s = (
      ground (arith, del_less-remove xs, del_equal-remove (x ∷ xs), from-from it x xs),
      ground (arith, del_less-remove xs, del_equal-remove (x ∷ xs), from-from it x xs),
    )

pub from-insert :
    (x it : Item) (xs : List Item)
    → from x xs ≡ true
    → x.hash_val ≤ it.hash_val
    → from x (insert it xs) ≡ true
from-insert x it [] f l = ground arith
from-insert x it (y ∷ xs) f l = ground (arith, from-insert x it xs)

pub sorted-insert : (it : Item) (xs : List Item) → sorted xs ≡ true → sorted (insert it xs) ≡ true
sorted-insert it [] s = refl
sorted-insert it (x ∷ xs) s =
    ground (arith, sorted-insert it xs, from-insert x it xs, from-from it x xs)

from-remove : (x it : Item) (xs : List Item) → from x xs ≡ true → from x (remove it xs) ≡ true
from-remove x it [] f = refl
from-remove x it (y ∷ xs) f = ground (arith, from-remove x it xs)

pub sorted-remove : (it : Item) (xs : List Item) → sorted xs ≡ true → sorted (remove it xs) ≡ true
sorted-remove it [] s = refl
sorted-remove it (x ∷ xs) s = ground (arith, sorted-remove it xs, from-remove x it xs)
