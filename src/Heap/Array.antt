-- ===== src/Heap/Array.antt =====
-- The array under a swap, the items that it holds, and the index fields.

use misc_c.Base.{
  ℕ, zero, suc, ◌+◌, ◌<◌, ◌≡◌, ◌≢◌, refl, List, arith, if◌then◌else◌, ◌==◌, length, set, length-set,
}
use native.Mathlib.Decide.{ℕ_discrete}
use misc_c.Base.Memory.{get_or-set}
use misc_c.Heap.{Heap, at, heap_swap}

-- How often `x` stands among the first `n` entries.
unfoldable pub occurs : ℕ → List ℕ → ℕ → ℕ
occurs x a zero = 0
occurs x a (suc n) = occurs x a n + (if at a n == x then 1 else 0)

pub occurs-same :
    (x : ℕ) (a b : List ℕ) (n : ℕ)
    → ((i : ℕ) → i < n → at b i ≡ at a i)
    → occurs x b n ≡ occurs x a n
unfolding occurs
occurs-same x a b zero h = refl
occurs-same x a b (suc n) h = ground (arith, h n, occurs-same x a b n (λ i p. h i (omega arith)))

-- A write trades the old entry for the new one.
pub occurs-set :
    (x : ℕ) (a : List ℕ) (i v n : ℕ)
    → i < n
    → i < length a
    → occurs x (set a i v) n + (if at a i == x then 1 else 0)
      ≡ occurs x a n + (if v == x then 1 else 0)
unfolding occurs
occurs-set x a i v zero p q = absurd (omega arith)
occurs-set x a i v (suc n) p q =
    let here = get_or-set a i n v 0 q in
    elim (ℕ_discrete i n) [
      | yes e ↦ ground (
        arith,
        here,
        occurs-same x a (set a i v) n (λ k r. ground (arith, get_or-set a i k v 0 q)),
      )
      | no ne ↦ ground (arith, here, occurs-set x a i v n (omega arith) q)
    ]

pub swapped : List ℕ → (i j : ℕ) → List ℕ
swapped a i j = set (set a i (at a j)) j (at a i)

module _ (a : List ℕ) (i j : ℕ) (hi : i < length a) (hj : j < length a) where
  pub at-swapped :
      (c : ℕ)
      → at (swapped a i j) c ≡ (if j == c then at a i else if i == c then at a j else at a c)
  unfolding swapped
  at-swapped c = ground (
    arith,
    get_or-set (set a i (at a j)) j c (at a i) 0,
    get_or-set a i c (at a j) 0,
    length-set a i (at a j),
  )

  pub length-swapped : length (swapped a i j) ≡ length a
  unfolding swapped
  length-swapped = omega (arith, length-set (set a i (at a j)) j (at a i), length-set a i (at a j))

  pub occurs-swapped : (x n : ℕ) → i < n → j < n → occurs x (swapped a i j) n ≡ occurs x a n
  unfolding swapped
  occurs-swapped x n p q = ground (
    arith,
    occurs-set x (set a i (at a j)) j (at a i) n q,
    occurs-set x a i (at a j) n p hi,
    get_or-set a i j (at a j) 0 hi,
    length-set a i (at a j),
  )

-- What a heap_swap leaves alone, and what it makes of the rest.
pub record Swapped (h g : Heap) (i j : ℕ) : Type 0 where
  pub array : g.array ≡ swapped h.array i j
  pub index_at :
      (x : ℕ)
      → g.index x ≡ (if x == at h.array i then j else if x == at h.array j then i else h.index x)
  pub count : g.count ≡ h.count
  pub size : g.size ≡ h.size
  pub min_size : g.min_size ≡ h.min_size
  pub max_size : g.max_size ≡ h.max_size

pub heap_swap-Swapped : (h : Heap) (i j : ℕ) → i < length h.array → Swapped h (heap_swap h i j) i j
unfolding heap_swap swapped
heap_swap-Swapped h i j p = record {
  array = refl;
  index_at = λ x. ground (arith, get_or-set h.array i i (at h.array j) 0 p);
  count = refl;
  size = refl;
  min_size = refl;
  max_size = refl;
}

-- An item that does not occur is at no place.
pub at-ne_of_occurs : (x : ℕ) (a : List ℕ) (n c : ℕ) → occurs x a n ≡ 0 → c < n → at a c ≢ x
unfolding occurs
at-ne_of_occurs x a zero c h p e = absurd (omega arith)
at-ne_of_occurs x a (suc n) c h p e = elim (ℕ_discrete c n) [
  | yes q ↦ ground arith
  | no q ↦ at-ne_of_occurs x a n c (ground arith) (omega arith) e
]

pub occurs-suc :
    (x : ℕ) (a : List ℕ) (n : ℕ)
    → occurs x a (suc n) ≡ occurs x a n + (if at a n == x then 1 else 0)
unfolding occurs
occurs-suc x a n = refl
