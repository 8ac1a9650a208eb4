-- ===== src/Heap/Size.antt =====
-- How the capacity of the heap moves.
use Prim.Native.Nat.{Ordering}
use misc_c.Base.{
  ℕ, ◌-◌, ◌^◌, ◌≤◌, ◌<◌, ◌≡◌, refl, sym, inl, inr, Bool-cases, true, false, List, arith, ◌==◌,
  length, take, replicate, length-take, length-append, length-replicate,
}
use misc_c.Heap.{
  Heap, grow, shrink, grown_size, new_size, realloc, type_heap_resize, type_heap_full,
  type_heap_resize_tresh_down, shrunk, heap_add, SizeOp, at,
}
use misc_c.Base.Memory.{get_or-append, get_or-take}

-- The sizes fit their fields and the array has `size` places.
pub record IsSized (h : Heap) : Type 0 where
  pub room : length h.array ≡ h.size
  pub fits : h.count ≤ h.size
  pub low : h.min_size ≤ h.size
  pub high : h.size ≤ h.max_size
  pub word : h.max_size < 2 ^ 32

-- Below the last level the growth is real and does not wrap.
grown_size_bounds :
    (size max_size : ℕ)
    → 0 < size
    → size < max_size
    → max_size < 2 ^ 32
    → size < grown_size size max_size
unfolding grown_size
grown_size_bounds size max_size p q r = ground arith

pub new_size-grow :
    (h : Heap)
    → IsSized h
    → 0 < h.size
    → h.size < h.max_size
    → (h.size < new_size h grow) × (new_size h grow ≤ h.max_size)
unfolding new_size
new_size-grow h s p q = ground (arith, grown_size_bounds h.size h.max_size p q s.word)

pub new_size-shrink :
    (h : Heap)
    → IsSized h
    → (h.count ≤ new_size h shrink)
      × (h.min_size ≤ new_size h shrink)
      × (new_size h shrink ≤ h.size)
unfolding new_size
new_size-shrink h s = ground arith

new_size-count : (h : Heap) → IsSized h → h.min_size ≤ h.count → new_size h shrink ≡ h.count
unfolding new_size
new_size-count h s m = ground arith

length-realloc : (a : List ℕ) (n : ℕ) → length (realloc a n) ≡ n
length-realloc a n = omega (
  arith,
  length-append (take n a) (replicate (n - length a) 0),
  length-take n a,
  length-replicate {A = ℕ} (n - length a) 0,
)

at-realloc : (a : List ℕ) (n i : ℕ) → i < n → i < length a → at (realloc a n) i ≡ at a i
at-realloc a n i p q = ground (
  arith,
  get_or-append (take n a) (replicate (n - length a) 0) i 0,
  length-take n a,
  get_or-take n a i 0,
)

-- A change of the capacity leaves the items where they are.
pub record Resized (h g : Heap) : Type 0 where
  pub sized : IsSized g
  pub count : g.count ≡ h.count
  pub min_size : g.min_size ≡ h.min_size
  pub max_size : g.max_size ≡ h.max_size
  pub index : g.index ≡ h.index
  pub items : (i : ℕ) → i < h.count → at g.array i ≡ at h.array i

pub same-Resized : (h : Heap) → IsSized h → Resized h h
same-Resized h s = record {
  sized = s;
  count = refl;
  min_size = refl;
  max_size = refl;
  index = refl;
  items = λ i p. refl;
}

pub resize-Resized :
    (h : Heap) (op : SizeOp)
    → IsSized h
    → h.count ≤ new_size h op
    → h.min_size ≤ new_size h op
    → new_size h op ≤ h.max_size
    → Resized h (type_heap_resize h op) × ((type_heap_resize h op).size ≡ new_size h op)
unfolding type_heap_resize
resize-Resized h op s c lo hi = elim (Bool-cases (new_size h op == h.size)) [
  | inl e ↦ rw e (same-Resized h s, ground arith)
  | inr e ↦ rw e (elim (Bool-cases (new_size h op == 0)) [
    | inl z ↦
        let none_left : new_size h op ≡ 0 = ground arith in
        rw z (
          record {
            sized = omega arith;
            count = refl;
            min_size = refl;
            max_size = refl;
            index = refl;
            items = λ i p. absurd (omega arith);
          },
          sym none_left,
        )
    | inr z ↦ rw z (
      record {
        sized = omega (arith, length-realloc h.array (new_size h op));
        count = refl;
        min_size = refl;
        max_size = refl;
        index = refl;
        items = λ i p. at-realloc h.array (new_size h op) i (omega arith) (omega arith);
      },
      refl,
    )
  ])
]

-- type_heap_resize grows a heap that has room to grow, and never past its maximum.
pub resize-grow :
    (h : Heap)
    → IsSized h
    → 0 < h.size
    → h.size < h.max_size
    → Resized h (type_heap_resize h grow) × (h.size < (type_heap_resize h grow).size)
resize-grow h s p q =
    let (more, most) = new_size-grow h s p q in
    let (kept, e) = resize-Resized h grow s (omega arith) (omega arith) most in (kept, rw e more)

pub shrunk-Resized : (h : Heap) → IsSized h → Resized h (shrunk h)
shrunk-Resized h s =
    let (c, lo, hi) = new_size-shrink h s in
    elim (Bool-cases (type_heap_resize_tresh_down h)) [
      | inl e ↦ rw e (resize-Resized h shrink s c lo (omega arith)).0
      | inr e ↦ rw e (same-Resized h s)
    ]

-- After a shrink that leaves at least the minimal size, the capacity is the count: the heap counts
-- as full, and heap_add refuses the next item although the count is below the maximal size.
pub heap_add_after_shrink :
    (cmp : ℕ → ℕ → Ordering) (h : Heap) (item : ℕ)
    → IsSized h
    → h.min_size ≤ h.count
    → h.count < h.size
    → type_heap_resize_tresh_down h ≡ true
    → (heap_add cmp (shrunk h) item ≡ (false, shrunk h)) × ((shrunk h).count < h.max_size)
unfolding heap_add type_heap_full
heap_add_after_shrink cmp h item s m p t =
    let g = type_heap_resize h shrink in
    let (c, lo, hi) = new_size-shrink h s in
    let (kept, e) = resize-Resized h shrink s c lo (omega arith) in
    let exact : new_size h shrink ≡ h.count = new_size-count h s m in
    let full : (g.count == g.size) ≡ true = ground (arith, kept.count) in
    rw t (rw full (refl, ground (arith, kept.count)))
