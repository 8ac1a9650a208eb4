-- ===== src/Heap/Add.antt =====
-- heap_add: what a valid heap is, and that it stays one with one more item.
use Prim.Native.Nat.{Ordering, compare}
use misc_c.Base.{
  ℕ, suc, ◌+◌, ◌<◌, ◌≡◌, ◌≢◌, refl, inl, inr, Bool-cases, true, false, arith, if◌then◌else◌, ◌==◌,
  length-set,
}
use misc_c.Base.Memory.{get_or-set}
use misc_c.Heap.{
  Heap, at, grow, type_heap_full, type_heap_resize_tresh_up, type_heap_resize, type_heap_add,
  type_heap_heapify_up, heap_add,
}
use misc_c.Heap.Size.{IsSized, Resized, same-Resized, resize-grow}
use misc_c.Heap.Array.{occurs, occurs-same, occurs-suc, at-ne_of_occurs}
use misc_c.Heap.Order.{parent, IsIndexed, IsHeap}
use misc_c.Heap.Up.{UpInv, heapify_up_lem}

module _ (key : ℕ → ℕ) where
  -- Within its capacity, in heap order, without NULL, and every item knows its place.
  pub record IsValid (h : Heap) : Type 0 where
    pub sized : IsSized h
    pub order : IsHeap key h
    pub indexed : IsIndexed h
    pub present : occurs 0 h.array h.count ≡ 0

  pub Resized-IsValid : {h g : Heap} → IsValid h → Resized h g → IsValid g
  Resized-IsValid {h} {g} v r = record {
    sized = r.sized;
    order = λ c p q. ground (arith, r.count, r.items c, r.items (parent c), v.order c);
    indexed = λ i p. ground (arith, r.count, r.items i, v.indexed i, r.index);
    present = ground (arith, r.count, occurs-same 0 h.array g.array h.count r.items, v.present);
  }

  -- What holds once `item` has been put into the heap.
  pub record Added (h g : Heap) (item : ℕ) : Type 0 where
    pub valid : IsValid g
    pub count : g.count ≡ suc h.count
    pub items :
        (x : ℕ) → occurs x g.array g.count ≡ occurs x h.array h.count + (if item == x then 1 else 0)

-- The capacity before the item is put in.
abbrev grown : Heap → Heap
grown h = if type_heap_resize_tresh_up h then type_heap_resize h grow else h

grown_lem :
    (h : Heap) → IsSized h → h.count < h.size → Resized h (grown h) × (h.count < (grown h).size)
unfolding type_heap_resize_tresh_up
grown_lem h s p = elim (Bool-cases (type_heap_resize_tresh_up h)) [
  | inl e ↦
      let r = resize-grow h s (omega arith) (ground (arith, s.high)) in rw e (r.0, omega arith)
  | inr e ↦ rw e (same-Resized h s, p)
]

module _ (cmp : ℕ → ℕ → Ordering) (key : ℕ → ℕ)
    (agrees : (a b : ℕ) → cmp a b ≡ compare (key a) (key b)) where
  module _ (h : Heap) (item : ℕ) (v : IsValid key h) (free : h.count < h.size) (real : item ≢ 0)
      (fresh : occurs item h.array h.count ≡ 0) where
    placed_at :
        (c : ℕ) → at (type_heap_add h item).array c ≡ (if h.count == c then item else at h.array c)
    unfolding type_heap_add
    placed_at c = get_or-set h.array h.count c item 0 (omega (arith, v.sized.room))

    placed_count : (type_heap_add h item).count ≡ suc h.count
    unfolding type_heap_add
    placed_count = omega (arith, v.sized.high, v.sized.word)

    placed-UpInv : UpInv key (type_heap_add h item) h.count
    unfolding type_heap_add
    placed-UpInv =
        let z = placed_count in
        record {
          inside = omega arith;
          room = omega (arith, length-set h.array h.count item, v.sized.room);
          edges = λ c p q ne. ground (arith, placed_at c, placed_at (parent c), v.order c);
          bridged = λ c p q e r. absurd (omega arith);
          indexed = λ c p ne. ground (
            arith,
            placed_at c,
            placed_at h.count,
            v.indexed c,
            at-ne_of_occurs item h.array h.count c fresh,
          );
        }

    placed_items :
        (x : ℕ)
        → occurs x (type_heap_add h item).array (suc h.count)
          ≡ occurs x h.array h.count + (if item == x then 1 else 0)
    placed_items x =
        let a = (type_heap_add h item).array in
        let below = λ (i : ℕ) (p : i < h.count).
          let e : at a i ≡ at h.array i = ground (arith, placed_at i) in e in
        ground
          (arith, occurs-suc x a h.count, occurs-same x h.array a h.count below, placed_at h.count)

    placed-IsSized : IsSized (type_heap_add h item)
    unfolding type_heap_add
    placed-IsSized = let z = placed_count in omega (arith, length-set h.array h.count item, v.sized)

  module _ (h : Heap) (item : ℕ) (v : IsValid key h) (free : h.count < h.size) (real : item ≢ 0)
      (fresh : occurs item h.array h.count ≡ 0) where
    risen-Added : Added key h (type_heap_heapify_up cmp (type_heap_add h item) h.count) item
    risen-Added =
        let a = type_heap_add h item in
        let sized = placed-IsSized h item v free real fresh in
        let n = placed_count h item v free real fresh in
        let (s, ix) =
          heapify_up_lem cmp key agrees a h.count (placed-UpInv h item v free real fresh)
            sized.fits in
        let items = placed_items h item v free real fresh in
        record {
          valid = record {
            sized = omega (arith, s.length, s.count, s.size, s.min_size, s.max_size, sized);
            order = s.order;
            indexed = ix;
            present = ground (arith, s.items 0, items 0, s.count, n, v.present);
          };
          count = omega (arith, s.count, n);
          items = λ x. ground (arith, s.items x, items x, s.count, n);
        }

  -- heap_add refuses a heap whose count has reached its capacity and changes nothing. Else it puts
  -- the item in, so that the heap is valid and holds one item more, the new one.
  pub heap_add_lem :
      (h : Heap) (item : ℕ)
      → IsValid key h
      → item ≢ 0
      → occurs item h.array h.count ≡ 0
      → (h.count ≡ h.size → heap_add cmp h item ≡ (false, h))
        × (h.count ≢ h.size
            → ((heap_add cmp h item).0 ≡ true) × Added key h (heap_add cmp h item).1 item)
  unfolding heap_add type_heap_full
  heap_add_lem h item v real fresh = (
    λ e. ground arith,
    λ ne.
        let room : (h.count == h.size) ≡ false = ground arith in
        let (r, free) = grown_lem h v.sized (omega (arith, v.sized.fits)) in
        let fresh' : occurs item (grown h).array (grown h).count ≡ 0 =
          ground (arith, r.count, occurs-same item h.array (grown h).array h.count r.items) in
        let free' : (grown h).count < (grown h).size = omega (arith, r.count) in
        let t = risen-Added (grown h) item (Resized-IsValid key v r) free' real fresh' in
        rw room (
          refl,
          record {
            valid = t.valid;
            count = omega (arith, t.count, r.count);
            items = λ x.
                ground (
                  arith,
                  t.items x,
                  r.count,
                  occurs-same x h.array (grown h).array h.count r.items,
                );
          },
        ),
  )
