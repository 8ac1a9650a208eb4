-- ===== src/Heap/Up.antt =====
-- type_heap_heapify_up brings one item that is too small up to its place.
use Prim.Native.Nat.{Ordering, compare}
use misc_c.Base.{
  ℕ, zero, suc, ◌≤◌, ◌<◌, ◌≡◌, ◌≢◌, refl, inl, inr, Bool-cases, false, arith, leb, ◌==◌, length,
}
use misc_c.Heap.{Heap, at, not_positive, heap_swap, up_loop, type_heap_heapify_up}
use misc_c.Heap.Array.{at-swapped, length-swapped, Swapped, heap_swap-Swapped}
use misc_c.Heap.Order.{parent, IsIndexed, IsIndexedBut, rank, IsBridged, Sifted, Swapped-Sifted}

-- A swap of the item at `i` with the one at `j` moves the gap in the indices to `j`.
swap-IsIndexedBut :
    {h g : Heap} (i j : ℕ)
    → i < h.count
    → j < h.count
    → j ≢ i
    → h.count ≤ length h.array
    → Swapped h g j i
    → IsIndexedBut h i
    → IsIndexedBut g j
swap-IsIndexedBut {h} {g} i j hi hj ne room s ix c p q =
    let li : i < length h.array = omega arith in
    let lj : j < length h.array = omega arith in
    let at_c = at-swapped h.array j i lj li c in
    let at_j = at-swapped h.array j i lj li j in
    ground (arith, at_c, at_j, ix c, ix j, s.array, s.count, s.index_at (at g.array c))

module _ (key : ℕ → ℕ) where
  pub record UpInv (h : Heap) (i : ℕ) : Type 0 where
    pub inside : i < h.count
    pub room : h.count ≤ length h.array
    pub edges : (c : ℕ) → 0 < c → c < h.count → c ≢ i → rank key h (parent c) ≤ rank key h c
    pub bridged : IsBridged key h i
    pub indexed : IsIndexedBut h i

  swap-UpInv :
      (h g : Heap) (i : ℕ)
      → UpInv h i
      → 0 < i
      → rank key h i < rank key h (parent i)
      → Swapped h g (parent i) i
      → UpInv g (parent i)
  swap-UpInv h g i v pos below s =
      let li : i < length h.array = omega (arith, v.inside, v.room) in
      let lp : parent i < length h.array = omega arith in
      let moved = at-swapped h.array (parent i) i lp li in
      record {
        inside = ground (arith, v.inside, s.count);
        room = ground (arith, v.room, s.array, s.count, length-swapped h.array (parent i) i lp li);
        edges = λ c p q ne. ground (
          arith,
          moved c,
          moved (parent c),
          v.edges c,
          v.edges (parent i),
          v.bridged c,
          s.array,
          s.count,
        );
        bridged = λ c p q e r. ground (
          arith,
          moved c,
          moved (parent (parent i)),
          v.edges c,
          v.edges (parent i),
          s.array,
          s.count,
        );
        indexed =
            swap-IsIndexedBut i (parent i) v.inside (omega arith) (omega arith) v.room s v.indexed;
      }

module _ (cmp : ℕ → ℕ → Ordering) (key : ℕ → ℕ)
    (agrees : (a b : ℕ) → cmp a b ≡ compare (key a) (key b)) where
  -- The loop ends within its fuel, at an item whose index is the only one that may be wrong.
  record Risen (h : Heap) (r : Heap × ℕ) : Type 0 where
    sifted : Sifted key h r.0
    place : r.1 < h.count
    indexed : IsIndexedBut r.0 r.1

  stay :
      (h : Heap) (i : ℕ)
      → UpInv key h i
      → (0 < i → rank key h (parent i) ≤ rank key h i)
      → Risen h (h, i)
  stay h i v top = record {
    sifted = record {
      order = λ c p q. ground (arith, v.edges c, top);
      items = λ x. refl;
      length = refl;
      count = refl;
      size = refl;
      min_size = refl;
      max_size = refl;
    };
    place = v.inside;
    indexed = v.indexed;
  }

  cmp-le : (a b : ℕ) → not_positive (cmp a b) ≡ leb (key a) (key b)
  cmp-le a b = rw (agrees a b) (ground arith)

  up_loop-Risen :
      (fuel : ℕ) (h : Heap) (i : ℕ) → i ≤ fuel → UpInv key h i → Risen h (up_loop cmp fuel h i)
  unfolding up_loop
  up_loop-Risen zero h i p v = stay h i v (λ q. absurd (omega arith))
  up_loop-Risen (suc fuel) h i p v = elim (Bool-cases (i == 0)) [
    | inl e ↦ rw e (stay h i v (λ q. ground arith))
    | inr e ↦
        rw (e, cmp-le (at h.array (parent i)) (at h.array i))
          (elim (Bool-cases (leb (rank key h (parent i)) (rank key h i))) [
            | inl le ↦ rw le (stay h i v (λ q. ground arith))
            | inr gt ↦
                let s = heap_swap-Swapped h (parent i) i (omega (arith, v.inside, v.room)) in
                let g = heap_swap h (parent i) i in
                let inv = swap-UpInv key h g i v (ground arith) (ground arith) s in
                let r = up_loop-Risen fuel g (parent i) (ground arith) inv in
                rw gt (record {
                  sifted =
                      Swapped-Sifted key (parent i) i (omega (arith, v.inside)) v.inside v.room s
                        r.sifted;
                  place = omega (arith, r.place, s.count);
                  indexed = r.indexed;
                })
          ])
  ]

  -- The end of type_heap_heapify_up mends the last index.
  pub heapify_up_lem :
      (h : Heap) (i : ℕ)
      → UpInv key h i
      → h.count ≤ h.size
      → Sifted key h (type_heap_heapify_up cmp h i) × IsIndexed (type_heap_heapify_up cmp h i)
  unfolding type_heap_heapify_up
  heapify_up_lem h i v fits =
      let inside : leb h.size i ≡ false = ground (arith, v.inside) in
      let r = up_loop-Risen i h i (omega arith) v in
      rw inside (
        record {
          order = r.sifted.order;
          items = r.sifted.items;
          length = r.sifted.length;
          count = r.sifted.count;
          size = r.sifted.size;
          min_size = r.sifted.min_size;
          max_size = r.sifted.max_size;
        },
        λ c p. ground (arith, r.indexed c),
      )
