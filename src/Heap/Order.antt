-- ===== src/Heap/Order.antt =====
-- The heap order and the index fields, whole and with one place out of order.
use misc_c.Base.{ℕ, ◌-◌, ◌/◌, ◌≤◌, ◌<◌, ◌≡◌, ◌≢◌, arith, length}
use misc_c.Heap.{Heap, at}
use misc_c.Heap.Array.{occurs, occurs-swapped, length-swapped, Swapped}

abbrev pub parent : ℕ → ℕ
parent c = (c - 1) / 2

-- Every item says where it stands.
abbrev pub IsIndexed : Heap → Type 0
IsIndexed h = (i : ℕ) → i < h.count → h.index (at h.array i) ≡ i

-- Every item but that at `i` does, and is another than that.
abbrev pub IsIndexedBut : Heap → ℕ → Type 0
IsIndexedBut h i =
    (c : ℕ) → c < h.count → c ≢ i → (h.index (at h.array c) ≡ c) × (at h.array c ≢ at h.array i)

module _ (key : ℕ → ℕ) where
  abbrev pub rank : Heap → ℕ → ℕ
  rank h i = key (at h.array i)

  abbrev pub IsHeap : Heap → Type 0
  IsHeap h = (c : ℕ) → 0 < c → c < h.count → rank h (parent c) ≤ rank h c

  -- Past `i`, from its parent to its children, the order holds.
  abbrev pub IsBridged : Heap → ℕ → Type 0
  IsBridged h i =
      (c : ℕ) → 0 < c → c < h.count → parent c ≡ i → 0 < i → rank h (parent i) ≤ rank h c

  -- The same items, in heap order, wherever they stood before.
  pub record Sifted (h g : Heap) : Type 0 where
    pub order : IsHeap g
    pub items : (x : ℕ) → occurs x g.array h.count ≡ occurs x h.array h.count
    pub length : length g.array ≡ length h.array
    pub count : g.count ≡ h.count
    pub size : g.size ≡ h.size
    pub min_size : g.min_size ≡ h.min_size
    pub max_size : g.max_size ≡ h.max_size

  module _ {h g f : Heap} (i j : ℕ) (hi : i < h.count) (hj : j < h.count)
      (room : h.count ≤ length h.array) (s : Swapped h g i j) where
    pub Swapped-Sifted : Sifted g f → Sifted h f
    Swapped-Sifted t =
        let li : i < length h.array = omega arith in
        let lj : j < length h.array = omega arith in
        record {
          order = t.order;
          items = λ x.
              let moved = occurs-swapped h.array i j li lj x h.count hi hj in
              ground (arith, t.items x, moved, s.count, s.array);
          length = ground (arith, length-swapped h.array i j li lj, t.length, s.array);
          count = ground (arith, t.count, s.count);
          size = ground (arith, t.size, s.size);
          min_size = ground (arith, t.min_size, s.min_size);
          max_size = ground (arith, t.max_size, s.max_size);
        }
