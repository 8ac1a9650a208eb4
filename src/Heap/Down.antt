-- ===== src/Heap/Down.antt =====
-- type_heap_heapify_down brings one item that is too large down to its place.
use Prim.Native.Nat.{Ordering, compare}
use misc_c.Base.{
  ℕ, zero, suc, ◌+◌, ◌-◌, ◌*◌, ◌%◌, ◌^◌, ◌≤◌, ◌<◌, ◌≡◌, ◌≢◌, ◌⊎◌, refl, inl, inr, Bool-cases, true,
  false, ◌&&◌, arith, ltb, leb, if◌then◌else◌, ◌==◌, length,
}
use native.Mathlib.Decide.{ℕ_discrete}
use misc_c.Heap.{Heap, at, u32, negative, heap_swap, down_target, down_loop, type_heap_heapify_down}
use misc_c.Heap.Array.{at-swapped, length-swapped, Swapped, heap_swap-Swapped}
use misc_c.Heap.Order.{parent, IsIndexed, rank, IsBridged, Sifted, Swapped-Sifted}

-- A swap keeps every index right.
swap-IsIndexed :
    {h g : Heap} (i j : ℕ)
    → i < h.count
    → j < h.count
    → h.count ≤ length h.array
    → Swapped h g i j
    → IsIndexed h
    → IsIndexed g
swap-IsIndexed {h} {g} i j hi hj room s ix c p =
    let li : i < length h.array = omega arith in
    let lj : j < length h.array = omega arith in
    ground (
      arith,
      at-swapped h.array i j li lj c,
      ix c,
      ix i,
      ix j,
      s.array,
      s.count,
      s.index_at (at g.array c),
    )

children : (c i : ℕ) → 0 < c → parent c ≡ i → (c ≡ 2 * i + 1) ⊎ (c ≡ 2 * i + 2)
children c i p e = elim (ℕ_discrete (c % 2) 1) [
  | yes q ↦ inl (omega arith)
  | no q ↦ inr (omega arith)
]

module _ (key : ℕ → ℕ) where
  pub record DownInv (h : Heap) (i : ℕ) : Type 0 where
    pub room : h.count ≤ length h.array
    pub edges : (c : ℕ) → 0 < c → c < h.count → parent c ≢ i → rank key h (parent c) ≤ rank key h c
    pub bridged : IsBridged key h i
    pub indexed : IsIndexed h

  record IsLeast (h : Heap) (i m : ℕ) : Type 0 where
    inside : m < h.count
    child : (m ≡ 2 * i + 1) ⊎ (m ≡ 2 * i + 2)
    below : rank key h m < rank key h i
    least : (c : ℕ) → 0 < c → c < h.count → parent c ≡ i → rank key h m ≤ rank key h c

  abbrev IsSettled : Heap → ℕ → Type 0
  IsSettled h i = (c : ℕ) → 0 < c → c < h.count → parent c ≡ i → rank key h i ≤ rank key h c

  swap-DownInv :
      (h g : Heap) (i m : ℕ) → DownInv h i → IsLeast h i m → Swapped h g i m → DownInv g m
  swap-DownInv h g i m v t s =
      let hi : i < h.count = ground (arith, t.child, t.inside) in
      let li : i < length h.array = omega (arith, v.room) in
      let lm : m < length h.array = omega (arith, v.room, t.inside) in
      let moved = at-swapped h.array i m li lm in
      record {
        room = ground (arith, v.room, s.array, s.count, length-swapped h.array i m li lm);
        edges = λ c p q ne. ground (
          arith,
          moved c,
          moved (parent c),
          v.edges c,
          v.bridged m,
          t.least c,
          t.child,
          t.below,
          s.array,
          s.count,
        );
        bridged = λ c p q e r.
            ground
              (arith, moved c, moved (parent m), v.edges c, t.child, t.below, s.array, s.count);
        indexed = swap-IsIndexed i m hi t.inside v.room s v.indexed;
      }

module _ (cmp : ℕ → ℕ → Ordering) (key : ℕ → ℕ)
    (agrees : (a b : ℕ) → cmp a b ≡ compare (key a) (key b)) where
  pub cmp-lt : (a b : ℕ) → negative (cmp a b) ≡ ltb (key a) (key b)
  cmp-lt a b = rw (agrees a b) (ground arith)

  module _ (h : Heap) (i : ℕ) (small : h.count + 1 < 2 ^ 31) (p : i ≤ h.count) where
    abbrev left : ℕ
    left = 2 * i + 1

    abbrev right : ℕ
    right = 2 * i + 2

    -- The choice with no wrap in the positions.
    abbrev choice : ℕ
    choice =
        let m = if ltb left h.count && ltb (rank key h left) (rank key h i) then left else i in
        if ltb right h.count && ltb (rank key h right) (rank key h m) then right else m

    target-eq : down_target cmp h i ≡ choice
    unfolding down_target
    target-eq =
        let l : u32 (u32 (i * 2) + 1) ≡ left = omega arith in
        let r : u32 (left + 1) ≡ right = omega arith in rw (l, r) (simp cmp-lt)

    choice-IsLeast : ((choice ≡ i) × IsSettled key h i) ⊎ IsLeast key h i choice
    choice-IsLeast = elim (Bool-cases (ltb left h.count && ltb (rank key h left) (rank key h i))) [
      | inl e ↦
          rw e (elim (Bool-cases (ltb right h.count && ltb (rank key h right) (rank key h left))) [
            | inl f ↦ rw f (
                inr (record {
                  inside = ground arith;
                  child = inr refl;
                  below = ground arith;
                  least = λ c q r t. ground (arith, children c i q t);
                }))
            | inr f ↦ rw f (
                inr (record {
                  inside = ground arith;
                  child = inl refl;
                  below = ground arith;
                  least = λ c q r t. ground (arith, children c i q t);
                }))
          ])
      | inr e ↦
          rw e (elim (Bool-cases (ltb right h.count && ltb (rank key h right) (rank key h i))) [
            | inl f ↦ rw f (
                inr (record {
                  inside = ground arith;
                  child = inr refl;
                  below = ground arith;
                  least = λ c q r t. ground (arith, children c i q t);
                }))
            | inr f ↦ rw f (inl (refl, λ c q r t. ground (arith, children c i q t)))
          ])
    ]

  target_lem :
      (h : Heap) (i : ℕ)
      → h.count + 1 < 2 ^ 31
      → i ≤ h.count
      → ((down_target cmp h i ≡ i) × IsSettled key h i) ⊎ IsLeast key h i (down_target cmp h i)
  target_lem h i small p = rw (target-eq h i small p) (choice-IsLeast h i small p)

  settled-Sifted :
      (h : Heap) (i : ℕ) → DownInv key h i → IsSettled key h i → Sifted key h h × IsIndexed h
  settled-Sifted h i v t = (
    record {
      order = λ c p q. ground (arith, v.edges c, t c);
      items = λ x. refl;
      length = refl;
      count = refl;
      size = refl;
      min_size = refl;
      max_size = refl;
    },
    v.indexed,
  )

  down_loop_lem :
      (fuel : ℕ) (h : Heap) (i : ℕ)
      → h.count + 1 < 2 ^ 31
      → h.count ≤ h.size
      → i ≤ h.count
      → h.count - i < fuel
      → DownInv key h i
      → Sifted key h (down_loop cmp fuel h i) × IsIndexed (down_loop cmp fuel h i)
  unfolding down_loop
  down_loop_lem zero h i small fits p f v = absurd (omega arith)
  down_loop_lem (suc fuel) h i small fits p f v = elim (target_lem h i small p) [
    | inl (e, t) ↦
        let stop : (down_target cmp h i == i) ≡ true = ground arith in
        rw stop (elim (Bool-cases (leb h.size i)) [
          | inl q ↦ rw q (settled-Sifted h i v t)
          | inr q ↦ rw q (settled-Sifted h i v t)
        ])
    | inr t ↦
        let m = down_target cmp h i in
        let hi : i < h.count = ground (arith, t.child, t.inside) in
        let go : (m == i) ≡ false = ground (arith, t.child) in
        let inside : leb h.size i ≡ false = ground arith in
        let s = heap_swap-Swapped h i m (omega (arith, v.room)) in
        let g = heap_swap h i m in
        let (r, ix) =
          down_loop_lem fuel g m (omega (arith, s.count)) (omega (arith, s.count, s.size))
            (omega (arith, s.count, t.inside)) (ground (arith, s.count, t.child, t.inside))
            (swap-DownInv key h g i m v t s) in
        rw (inside, go) (Swapped-Sifted key i m hi t.inside v.room s r, ix)
  ]

  pub heapify_down_lem :
      (h : Heap) (i : ℕ)
      → h.count + 1 < 2 ^ 31
      → h.count ≤ h.size
      → i ≤ h.count
      → DownInv key h i
      → Sifted key h (type_heap_heapify_down cmp h i) × IsIndexed (type_heap_heapify_down cmp h i)
  unfolding type_heap_heapify_down
  heapify_down_lem h i small fits p v = down_loop_lem (suc h.count) h i small fits p (omega arith) v
