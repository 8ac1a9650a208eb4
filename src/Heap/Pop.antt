-- ===== src/Heap/Pop.antt =====
-- heap_pop and heap_del: the item that leaves, and the valid heap that stays.
use Prim.Native.Nat.{Ordering, compare}
use misc_c.Base.{
  ℕ, zero, suc, ◌+◌, ◌-◌, ◌^◌, ◌≤◌, ◌<◌, ◌≡◌, refl, inl, inr, Bool-cases, false, none, some, arith,
  ltb, if◌then◌else◌, ◌==◌, length, set, length-set,
}
use native.Mathlib.Decide.{ℕ_discrete}
use misc_c.Base.Memory.{get_or-set}
use misc_c.Heap.{
  u32, Heap, at, shrunk, type_heap_del, type_heap_heapify_up, type_heap_heapify_down, heap_pop,
  heap_del,
}
use misc_c.Heap.Size.{shrunk-Resized}
use misc_c.Heap.Array.{occurs, occurs-same, occurs-suc, occurs-set}
use misc_c.Heap.Order.{parent, IsIndexed, rank, IsHeap, Sifted}
use misc_c.Heap.Up.{UpInv, heapify_up_lem}
use misc_c.Heap.Down.{DownInv, heapify_down_lem, cmp-lt}
use misc_c.Heap.Add.{IsValid, Resized-IsValid}

module _ (key : ℕ → ℕ) where
  root_least_below :
      (k : ℕ) (h : Heap) (i : ℕ) → IsHeap key h → i < k → i < h.count → rank key h 0 ≤ rank key h i
  root_least_below zero h i o p q = absurd (omega arith)
  root_least_below (suc k) h i o p q = ground (arith, o i, root_least_below k h (parent i) o)

  module _ (h : Heap) (i : ℕ) (v : IsValid key h) (hi : i < h.count) where
    abbrev item : ℕ
    item = at h.array i

    abbrev last : ℕ
    last = h.count - 1

    -- The heap behind type_heap_del, before it is put in order.
    abbrev cut : Heap
    cut = (type_heap_del h item).1

    cut_place : (type_heap_del h item).0 ≡ i
    unfolding type_heap_del
    cut_place = v.indexed i hi

    cut_at :
        (c : ℕ) → c < last → at cut.array c ≡ (if i == c then at h.array last else at h.array c)
    unfolding type_heap_del
    cut_at c p = ground (
      arith,
      v.indexed i hi,
      v.sized.room,
      v.sized.fits,
      length-set h.array i (at h.array last),
      get_or-set (set h.array i (at h.array last)) last c 0 0,
      get_or-set h.array i c (at h.array last) 0,
    )

    cut_sizes :
        (cut.count ≡ last)
        × (length cut.array ≡ length h.array)
        × (cut.size ≡ h.size)
        × (cut.min_size ≡ h.min_size)
        × (cut.max_size ≡ h.max_size)
    unfolding type_heap_del
    cut_sizes = (
      refl,
      ground (
        arith,
        v.indexed i hi,
        length-set (set h.array i (at h.array last)) last 0,
        length-set h.array i (at h.array last),
      ),
      refl,
      refl,
      refl,
    )

    cut_index : (x : ℕ) → cut.index x ≡ (if x == at h.array last then i else h.index x)
    unfolding type_heap_del
    cut_index x = ground (
      arith,
      v.indexed i hi,
      v.sized.room,
      v.sized.fits,
      get_or-set h.array i i (at h.array last) 0,
    )

    cut-IsIndexed : IsIndexed cut
    cut-IsIndexed c p =
        let (n, _, _, _, _) = cut_sizes in
        ground (arith, cut_at c, cut_index (at cut.array c), v.indexed c, v.indexed last, n)

    cut_items :
        (x : ℕ) → occurs x cut.array last + (if item == x then 1 else 0) ≡ occurs x h.array h.count
    cut_items x =
        let b = set h.array i (at h.array last) in
        let whole : h.count ≡ suc last = omega arith in
        rw whole (elim (ℕ_discrete i last) [
          | yes e ↦
              let kept = λ (c : ℕ) (p : c < last).
                let q : at cut.array c ≡ at h.array c = ground (arith, cut_at c) in q in
              ground (arith, occurs-same x h.array cut.array last kept, occurs-suc x h.array last)
          | no ne ↦
              let room : i < length h.array = omega (arith, v.sized.room, v.sized.fits) in
              let kept = λ (c : ℕ) (p : c < last).
                let q : at cut.array c ≡ at b c =
                  ground (arith, cut_at c, get_or-set h.array i c (at h.array last) 0 room) in
                q in
              ground (
                arith,
                occurs-same x b cut.array last kept,
                occurs-set x h.array i (at h.array last) last (omega arith) room,
                occurs-suc x h.array last,
              )
        ])

    -- What holds once the item at `i` has left.
    pub record Removed (g : Heap) : Type 0 where
      pub valid : IsValid key g
      pub count : g.count + 1 ≡ h.count
      pub items :
          (x : ℕ)
          → occurs x g.array g.count + (if item == x then 1 else 0) ≡ occurs x h.array h.count

    Sifted-Removed : (g : Heap) → Sifted key cut g → IsIndexed g → Removed g
    Sifted-Removed g s ix =
        let (n, l, z, lo, hi') = cut_sizes in
        record {
          valid = record {
            sized = omega (
              arith, s.length, s.count, s.size, s.min_size, s.max_size, n, l, z, lo, hi', v.sized,
            );
            order = s.order;
            indexed = ix;
            present = ground (arith, s.items 0, s.count, n, cut_items 0, v.present);
          };
          count = omega (arith, s.count, n);
          items = λ x. ground (arith, s.items x, s.count, n, cut_items x);
        }

    shrunk-Removed : (g : Heap) → Removed g → Removed (shrunk g)
    shrunk-Removed g r =
        let k = shrunk-Resized g r.valid.sized in
        record {
          valid = Resized-IsValid key r.valid k;
          count = omega (arith, k.count, r.count);
          items = λ x.
              ground
                (arith, k.count, r.items x, occurs-same x g.array (shrunk g).array g.count k.items);
        }

    cut-DownInv : rank key h i ≤ rank key h last → DownInv key cut i
    cut-DownInv le =
        let (n, l, _, _, _) = cut_sizes in
        record {
          room = omega (arith, n, l, v.sized.room, v.sized.fits);
          edges = λ c p q ne. ground (arith, cut_at c, cut_at (parent c), v.order c, n);
          bridged =
              λ c p q e r. ground (arith, cut_at c, cut_at (parent i), v.order c, v.order i, n);
          indexed = cut-IsIndexed;
        }

    cut-UpInv : rank key h last < rank key h i → UpInv key cut i
    cut-UpInv lt =
        let (n, l, _, _, _) = cut_sizes in
        let inner : i < last = ground arith in
        record {
          inside = omega (arith, n);
          room = omega (arith, n, l, v.sized.room, v.sized.fits);
          edges = λ c p q ne. ground (arith, cut_at c, cut_at (parent c), v.order c, n);
          bridged =
              λ c p q e r. ground (arith, cut_at c, cut_at (parent i), v.order c, v.order i, n);
          indexed = λ c p ne. ground (arith, cut-IsIndexed c, cut-IsIndexed i, n);
        }

    cut-DownInv_root : i ≡ 0 → DownInv key cut i
    cut-DownInv_root e =
        let (n, l, _, _, _) = cut_sizes in
        record {
          room = omega (arith, n, l, v.sized.room, v.sized.fits);
          edges = λ c p q ne. ground (arith, cut_at c, cut_at (parent c), v.order c, n);
          bridged = λ c p q r t. absurd (omega arith);
          indexed = cut-IsIndexed;
        }

module _ (cmp : ℕ → ℕ → Ordering) (key : ℕ → ℕ)
    (agrees : (a b : ℕ) → cmp a b ≡ compare (key a) (key b)) where
  module _ (h : Heap) (i : ℕ) (v : IsValid key h) (hi : i < h.count)
      (small : h.count < 2 ^ 31) where
    down-Removed :
        DownInv key (cut key h i v hi) i
        → Removed key h i v hi (type_heap_heapify_down cmp (cut key h i v hi) i)
    down-Removed d =
        let (n, _, z, _, _) = cut_sizes key h i v hi in
        let (s, ix) =
          heapify_down_lem cmp key agrees (cut key h i v hi) i (omega (arith, n))
            (omega (arith, n, z, v.sized.fits)) (omega (arith, n)) d in
        Sifted-Removed key h i v hi _ s ix

    up-Removed :
        UpInv key (cut key h i v hi) i
        → Removed key h i v hi (type_heap_heapify_up cmp (cut key h i v hi) i)
    up-Removed u =
        let (n, _, z, _, _) = cut_sizes key h i v hi in
        let (s, ix) =
          heapify_up_lem cmp key agrees (cut key h i v hi) i u
            (omega (arith, n, z, v.sized.fits)) in
        Sifted-Removed key h i v hi _ s ix

    -- heap_del of the item at place `i` of a valid heap takes out that item and no other, and leaves
    -- a valid heap.
    pub heap_del_lem : Removed key h i v hi (heap_del cmp h (at h.array i))
    unfolding heap_del
    heap_del_lem =
        let place = cut_place key h i v hi in
        let tail : u32 (h.count + (2 ^ 32 - 1)) ≡ h.count - 1 = omega arith in
        rw (place, tail, cmp-lt cmp key agrees (at h.array (h.count - 1)) (at h.array i))
          (elim (Bool-cases (ltb (rank key h (h.count - 1)) (rank key h i))) [
            | inl e ↦
                rw e (
                  shrunk-Removed key h i v hi _
                    (up-Removed (cut-UpInv key h i v hi (ground arith))))
            | inr e ↦ rw e (
                shrunk-Removed key h i v hi _
                  (down-Removed (cut-DownInv key h i v hi (ground arith))))
          ])

  -- heap_pop of an empty heap gives NULL and changes nothing. Of another valid heap it gives an item
  -- that no item of the heap comes before, takes out that item alone and leaves a valid heap.
  pub heap_pop_lem :
      (h : Heap)
      → (v : IsValid key h) → h.count < 2 ^ 31
      → (h.count ≡ 0 → heap_pop cmp h ≡ (none, h))
        × ((some_left : 0 < h.count)
            → ((heap_pop cmp h).0 ≡ some (at h.array 0))
              × ((i : ℕ) → i < h.count → key (at h.array 0) ≤ key (at h.array i))
              × Removed key h 0 v some_left (heap_pop cmp h).1)
  unfolding heap_pop
  heap_pop_lem h v small = (
    λ e. ground arith,
    λ p.
        let busy : (h.count == 0) ≡ false = ground arith in
        rw (busy, cut_place key h 0 v p)
          (
            refl,
            λ i q. root_least_below key (suc i) h i v.order (omega arith) q,
            shrunk-Removed key h 0 v p _
                (down-Removed h 0 v p small (cut-DownInv_root key h 0 v p refl)),
          ),
  )
