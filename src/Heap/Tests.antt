-- ===== src/Heap/Tests.antt =====
-- A heap of three items, 2 above 5 and 3, ordered by their addresses.
use Prim.Native.Nat.{compare}
use misc_c.Base.{
  ℕ, zero, suc, ◌≤◌, ◌<◌, ◌≡◌, ◌≢◌, refl, true, false, none, some, [], ◌∷◌, arith, ◌==◌,
  if◌then◌else◌, replicate,
}
use misc_c.Heap.{Heap, at, type_heap_resize_tresh_down, shrunk, heap_add, heap_pop, heap_del}
use misc_c.Heap.Size.{IsSized, heap_add_after_shrink}
use misc_c.Heap.Array.{occurs}
use misc_c.Heap.Order.{IsIndexed, IsHeap}
use misc_c.Heap.Add.{IsValid, Added, heap_add_lem}
use misc_c.Heap.Pop.{Removed, heap_pop_lem, heap_del_lem}

abbrev by_address : ℕ → ℕ
by_address x = x

abbrev places : ℕ → ℕ
places x = if x == 2 then 0 else if x == 5 then 1 else 2

abbrev three : Heap
three = record {
  array = 2 ∷ 5 ∷ 3 ∷ 0 ∷ [];
  count = 3;
  size = 4;
  min_size = 1;
  max_size = 8;
  index = places;
}

three_order : IsHeap by_address three
three_order zero p q = absurd (omega arith)
three_order (suc zero) p q = omega arith
three_order (suc (suc zero)) p q = omega arith
three_order (suc (suc (suc c))) p q = absurd (omega arith)

three-IsIndexed : IsIndexed three
three-IsIndexed zero p = refl
three-IsIndexed (suc zero) p = refl
three-IsIndexed (suc (suc zero)) p = refl
three-IsIndexed (suc (suc (suc i))) p = absurd (omega arith)

three-IsValid : IsValid by_address three
unfolding occurs
three-IsValid = record {
  sized = omega arith;
  order = three_order;
  indexed = three-IsIndexed;
  present = refl;
}

four_fresh : occurs 4 three.array 3 ≡ 0
unfolding occurs
four_fresh = refl

heap_pop_least : (heap_pop compare three).0 ≡ some 2
unfolding heap_pop
heap_pop_least = refl

heap_add_lem_example :
    (three.count ≡ three.size → heap_add compare three 4 ≡ (false, three))
    × (three.count ≢ three.size
        → ((heap_add compare three 4).0 ≡ true)
          × Added by_address three (heap_add compare three 4).1 4)
heap_add_lem_example =
    heap_add_lem compare by_address (λ a b. refl) three 4 three-IsValid (omega arith) four_fresh

heap_pop_lem_example :
    (three.count ≡ 0 → heap_pop compare three ≡ (none, three))
    × ((some_left : 0 < three.count)
        → ((heap_pop compare three).0 ≡ some 2)
          × ((i : ℕ) → i < three.count → 2 ≤ at three.array i)
          × Removed by_address three 0 three-IsValid some_left (heap_pop compare three).1)
heap_pop_lem_example =
    heap_pop_lem compare by_address (λ a b. refl) three three-IsValid (omega arith)

heap_del_lem_example :
    Removed by_address three 1 three-IsValid (omega arith) (heap_del compare three 5)
heap_del_lem_example =
    heap_del_lem compare by_address (λ a b. refl) three 1 three-IsValid (omega arith) (omega arith)

-- 600 places for two items.
abbrev sparse : Heap
sparse = record {
  array = replicate 600 0;
  count = 2;
  size = 600;
  min_size = 1;
  max_size = 1024;
  index = places;
}

sparse-IsSized : IsSized sparse
sparse-IsSized = omega arith

sparse_down : type_heap_resize_tresh_down sparse ≡ true
unfolding type_heap_resize_tresh_down
sparse_down = refl

heap_add_after_shrink_example :
    (heap_add compare (shrunk sparse) 7 ≡ (false, shrunk sparse)) × ((shrunk sparse).count < 1024)
heap_add_after_shrink_example =
    heap_add_after_shrink compare sparse 7 sparse-IsSized (omega arith) (omega arith) sparse_down
