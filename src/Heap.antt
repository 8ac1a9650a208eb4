-- ===== src/Heap.antt =====
-- lib/type/type_heap.c and lib/include/type/type_heap.h: an intrusive binary heap. An item is known
-- by its address, a number, with 0 for NULL; `index` holds the `index` field of every item. A read
-- past the array gives NULL and a write there is lost: `Inv.IsValid` rules both out.
pub mod Size
pub mod Array
pub mod Order
pub mod Up
pub mod Down
pub mod Add
pub mod Pop
mod Tests
use Prim.Native.Nat.{Ordering, lt, eq, gt}
use misc_c.Base.{
  ℕ, zero, suc, ◌+◌, ◌-◌, ◌*◌, ◌/◌, ◌%◌, ◌^◌, Bool, true, false, ◌&&◌, ◌||◌, Option, none, some,
  List, [], ◌++◌, ltb, leb, ◌==◌, if◌then◌else◌, get_or, set, take, replicate, length,
}

-- `heap_head_t`, with the index fields of the items.
pub record Heap : Type 0 where
  pub array : List ℕ
  pub count : ℕ
  pub size : ℕ
  pub min_size : ℕ
  pub max_size : ℕ
  pub index : ℕ → ℕ

-- The sign of the `int` that a comparison returns: `lt` is negative.
abbrev pub negative : Ordering → Bool
negative o = elim o [ lt ↦ true | _ ↦ false ]

abbrev pub not_positive : Ordering → Bool
not_positive o = elim o [ gt ↦ false | _ ↦ true ]

-- `unsigned int`
abbrev pub u32 : ℕ → ℕ
u32 n = n % 2 ^ 32

abbrev pub at : List ℕ → ℕ → ℕ
at a i = get_or a i 0

-- `item->index = i`
abbrev pub set_index : (ℕ → ℕ) → (item i : ℕ) → ℕ → ℕ
set_index index item i = λ x. if x == item then i else index x

pub heap_swap : Heap → (index1 index2 : ℕ) → Heap
heap_swap h i j =
    let item = at h.array i in
    let array' = set h.array i (at h.array j) in
    record h {
      array = set array' j item;
      index = set_index (set_index h.index (at array' i) i) item j;
    }

pub type_heap_full : Heap → Bool
type_heap_full h = h.count == h.size

pub type_heap_resize_tresh_up : Heap → Bool
type_heap_resize_tresh_up h = if h.size == h.max_size then false else leb h.size (u32 (h.count + 1))

pub type_heap_resize_tresh_down : Heap → Bool
type_heap_resize_tresh_down h =
    if h.size == h.min_size
    then false
    else ((h.count == 0) || ltb (u32 (u32 (h.count * 3) / 2 + 512)) h.size)

pub data SizeOp : Type 0 where
  grow shrink : SizeOp

-- The growth in steps: the levels of type_heap.c.
pub grown_size : (size max_size : ℕ) → ℕ
grown_size size max_size =
    if ltb size 36
    then u32 (size * 2)
    else if ltb size 262144
    then u32 (size + size / 2)
    else if ltb size 0xAAAA0000
    then u32 (size + size / 3)
    else if ltb size 0xBFFFFFFF
    then u32 (size + size / 4)
    else max_size

-- The size that type_heap_resize settles on.
pub new_size : Heap → SizeOp → ℕ
unfolding grown_size
new_size h op =
    let wanted : ℕ = elim op [ grow ↦ grown_size h.size h.max_size | shrink ↦ h.count ] in
    let low = if ltb wanted h.min_size then h.min_size else wanted in
    if ltb h.max_size low then h.max_size else low

-- mp_realloc keeps what fits; what it adds is not read before it is written.
abbrev pub realloc : List ℕ → ℕ → List ℕ
realloc a n = take n a ++ replicate (n - length a) 0

pub type_heap_resize : Heap → SizeOp → Heap
unfolding new_size
type_heap_resize h op =
    let n = new_size h op in
    if n == h.size
    then h
    else if n == 0
    then record h { array = []; size = 0 }
    else record h { array = realloc h.array n; size = n }

pub type_heap_create : (min_size max_size : ℕ) → (ℕ → ℕ) → Heap
type_heap_create min_size max_size index = record {
  array = replicate min_size 0;
  count = 0;
  size = min_size;
  min_size = min_size;
  max_size = if max_size == 0 then 0xFFFFFFFF else max_size;
  index = index;
}

-- The items keep their index fields.
pub type_heap_destroy : Heap → Heap
type_heap_destroy h = record h { array = []; count = 0; size = 0; min_size = 0; max_size = 0 }

pub type_heap_count : Option Heap → ℕ
type_heap_count none = 0
type_heap_count (some h) = h.count

abbrev pub type_heap_first : Heap → ℕ
type_heap_first h = at h.array 0

-- On an empty heap `count - 1` wraps to a place that no array has.
abbrev pub type_heap_last : Heap → ℕ
type_heap_last h = at h.array (u32 (h.count + (2 ^ 32 - 1)))

-- Without heapify: at the end, and by moving the last item into the place of the deleted one.
pub type_heap_add : Heap → ℕ → Heap
type_heap_add h item = record h { array = set h.array h.count item; count = u32 (h.count + 1) }

pub type_heap_del : Heap → ℕ → ℕ × Heap
type_heap_del h item =
    let i = h.index item in
    let n = h.count - 1 in
    let array' = set h.array i (at h.array n) in
    (i, record h { array = set array' n 0; count = n; index = set_index h.index (at array' i) i })

abbrev pub shrunk : Heap → Heap
shrunk h = if type_heap_resize_tresh_down h then type_heap_resize h shrink else h

module _ (cmp : ℕ → ℕ → Ordering) where
  heap_cmp : Heap → (index1 index2 : ℕ) → Ordering
  heap_cmp h i j = cmp (at h.array i) (at h.array j)

  -- The `while(index)` loop: it halves the index, so `index` rounds are enough.
  pub up_loop : ℕ → Heap → ℕ → Heap × ℕ
  unfolding heap_cmp
  up_loop zero h i = (h, i)
  up_loop (suc fuel) h i =
      let move_to = (i - 1) / 2 in
      let rest = up_loop fuel (heap_swap h move_to i) move_to in
      if i == 0 then (h, i) else if not_positive (heap_cmp h move_to i) then (h, i) else rest

  pub type_heap_heapify_up : Heap → ℕ → Heap
  unfolding up_loop
  type_heap_heapify_up h i =
      let (h', i') = up_loop i h i in
      if leb h.size i then h else record h' { index = set_index h'.index (at h'.array i') i' }

  -- The child to move to, or `i` itself.
  pub down_target : Heap → ℕ → ℕ
  unfolding heap_cmp
  down_target h i =
      let lpos = u32 (u32 (i * 2) + 1) in
      let rpos = u32 (lpos + 1) in
      let m = if ltb lpos h.count && negative (heap_cmp h lpos i) then lpos else i in
      if ltb rpos h.count && negative (heap_cmp h rpos m) then rpos else m

  -- The recursion, on fuel.
  pub down_loop : ℕ → Heap → ℕ → Heap
  unfolding down_target
  down_loop zero h i = h
  down_loop (suc fuel) h i =
      let m = down_target h i in
      let rest = down_loop fuel (heap_swap h i m) m in
      if leb h.size i then h else if m == i then h else rest

  pub type_heap_heapify_down : Heap → ℕ → Heap
  unfolding down_loop
  type_heap_heapify_down h i = down_loop (suc h.count) h i

  -- The operations that declare_heap defines. The flag is the code's -1.
  pub heap_add : Heap → ℕ → Bool × Heap
  heap_add h item =
      let h' = if type_heap_resize_tresh_up h then type_heap_resize h grow else h in
      if type_heap_full h
      then (false, h)
      else (true, type_heap_heapify_up (type_heap_add h' item) h'.count)

  pub heap_pop : Heap → Option ℕ × Heap
  heap_pop h =
      let first_item = type_heap_first h in
      let (i, h') = type_heap_del h first_item in
      if h.count == 0 then (none, h) else (some first_item, shrunk (type_heap_heapify_down h' i))

  unfoldable pub heap_top : Heap → Option ℕ
  heap_top h = if h.count == 0 then none else some (type_heap_first h)

  pub heap_del : Heap → ℕ → Heap
  heap_del h item =
      let last_item = type_heap_last h in
      let (i, h') = type_heap_del h item in
      shrunk (
        if negative (cmp last_item item)
        then type_heap_heapify_up h' i
        else type_heap_heapify_down h' i)
