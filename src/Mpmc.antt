-- ===== src/Mpmc.antt =====
-- lib/type/type_atom_queue.c: the queue of many producers and many consumers. A step of the model is
-- one atomic access of one thread, and a run is any sequence of such steps. A node is its address. A
-- pop frees the old head, and calloc may give its address again; what a thread reads there meanwhile is
-- what stood there before. The versions do not wrap: that takes 2^64 pushes.
pub mod Inv
pub mod Stable
pub mod Push
pub mod Link
pub mod Pop
pub mod Runs
pub mod Order
pub mod Alone
mod Tests
use misc_c.Base.{
  ℕ, zero, suc, ◌+◌, Bool, true, false, not, ◌&&◌, ◌||◌, List, [], ◌∷◌, ◌++◌, ◌==◌, if◌then◌else◌,
}

-- `mpmc_tagged_ptr_t`
pub record Tag : Type 0 where
  pub ptr : ℕ
  pub version : ℕ

abbrev pub tag_eq : Tag → Tag → Bool
tag_eq a b = a.ptr == b.ptr && a.version == b.version

-- Where a thread stands: what it has loaded, and what comes next.
pub data Local : Type 0 where
  idle pop_start : Local
  push_start : (item : ℕ) → Local
  push_tail : (item : ℕ) → Tag → Local
  push_next push_checked : (item : ℕ) → Tag → (tail_next : ℕ) → Local
  push_linked : (item : ℕ) → Tag → Local
  pop_head : Tag → Local
  pop_tail pop_checked : (head tail : Tag) → Local
  pop_next : (head tail : Tag) → (head_next : ℕ) → Local

-- The queue and its nodes, the threads, the addresses that were ever given out, and the values in the order in which they go in and come out.
pub record Mpmc : Type 0 where
  pub next : ℕ → ℕ
  pub data_of : ℕ → ℕ
  pub head : Tag
  pub tail : Tag
  pub allocated : ℕ → Bool
  pub given : ℕ → Bool
  pub locals : ℕ → Local
  pub pushed : List ℕ
  pub popped : List ℕ

abbrev pub put {ℓ} : {A : Type ℓ} → (ℕ → A) → ℕ → A → ℕ → A
put f x a = λ y. if y == x then a else f y

abbrev pub goes : ℕ → Local → Mpmc → Mpmc
goes t l s = record s { locals = put s.locals t l }

-- ATOM_CMP_XCHG_WEAK on the tail, which may fail where `ok` is false
abbrev pub swing_tail : (ok : Bool) → (expected : Tag) → ℕ → Mpmc → Mpmc
swing_tail ok expected item s =
    if ok && tag_eq s.tail expected
    then record s { tail = record { ptr = item; version = expected.version + 1 } }
    else s

-- ATOM_CMP_XCHG_WEAK on `tail->next`, by which a node gets into the queue
unfoldable pub link : (ok : Bool) → (t item : ℕ) → Tag → Mpmc → Mpmc
link ok t item tail s =
    if ok && s.next tail.ptr == 0
    then goes t (push_linked item tail)
        (record s { next = put s.next tail.ptr item; pushed = s.pushed ++ s.data_of item ∷ [] })
    else goes t (push_start item) s

-- ATOM_CMP_XCHG_WEAK on the head, by which a node leaves the queue, and the `mp_free` of the old head
unfoldable pub unlink_head : (ok : Bool) → (t : ℕ) → (head : Tag) → (head_next : ℕ) → Mpmc → Mpmc
unlink_head ok t head head_next s =
    if ok && tag_eq s.head head
    then goes t idle (record s {
      head = record { ptr = head_next; version = head.version + 1 };
      allocated = put s.allocated head.ptr false;
      popped = s.popped ++ s.data_of head_next ∷ [];
    })
    else goes t pop_start s

-- The next access of a thread, in `mpmc_atom_queue_push` and in `mpmc_atom_queue_pop`
unfoldable pub proceed : Local → (ok : Bool) → ℕ → Mpmc → Mpmc
unfolding link unlink_head
proceed idle ok t s = s
proceed (push_start item) ok t s = goes t (push_tail item s.tail) s
proceed (push_tail item tail) ok t s = goes t (push_next item tail (s.next tail.ptr)) s
proceed (push_next item tail tail_next) ok t s =
    goes t (if tag_eq tail s.tail then push_checked item tail tail_next else push_start item) s
proceed (push_checked item tail zero) ok t s = link ok t item tail s
proceed (push_checked item tail (suc tail_next)) ok t s =
    goes t (push_start item) (swing_tail ok tail (suc tail_next) s)
proceed (push_linked item tail) ok t s = goes t idle (swing_tail ok tail item s)
proceed pop_start ok t s = goes t (pop_head s.head) s
proceed (pop_head head) ok t s = goes t (pop_tail head s.tail) s
proceed (pop_tail head tail) ok t s =
    goes t (if tag_eq head s.head then pop_checked head tail else pop_start) s
proceed (pop_checked head tail) ok t s = goes t (pop_next head tail (s.next head.ptr)) s
proceed (pop_next head tail head_next) ok t s =
    if head.ptr == tail.ptr
    then (if head_next == 0
        then goes t idle s
        else goes t pop_start (swing_tail ok tail head_next s))
    else unlink_head ok t head head_next s

-- What a thread does next: it calls push, with the node that calloc gives, or pop, or goes on.
pub data Action : Type 0 where
  call_push : (item value : ℕ) → Action
  call_pop : Action
  access : (ok : Bool) → Action

abbrev pub is_idle : Local → Bool
is_idle idle = true
is_idle _ = false

unfoldable pub step : Action → ℕ → Mpmc → Mpmc
unfolding proceed
step (call_push item value) t s =
    if is_idle (s.locals t) && (not (item == 0) && not (s.allocated item))
    then goes t (push_start item) (record s {
      next = put s.next item 0;
      data_of = put s.data_of item value;
      allocated = put s.allocated item true;
      given = put s.given item true;
    })
    else s
step call_pop t s = if is_idle (s.locals t) then goes t pop_start s else s
step (access ok) t s = proceed (s.locals t) ok t s

abbrev pub run : List (ℕ × Action) → Mpmc → Mpmc
run [] s = s
run ((t, a) ∷ more) s = run more (step a t s)

-- The address that calloc gives was not given before.
abbrev pub is_new : Action → Mpmc → Bool
is_new (call_push item value) s = not (s.given item)
is_new _ s = true

abbrev pub gives_once : List (ℕ × Action) → Mpmc → Bool
gives_once [] s = true
gives_once ((t, a) ∷ more) s = is_new a s && gives_once more (step a t s)

-- `mpmc_atom_queue_init`, with the node that calloc gives.
abbrev pub mpmc_init : (dummy : ℕ) → Mpmc
mpmc_init dummy = record {
  next = λ x. 0;
  data_of = λ x. 0;
  head = record { ptr = dummy; version = 0 };
  tail = record { ptr = dummy; version = 0 };
  allocated = λ x. x == dummy;
  given = λ x. x == dummy;
  locals = λ t. idle;
  pushed = [];
  popped = [];
}
