-- ===== src/Timer.antt =====
-- lib/event/ev_timer.c: the timers of low resolution, which stand in a heap by the time at which they
-- expire. A timer is its address; the fields of all timers are functions of it. The pool of threads
-- that runs the callbacks is given the addresses that come out here.
pub mod Clock
pub mod Start
pub mod Run
mod Tests
use Prim.Native.Nat.{Ordering, lt, eq, gt}
use misc_c.Base.{
  ℕ, zero, suc, ◌+◌, ◌%◌, ◌^◌, ◌-◌, ◌&&◌, ◌||◌, not, Bool, true, false, Option, none, some, List,
  [], ◌∷◌, ltb, ◌==◌, if◌then◌else◌,
}
use misc_c.Heap.{Heap, heap_top, heap_pop, heap_del, heap_add}

abbrev pub timer_batch : ℕ
timer_batch = 32

-- The heap, the fields of the timers and `g_curr_ms`.
pub record Timers : Type 0 where
  pub heap : Heap
  pub expired_time : ℕ → ℕ
  pub timeout : ℕ → ℕ
  pub actived : ℕ → Bool
  pub deleted : ℕ → Bool
  pub curr_ms : ℕ

-- `_ev_timer_cmp`
abbrev pub ev_timer_cmp : (ℕ → ℕ) → (t1 t2 : ℕ) → Ordering
ev_timer_cmp expired_time t1 t2 =
    if ltb (expired_time t1) (expired_time t2)
    then lt
    else if ltb (expired_time t2) (expired_time t1)
    then gt
    else eq

-- `ATOM_STORE` of 0 into a flag of one timer.
abbrev pub cleared : (ℕ → Bool) → ℕ → ℕ → Bool
cleared flags timer = λ x. if x == timer then false else flags x

-- What the loop of `_low_res_clock_work` meets: it ends, or the top was stopped or has expired.
pub data Met : Type 0 where
  at_end : Met
  stopped expired : ℕ → Met

unfoldable pub meet : (ms batch_count : ℕ) → Timers → Met
meet ms batch_count t =
    if ltb batch_count timer_batch
    then elim (heap_top (ev_timer_cmp t.expired_time) t.heap) [
      | none ↦ at_end
      | some timer ↦
          if t.deleted timer
          then stopped timer
          else if ltb ms (t.expired_time timer)
          then at_end
          else expired timer
    ]
    else at_end

abbrev pub pop_top : Timers → Timers
pop_top t = record t { heap = (heap_pop (ev_timer_cmp t.expired_time) t.heap).1 }

-- The loop, on fuel: the timers that have expired, and what is left.
unfoldable pub drain : ℕ → (ms batch_count : ℕ) → Timers → List ℕ × Timers
unfolding meet
drain zero ms batch_count t = ([], t)
drain (suc fuel) ms batch_count t = elim (meet ms batch_count t) [
  | at_end ↦ ([], t)
  | stopped timer ↦
      drain fuel ms batch_count (record (pop_top t) {
        actived = cleared t.actived timer;
        deleted = cleared t.deleted timer;
      })
  | expired timer ↦
      let (batch, t') =
        drain fuel ms (batch_count + 1)
          (record (pop_top t) { actived = cleared t.actived timer }) in
      (timer ∷ batch, t')
]

-- A round of `_low_res_clock_work` at the time `ms`: each timer leaves the heap once, so that its
-- count, and one round that finds nothing, are enough.
unfoldable pub low_res_clock_work : ℕ → Timers → List ℕ × Timers
unfolding drain
low_res_clock_work ms t = drain (suc t.heap.count) ms 0 (record t { curr_ms = ms })

-- The first step of `ev_timer_start` takes a timer that runs out of the heap.
unfoldable pub out_of_heap : ℕ → Timers → Timers
out_of_heap timer t =
    if t.actived timer
    then record t {
      heap = heap_del (ev_timer_cmp t.expired_time) t.heap timer;
      actived = cleared t.actived timer;
    }
    else t

-- `timer->expired_time = g_curr_ms + timer->timeout`
abbrev pub expire_later : Timers → ℕ → ℕ → ℕ
expire_later t timer =
    λ x. if x == timer then (t.curr_ms + t.timeout timer) % 2 ^ 64 else t.expired_time x

-- The second step, where the exchange has taken place; what heap_add answers is not read.
unfoldable pub into_heap : ℕ → Timers → Timers
into_heap timer t =
    let expired_time = expire_later t timer in
    record t {
      actived = λ x. if x == timer then true else t.actived x;
      deleted = cleared t.deleted timer;
      expired_time = expired_time;
      heap = (heap_add (ev_timer_cmp expired_time) t.heap timer).1;
    }

-- From the exchange on; a weak one may fail where `exchanged` is false.
unfoldable pub from_exchange : (exchanged : Bool) → ℕ → Timers → Timers
unfolding into_heap
from_exchange exchanged timer t =
    if exchanged && not (t.actived timer) then into_heap timer t else t

-- `ev_timer_start`
unfoldable pub ev_timer_start : (exchanged : Bool) → ℕ → Timers → Timers
unfolding out_of_heap from_exchange
ev_timer_start exchanged timer t = from_exchange exchanged timer (out_of_heap timer t)

-- `ev_timer_stop`: the clock takes a timer with this mark out of the heap.
unfoldable pub ev_timer_stop : ℕ → Timers → Timers
ev_timer_stop timer t = record t { deleted = λ x. if x == timer then true else t.deleted x }

-- `ev_timer_remain`
unfoldable pub ev_timer_remain : Timers → ℕ → ℕ
ev_timer_remain t timer =
    if not (t.actived timer) || t.deleted timer
    then 0
    else (t.expired_time timer + 2 ^ 64 - t.curr_ms) % 2 ^ 64
