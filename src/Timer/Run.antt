-- ===== src/Timer/Run.antt =====
-- Runs of the timers of lib/event/ev_timer.c: the clock works while timers are started and stopped.
use misc_c.Base.{ℕ, ◌+◌, ◌^◌, ◌<◌, ◌≢◌, inl, inr, Bool, not, ◌&&◌, Bool-cases, arith}
use misc_c.Heap.{Heap}
use misc_c.Timer.{Timers, out_of_heap, from_exchange, ev_timer_stop, low_res_clock_work}
use misc_c.Timer.Clock.{IsTimed, low_res_clock_work_lem}
use misc_c.Timer.Start.{out_of_heap-IsTimed, into_heap-IsTimed}

-- The heap takes one more item.
pub record HasRoom (h : Heap) : Type 0 where
  pub free : h.count ≢ h.size
  pub small : h.count + 1 < 2 ^ 31

-- A start is two steps: what is done until `actived` is cleared, and what is done from the exchange on.
pub data Steps (t : Timers) : Timers → Type 0 where
  here : Steps t t
  taken_out : {u : Timers} (timer : ℕ) → Steps t u → Steps t (out_of_heap timer u)
  put_in :
      {u : Timers} (exchanged : Bool) (timer : ℕ)
      → timer ≢ 0
      → HasRoom u.heap
      → Steps t u
      → Steps t (from_exchange exchanged timer u)
  stop : {u : Timers} (timer : ℕ) → Steps t u → Steps t (ev_timer_stop timer u)
  tick : {u : Timers} (ms : ℕ) → Steps t u → Steps t (low_res_clock_work ms u).1

from_exchange-IsTimed :
    (exchanged : Bool) (timer : ℕ) (t : Timers)
    → timer ≢ 0
    → HasRoom t.heap
    → IsTimed t
    → IsTimed (from_exchange exchanged timer t)
unfolding from_exchange
from_exchange-IsTimed exchanged timer t real room v =
    elim (Bool-cases (exchanged && not (t.actived timer))) [
      | inl e ↦
          rw (from_exchange, e)
            (into_heap-IsTimed timer t v (ground (arith, e)) real room.free room.small)
      | inr e ↦ rw (from_exchange, e) v
    ]

ev_timer_stop-IsTimed : (timer : ℕ) (t : Timers) → IsTimed t → IsTimed (ev_timer_stop timer t)
unfolding ev_timer_stop
ev_timer_stop-IsTimed timer t v = record { valid = v.valid; small = v.small; held = v.held }

-- The two parts of starts, where the heap has room, stops, and rounds of the clock, in any order, also
-- between the parts of a start, but no one within a part, from a state where the heap holds each timer
-- that runs once: it holds each timer that runs once, and no other, after every step.
pub steps-IsTimed : {t u : Timers} → Steps t u → IsTimed t → IsTimed u
steps-IsTimed here v = v
steps-IsTimed (taken_out {u} timer s) v = (out_of_heap-IsTimed timer u (steps-IsTimed s v)).0
steps-IsTimed (put_in {u} exchanged timer real room s) v =
    from_exchange-IsTimed exchanged timer u real room (steps-IsTimed s v)
steps-IsTimed (stop {u} timer s) v = ev_timer_stop-IsTimed timer u (steps-IsTimed s v)
steps-IsTimed (tick {u} ms s) v = (low_res_clock_work_lem ms u (steps-IsTimed s v)).timed
