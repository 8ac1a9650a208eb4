-- ===== src/Timer/Tests.antt =====
-- Timers 2, 5 and 3, of which 5 was stopped: a round of the clock, and a start.
use misc_c.Base.{ℕ, zero, suc, refl, true, [], ◌∷◌, arith, ◌==◌, ◌||◌, if◌then◌else◌}
use misc_c.Heap.{Heap}
use misc_c.Heap.Array.{occurs}
use misc_c.Heap.Order.{IsIndexed, IsHeap}
use misc_c.Timer.{Timers, out_of_heap, from_exchange, ev_timer_stop, low_res_clock_work}
use misc_c.Timer.Clock.{IsTimed, Drained, low_res_clock_work_lem}
use misc_c.Timer.Run.{Steps, here, taken_out, put_in, stop, steps-IsTimed}

-- 2 expires at 10, 5 at 20 and 3 at 30.
abbrev by_time : ℕ → ℕ
by_time x = if x == 2 then 10 else if x == 5 then 20 else 30

abbrev places : ℕ → ℕ
places x = if x == 2 then 0 else if x == 5 then 1 else 2

abbrev three : Heap
three = record {
  array = 2 ∷ 5 ∷ 3 ∷ 0 ∷ [];
  count = 3;
  size = 4;
  min_size = 1;
  max_size = 1024;
  index = places;
}

abbrev timers : Timers
timers = record {
  heap = three;
  expired_time = by_time;
  timeout = λ x. 15;
  actived = λ x. (x == 2) || ((x == 5) || (x == 3));
  deleted = λ x. x == 5;
  curr_ms = 8;
}

three_order : IsHeap by_time three
three_order zero p q = absurd (omega arith)
three_order (suc zero) p q = omega arith
three_order (suc (suc zero)) p q = omega arith
three_order (suc (suc (suc c))) p q = absurd (omega arith)

three-IsIndexed : IsIndexed three
three-IsIndexed zero p = refl
three-IsIndexed (suc zero) p = refl
three-IsIndexed (suc (suc zero)) p = refl
three-IsIndexed (suc (suc (suc i))) p = absurd (omega arith)

timers-IsTimed : IsTimed timers
unfolding occurs
timers-IsTimed = record {
  valid = record {
    sized = omega arith;
    order = three_order;
    indexed = three-IsIndexed;
    present = refl;
  };
  small = omega arith;
  held = λ x. ground arith;
}

low_res_clock_work_lem_example :
    Drained 25 0 timers (low_res_clock_work 25 timers).0 (low_res_clock_work 25 timers).1
low_res_clock_work_lem_example = low_res_clock_work_lem 25 timers timers-IsTimed

-- 7 is started, and 2 is stopped between the two parts of the start.
abbrev between : Timers
between = ev_timer_stop 2 (out_of_heap 7 timers)

some_steps : Steps timers (from_exchange true 7 between)
unfolding out_of_heap ev_timer_stop
some_steps =
    put_in true 7 (omega arith) (record { free = omega arith; small = omega arith })
      (stop 2 (taken_out 7 here))

steps-IsTimed_example : IsTimed (from_exchange true 7 between)
steps-IsTimed_example = steps-IsTimed some_steps timers-IsTimed
