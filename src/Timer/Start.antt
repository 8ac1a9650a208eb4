-- ===== src/Timer/Start.antt =====
-- `ev_timer_start` of lib/event/ev_timer.c, and the heap when a time changes.
use misc_c.Base.{
  ℕ, ◌+◌, ◌%◌, ◌^◌, ◌<◌, ◌≡◌, ◌≢◌, refl, ◌∙◌, sym, ap, inl, inr, Bool-cases, true, false, ◌==◌,
  arith,
}
use misc_c.Heap.{Heap, at}
use misc_c.Heap.Array.{occurs}
use misc_c.Heap.Order.{parent}
use misc_c.Heap.Add.{IsValid, heap_add_lem}
use misc_c.Heap.Pop.{heap_del_lem}
use misc_c.Timer.{
  Timers, ev_timer_cmp, out_of_heap, expire_later, into_heap, from_exchange, ev_timer_start,
  ev_timer_remain,
}
use misc_c.Timer.Clock.{IsTimed, ev_timer_cmp-compare, occurs-place, occurs-at}

-- The key of an item that is not in the heap may change.
IsValid-other_key :
    (key key' : ℕ → ℕ) (h : Heap) (x : ℕ)
    → IsValid key h
    → occurs x h.array h.count ≡ 0
    → ((y : ℕ) → y ≢ x → key' y ≡ key y)
    → IsValid key' h
IsValid-other_key key key' h x v out same =
    let other : (i : ℕ) → i < h.count → key' (at h.array i) ≡ key (at h.array i) = λ i l.
      same (at h.array i) (λ e. absurd (
        ground
          (arith, out, ap (λ y. occurs y h.array h.count) e, occurs-at h.array h.count i l))) in
    record {
      sized = v.sized;
      order = λ c p l. ground (arith, v.order c p l, other c l, other (parent c) (omega arith));
      indexed = v.indexed;
      present = v.present;
    }

pub out_of_heap-IsTimed :
    (timer : ℕ) (t : Timers)
    → IsTimed t
    → IsTimed (out_of_heap timer t) × ((out_of_heap timer t).actived timer ≡ false)
unfolding out_of_heap
out_of_heap-IsTimed timer t v = elim (Bool-cases (t.actived timer)) [
  | inr e ↦ rw (out_of_heap, e) (v, e)
  | inl e ↦
      let key = t.expired_time in
      let (i, l, p) =
        occurs-place timer t.heap.array t.heap.count (ground (arith, v.held timer, e)) in
      let r =
        heap_del_lem (ev_timer_cmp key) key (ev_timer_cmp-compare key) t.heap i v.valid l v.small in
      rw (out_of_heap, e, sym p)
        (
          record {
            valid = r.valid;
            small = omega (arith, r.count, v.small);
            held = λ x. ground (arith, r.items x, v.held x);
          },
          ground arith,
        )
]

-- What the first step leaves as it is.
out_of_heap-others :
    (timer : ℕ) (t : Timers)
    → ((out_of_heap timer t).deleted ≡ t.deleted)
      × ((out_of_heap timer t).expired_time ≡ t.expired_time)
      × ((out_of_heap timer t).curr_ms ≡ t.curr_ms)
      × ((out_of_heap timer t).timeout ≡ t.timeout)
      × ((x : ℕ) → x ≢ timer → (out_of_heap timer t).actived x ≡ t.actived x)
unfolding out_of_heap
out_of_heap-others timer t = elim (Bool-cases (t.actived timer)) [
  | inl e ↦ rw (out_of_heap, e) (refl, refl, refl, refl, λ x ne. ground (arith, ne))
  | inr e ↦ rw (out_of_heap, e) (refl, refl, refl, refl, λ x ne. refl)
]

pub into_heap-IsTimed :
    (timer : ℕ) (t : Timers)
    → IsTimed t
    → t.actived timer ≡ false
    → timer ≢ 0
    → t.heap.count ≢ t.heap.size
    → t.heap.count + 1 < 2 ^ 31
    → IsTimed (into_heap timer t)
unfolding into_heap
into_heap-IsTimed timer t v idle real room small =
    let key = expire_later t timer in
    let out : occurs timer t.heap.array t.heap.count ≡ 0 = ground (arith, v.held timer, idle) in
    let valid =
      IsValid-other_key t.expired_time key t.heap timer v.valid out (λ y ne. ground (arith, ne)) in
    let (_, a) =
      (heap_add_lem (ev_timer_cmp key) key (ev_timer_cmp-compare key) t.heap timer valid real out).1
        room in
    record {
      valid = a.valid;
      small = omega (arith, a.count, small);
      held = λ x. ground (arith, a.items x, v.held x, out, idle_at x);
    }
  where
    idle_at : (x : ℕ) → (x == timer) ≡ true → t.actived x ≡ false
    idle_at x e = let same : x ≡ timer = ground (arith, e) in ap t.actived same ∙ idle

-- ev_timer_start of a timer, running or not, in a heap that holds each timer that runs once: where
-- the exchange takes place and the heap, without the timer, has room, the heap holds each timer that
-- runs once again, the timer runs, is not stopped and expires after its timeout, which is what
-- ev_timer_remain gives, and no other timer is changed.
pub ev_timer_start_lem :
    (timer : ℕ) (t : Timers)
    → IsTimed t
    → timer ≢ 0
    → (out_of_heap timer t).heap.count ≢ (out_of_heap timer t).heap.size
    → (out_of_heap timer t).heap.count + 1 < 2 ^ 31
    → t.curr_ms < 2 ^ 64
    → t.timeout timer < 2 ^ 32
    → let u : Timers = ev_timer_start true timer t in
      IsTimed u
      × (u.actived timer ≡ true)
      × (u.deleted timer ≡ false)
      × (u.expired_time timer ≡ (t.curr_ms + t.timeout timer) % 2 ^ 64)
      × (ev_timer_remain u timer ≡ t.timeout timer)
      × ((x : ℕ)
          → x ≢ timer
          → (u.actived x ≡ t.actived x)
            × (u.deleted x ≡ t.deleted x)
            × (u.expired_time x ≡ t.expired_time x))
unfolding ev_timer_start from_exchange into_heap ev_timer_remain
ev_timer_start_lem timer t v real room small clock wait =
    let (v', idle) = out_of_heap-IsTimed timer t v in
    let (deleted, times, now, timeout, actived) = out_of_heap-others timer t in
    rw (ev_timer_start, from_exchange, idle)
      (
        into_heap-IsTimed timer (out_of_heap timer t) v' idle real room small,
        ground arith,
        ground arith,
        ground (arith, now, ap (λ f. f timer) timeout),
        ground (arith, now, ap (λ f. f timer) timeout, clock, wait),
        λ x ne. (
          ground (arith, ne, actived x ne),
          ground (arith, ne, ap (λ f. f x) deleted),
          ground (arith, ne, ap (λ f. f x) times),
        ),
      )
