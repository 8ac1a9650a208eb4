-- ===== src/Timer/Clock.antt =====
-- What a round of `_low_res_clock_work` in lib/event/ev_timer.c hands out and leaves.
use Prim.Native.Nat.{compare}
use misc_c.Base.{
  ℕ, zero, suc, ◌+◌, ◌^◌, ◌≤◌, ◌<◌, ◌≡◌, refl, ◌∙◌, ap, ◌⊎◌, inl, inr, Bool, Bool-cases, true,
  false, not, ◌&&◌, List, [], ◌∷◌, length, ltb, ◌==◌, if◌then◌else◌, arith,
}
use misc_c.Heap.{at, heap_top}
use misc_c.Heap.Array.{occurs}
use misc_c.Heap.Add.{IsValid}
use misc_c.Heap.Pop.{heap_pop_lem}
use misc_c.Timer.{
  Timers, timer_batch, ev_timer_cmp, cleared, at_end, stopped, expired, meet, pop_top, drain,
  low_res_clock_work,
}

abbrev pub times : ℕ → List ℕ → ℕ
times x [] = 0
times x (y ∷ ys) = (if y == x then 1 else 0) + times x ys

-- The heap is valid and holds each timer that runs once, and no other.
pub record IsTimed (t : Timers) : Type 0 where
  pub valid : IsValid t.expired_time t.heap
  pub small : t.heap.count < 2 ^ 31
  pub held : (x : ℕ) → occurs x t.heap.array t.heap.count ≡ (if t.actived x then 1 else 0)

-- The loop from `t` to `u`, which hands out `batch` after `n` others.
pub record Drained (ms n : ℕ) (t : Timers) (batch : List ℕ) (u : Timers) : Type 0 where
  pub timed : IsTimed u
  pub same_time : u.expired_time ≡ t.expired_time
  pub kept : (x : ℕ) → u.actived x ≡ true → (t.actived x ≡ true) × (u.deleted x ≡ t.deleted x)
  pub handed :
      (x : ℕ)
      → times x batch ≡ (if t.actived x && (not (t.deleted x) && not (u.actived x)) then 1 else 0)
  pub due : (x : ℕ) → 0 < times x batch → t.expired_time x ≤ ms
  pub fits : n + length batch ≤ timer_batch
  pub rest :
      (n + length batch ≡ timer_batch) ⊎ ((x : ℕ) → u.actived x ≡ true → ms < t.expired_time x)

pub ev_timer_cmp-compare : (key : ℕ → ℕ) (a b : ℕ) → ev_timer_cmp key a b ≡ compare (key a) (key b)
ev_timer_cmp-compare key a b = ground arith

pub occurs-place :
    (x : ℕ) (a : List ℕ) (n : ℕ) → 0 < occurs x a n → (i : ℕ) × (i < n) × (at a i ≡ x)
unfolding occurs
occurs-place x a zero h = absurd (omega arith)
occurs-place x a (suc n) h = elim (Bool-cases (at a n == x)) [
  | inl e ↦ (n, omega arith, ground (arith, e))
  | inr e ↦ let (i, l, p) = occurs-place x a n (ground (arith, h, e)) in (i, omega (arith, l), p)
]

pub occurs-at : (a : List ℕ) (n i : ℕ) → i < n → 0 < occurs (at a i) a n
unfolding occurs
occurs-at a zero i l = absurd (omega arith)
occurs-at a (suc n) i l = elim (Bool-cases (i == n)) [
  | inl e ↦ let same : i ≡ n = ground (arith, e) in ground (arith, ap (at a) same)
  | inr e ↦ omega (arith, occurs-at a n i (ground (arith, e)))
]

pop_top-IsTimed :
    (t : Timers) (flags : ℕ → Bool)
    → IsTimed t
    → 0 < t.heap.count
    → IsTimed
        (record (pop_top t) { actived = cleared t.actived (at t.heap.array 0); deleted = flags })
      × ((pop_top t).heap.count + 1 ≡ t.heap.count)
pop_top-IsTimed t flags v some_left =
    let key = t.expired_time in
    let (_, _, r) =
      (heap_pop_lem (ev_timer_cmp key) key (ev_timer_cmp-compare key) t.heap v.valid v.small).1
        some_left in
    (
      record {
        valid = r.valid;
        small = omega (arith, r.count, v.small);
        held = λ x. ground (arith, r.items x, v.held x);
      },
      r.count,
    )

-- Each timer that runs comes no earlier than the top.
top_least :
    (t : Timers) (x : ℕ)
    → IsTimed t
    → t.actived x ≡ true
    → (0 < t.heap.count) × (t.expired_time (at t.heap.array 0) ≤ t.expired_time x)
top_least t x v e =
    let key = t.expired_time in
    let (i, l, p) = occurs-place x t.heap.array t.heap.count (ground (arith, v.held x, e)) in
    let some_left : 0 < t.heap.count = omega (arith, l) in
    let (_, least, _) =
      (heap_pop_lem (ev_timer_cmp key) key (ev_timer_cmp-compare key) t.heap v.valid v.small).1
        some_left in
    (some_left, ground (arith, least i l, ap key p))

abbrev top : Timers → ℕ
top t = at t.heap.array 0

meet_lem :
    (ms n : ℕ) (t : Timers)
    → IsTimed t
    → n ≤ timer_batch
    → ((meet ms n t ≡ at_end)
        × ((n ≡ timer_batch) ⊎ ((x : ℕ) → t.actived x ≡ true → ms < t.expired_time x)))
      ⊎ (((meet ms n t ≡ stopped (top t)) × (t.deleted (top t) ≡ true) × (0 < t.heap.count))
          ⊎ ((meet ms n t ≡ expired (top t))
              × (t.deleted (top t) ≡ false)
              × (0 < t.heap.count)
              × (t.expired_time (top t) ≤ ms)
              × (n < timer_batch)))
unfolding meet heap_top
meet_lem ms n t v b = elim (Bool-cases (ltb n timer_batch)) [
  | inr full ↦ inl (ground (arith, full), inl (ground (arith, full)))
  | inl room ↦ elim (Bool-cases (t.heap.count == 0)) [
    | inl none_left ↦ inl (
      rw (meet, room, heap_top, none_left) refl,
      inr (λ x e. absurd (ground (arith, none_left, (top_least t x v e).0))),
    )
    | inr some_left ↦ elim (Bool-cases (t.deleted (top t))) [
      | inl gone ↦
          inr
            (inl (rw (meet, room, heap_top, some_left, gone) refl, gone, ground (arith, some_left)))
      | inr runs ↦ elim (Bool-cases (ltb ms (t.expired_time (top t)))) [
        | inl early ↦ inl (
          rw (meet, room, heap_top, some_left, runs, early) refl,
          inr (λ x e. ground (arith, early, (top_least t x v e).1)),
        )
        | inr late ↦ inr (
            inr (
              rw (meet, room, heap_top, some_left, runs, late) refl,
              runs,
              ground (arith, some_left),
              ground (arith, late),
              ground (arith, room),
            ))
      ]
    ]
  ]
]

top-actived : (t : Timers) → IsTimed t → 0 < t.heap.count → t.actived (top t) ≡ true
top-actived t v some_left =
    ground (arith, v.held (top t), occurs-at t.heap.array t.heap.count 0 some_left)

-- A flag of the timer that is at the top.
at_top :
    (t : Timers) (flags : ℕ → Bool) (b : Bool) (x : ℕ)
    → flags (top t) ≡ b
    → (x == top t) ≡ true
    → flags x ≡ b
at_top t flags b x e same = let here : x ≡ top t = ground (arith, same) in ap flags here ∙ e

module _ (ms n : ℕ) (t : Timers) (batch : List ℕ) (u : Timers) (some_left : 0 < t.heap.count)
    (v : IsTimed t) where
  Drained-stopped :
      t.deleted (top t) ≡ true
      → Drained ms n
          (record (pop_top t) {
            actived = cleared t.actived (top t);
            deleted = cleared t.deleted (top t);
          })
          batch
          u
      → Drained ms n t batch u
  Drained-stopped gone r = record {
    timed = r.timed;
    same_time = r.same_time;
    kept = λ x e. ground (arith, r.kept x e);
    handed = λ x. ground (arith, r.handed x, at_top t t.deleted true x gone);
    due = r.due;
    fits = r.fits;
    rest = r.rest;
  }

  Drained-expired :
      t.deleted (top t) ≡ false
      → t.expired_time (top t) ≤ ms
      → Drained ms (n + 1) (record (pop_top t) { actived = cleared t.actived (top t) }) batch u
      → Drained ms n t (top t ∷ batch) u
  Drained-expired runs late r = record {
    timed = r.timed;
    same_time = r.same_time;
    kept = λ x e. ground (arith, r.kept x e);
    handed = λ x. ground (
      arith,
      r.handed x,
      r.kept x,
      at_top t t.deleted false x runs,
      at_top t t.actived true x (top-actived t v some_left),
    );
    due = λ x p. elim (Bool-cases (top t == x)) [
      | inl e ↦
          let same : top t ≡ x = ground (arith, e) in ground (arith, late, ap t.expired_time same)
      | inr e ↦ r.due x (ground (arith, p, e))
    ];
    fits = omega (arith, r.fits);
    rest = elim r.rest [ inl full ↦ inl (omega (arith, full)) | inr later ↦ inr later ];
  }

drain_lem :
    (fuel ms n : ℕ) (t : Timers)
    → IsTimed t
    → n ≤ timer_batch
    → t.heap.count < fuel
    → Drained ms n t (drain fuel ms n t).0 (drain fuel ms n t).1
unfolding drain
drain_lem zero ms n t v b f = absurd (omega (arith, f))
drain_lem (suc fuel) ms n t v b f = elim (meet_lem ms n t v b) [
  | inl (e, later) ↦
      rw (drain, e)
        (record {
          timed = v;
          same_time = refl;
          kept = λ x a. (a, refl);
          handed = λ x. ground arith;
          due = λ x p. absurd (omega (arith, p));
          fits = omega arith;
          rest = elim later [ inl full ↦ inl (omega (arith, full)) | inr l ↦ inr l ];
        })
  | inr (inl (e, gone, some_left)) ↦
      let (v', fewer) = pop_top-IsTimed t (cleared t.deleted (top t)) v some_left in
      rw (drain, e)
        (Drained-stopped ms n t _ _ some_left v gone (
          drain_lem fuel ms n
            (record (pop_top t) {
              actived = cleared t.actived (top t);
              deleted = cleared t.deleted (top t);
            })
            v' b (omega (arith, fewer, f))))
  | inr (inr (e, runs, some_left, late, room)) ↦
      let (v', fewer) = pop_top-IsTimed t t.deleted v some_left in
      rw (drain, e)
        (Drained-expired ms n t _ _ some_left v runs late (
          drain_lem fuel ms (n + 1) (record (pop_top t) { actived = cleared t.actived (top t) }) v'
            (omega (arith, room)) (omega (arith, fewer, f))))
]

-- A round of the clock at `ms`, when the heap holds each timer that runs once: it comes to its end and
-- leaves the heap so. It hands out once each timer that ran, was not stopped and no longer runs, and
-- no other, each of them due by `ms` and 32 of them at most; and if they are fewer, no timer that is
-- still in the heap is due.
pub low_res_clock_work_lem :
    (ms : ℕ) (t : Timers)
    → IsTimed t
    → Drained ms 0 t (low_res_clock_work ms t).0 (low_res_clock_work ms t).1
unfolding low_res_clock_work
low_res_clock_work_lem ms t v =
    let set : Timers = record t { curr_ms = ms } in
    let v' : IsTimed set = record { valid = v.valid; small = v.small; held = v.held } in
    let r = drain_lem (suc t.heap.count) ms 0 set v' (omega arith) (omega arith) in
    record {
      timed = r.timed;
      same_time = r.same_time;
      kept = r.kept;
      handed = r.handed;
      due = r.due;
      fits = r.fits;
      rest = r.rest;
    }
