-- ===== src/MsgQueue/Refine.antt =====
-- _msg_q_push and _msg_q_pop against the queue of the messages held.
use misc_c.Base.{
  ℕ, zero, suc, ◌+◌, ◌-◌, ◌*◌, ◌≤◌, ◌<◌, ◌≡◌, ◌≢◌, refl, ap, ap₂, sym, ◌∙◌, ◌⊎◌, inl, inr, List, [],
  ◌∷◌, ◌++◌, arith, ltb, ◌==◌, if◌then◌else◌, true, false, length, take, drop, length-take,
  take-take, Bool-cases,
}
use misc_c.Base.Memory.{copy_at, length-copy_at}
use misc_c.MsgQueue.{
  enqueue, post, MsgQueue, advance, ok, full, msg_q_push, take_message, WaitType, no_wait,
  wait_forever, wait_timeout, Wait, timed_out, woken, message, nothing, msg_q_pop,
}
use misc_c.MsgQueue.Slots.{IsValid, slot, slots, messages, slot-copy_at_self, slot-copy_at_ne}

-- `t` is the place behind `n` slots from `h` on.
abbrev Behind : (capacity h n t : ℕ) → Type 0
Behind capacity h n t = (h + n ≡ t) ⊎ (h + n ≡ t + capacity)

Behind-advance :
    (capacity h n t : ℕ)
    → h < capacity
    → t < capacity
    → suc n ≤ capacity
    → Behind capacity h (suc n) t
    → Behind capacity (advance capacity h) n t
Behind-advance capacity h n t hh ht hn b = ground arith

module _ (buffer : List ℕ) (elem capacity t : ℕ) (src : List ℕ)
    (storage : length buffer ≡ capacity * elem) (ht : t < capacity)
    (small : length src ≤ elem) where
  -- A write at the free place `t` leaves the messages and adds one behind them.
  slots-copy_at :
      (h n : ℕ)
      → h < capacity
      → n < capacity
      → Behind capacity h n t
      → slots (copy_at buffer (t * elem) src) elem capacity h (suc n)
        ≡ slots buffer elem capacity h n ++ ((src ++ drop (length src) (slot buffer elem t)) ∷ [])
  slots-copy_at h zero hh hn b =
      let e : h ≡ t = ground arith in
      rw e (ap (λ x. x ∷ []) (slot-copy_at_self buffer elem capacity t src storage ht small))
  slots-copy_at h (suc n) hh hn b =
      let ne : h ≢ t = λ e. ground arith in
      ap₂ ◌∷◌ (slot-copy_at_ne buffer elem capacity t src storage ht small h hh ne) (
        slots-copy_at (advance capacity h) n (ground arith) (omega arith)
          (Behind-advance capacity h n t hh ht (omega arith) b))

-- The queue that a push with room for it leaves.
pub record Pushed (q : MsgQueue) (ctx : List ℕ) (len : ℕ) (r : MsgQueue) : Type 0 where
  pub valid : IsValid r
  pub appended :
      messages r
      ≡ messages q ++ ((take len ctx ++ drop len (slot q.ring_buffer q.elem_size q.tail)) ∷ [])
  pub same_capacity : r.capacity ≡ q.capacity
  pub same_elem_size : r.elem_size ≡ q.elem_size
  pub posted : r.sem_out ≡ (if q.size == 0 then q.sem_out + 1 else q.sem_out)

pub enqueue-IsValid :
    (q : MsgQueue) (src : List ℕ) (s : ℕ)
    → IsValid q
    → q.size < q.capacity
    → IsValid (record (enqueue q src) { sem_out = s })
enqueue-IsValid q src s v room = record {
  storage = length-copy_at q.ring_buffer (q.tail * q.elem_size) src ∙ v.storage;
  head_in = v.head_in;
  tail_in = let t = v.tail_in in ground arith;
  fits = omega arith;
  apart = let t = v.tail_in in let a = v.apart in let h = v.head_in in ground arith;
}

enqueue-Pushed :
    (q : MsgQueue) (ctx : List ℕ) (len s : ℕ)
    → IsValid q
    → len ≤ q.elem_size
    → len ≤ length ctx
    → q.size < q.capacity
    → s ≡ (if q.size == 0 then q.sem_out + 1 else q.sem_out)
    → Pushed q ctx len (record (enqueue q (take len ctx)) { sem_out = s })
enqueue-Pushed q ctx len s v he hc room e =
    let src = take len ctx in
    let n : length src ≡ len = omega (arith, length-take len ctx) in
    let old = slot q.ring_buffer q.elem_size q.tail in
    record {
      valid = enqueue-IsValid q src s v room;
      appended =
          let r = enqueue q src in
          let grown : q.size + 1 ≡ suc q.size = omega arith in
          ap (λ n. slots r.ring_buffer r.elem_size r.capacity q.head n) grown
          ∙ slots-copy_at q.ring_buffer q.elem_size q.capacity q.tail src v.storage v.tail_in
              (omega arith) q.head q.size v.head_in room v.apart
          ∙ ap (λ k. messages q ++ ((src ++ drop k old) ∷ [])) n;
      same_capacity = refl;
      same_elem_size = refl;
      posted = e;
    }

-- A push of `len` bytes into a valid queue that has a free place returns ok, keeps the queue valid,
-- adds one message behind those held, the `len` bytes before what its place held, and posts the
-- semaphore exactly if the queue was empty. A push into a queue of `capacity` messages returns
-- full and changes nothing.
pub msg_q_push_lem :
    (q : MsgQueue) (ctx : List ℕ) (len : ℕ)
    → IsValid q
    → len ≤ q.elem_size
    → len ≤ length ctx
    → ((q.size < q.capacity)
        × (r : MsgQueue) × (msg_q_push q ctx len ≡ (ok, r))
        × Pushed q ctx len r)
      ⊎ ((q.size ≡ q.capacity) × (msg_q_push q ctx len ≡ (full, q)))
unfolding msg_q_push
msg_q_push_lem q ctx len v he hc =
    let fits = v.fits in
    let r = enqueue q (take len ctx) in
    elim (Bool-cases (ltb q.size q.capacity)) [
      | inr e ↦ inr (ground arith, rw e refl)
      | inl e ↦
          let room : q.size < q.capacity = ground arith in
          inl (elim (Bool-cases (q.size == 0)) [
            | inl z ↦
                (room, post r, rw (e, z) refl, enqueue-Pushed q ctx len _ v he hc room (rw z refl))
            | inr z ↦ (room, r, rw (e, z) refl, enqueue-Pushed q ctx len _ v he hc room (rw z refl))
          ])
    ]

slots-pos :
    (buffer : List ℕ) (elem capacity h n : ℕ)
    → n ≢ 0
    → slots buffer elem capacity h n
      ≡ slot buffer elem h ∷ slots buffer elem capacity (advance capacity h) (n - 1)
slots-pos buffer elem capacity h zero ne = absurd (ne refl)
slots-pos buffer elem capacity h (suc n) ne =
    ap (λ k. slot buffer elem h ∷ slots buffer elem capacity (advance capacity h) k) (omega arith)

-- What a queue with a message gives: the front bytes of the oldest one; the others stay.
pub record Taken (q : MsgQueue) (len : ℕ) (out : List ℕ) (r : MsgQueue) : Type 0 where
  pub oldest : List ℕ
  pub held : messages q ≡ oldest ∷ messages r
  pub bounded : length oldest ≤ q.elem_size
  pub copied : out ≡ take len oldest
  pub valid : IsValid r
  pub same_capacity : r.capacity ≡ q.capacity
  pub same_elem_size : r.elem_size ≡ q.elem_size

pub take_message-Taken :
    (q : MsgQueue) (len : ℕ)
    → IsValid q
    → len ≤ q.elem_size
    → q.size ≢ 0
    → Taken q len (take_message q len).0 (take_message q len).1
unfolding take_message
take_message-Taken q len v he ne = record {
  oldest = slot q.ring_buffer q.elem_size q.head;
  held = slots-pos q.ring_buffer q.elem_size q.capacity q.head q.size ne;
  bounded = omega (arith, length-take q.elem_size (drop (q.head * q.elem_size) q.ring_buffer));
  copied = sym (take-take len q.elem_size (drop (q.head * q.elem_size) q.ring_buffer) he);
  valid = record {
    storage = v.storage;
    head_in = let h = v.head_in in ground arith;
    tail_in = v.tail_in;
    fits = let f = v.fits in omega arith;
    apart =
        let t = v.tail_in in let a = v.apart in let h = v.head_in in let f = v.fits in ground arith;
  };
  same_capacity = refl;
  same_elem_size = refl;
}

msg_q_pop-empty :
    (q : MsgQueue) (len : ℕ) (ws : List Wait)
    → (q.size == 0) ≡ true
    → msg_q_pop q len no_wait ws ≡ nothing q
unfolding msg_q_pop
msg_q_pop-empty q len [] e = rw e refl
msg_q_pop-empty q len (timed_out ∷ ws) e = rw e refl
msg_q_pop-empty q len (woken r ∷ ws) e = rw e refl

msg_q_pop-found :
    (q : MsgQueue) (len : ℕ) (wait : WaitType) (ws : List Wait)
    → (q.size == 0) ≡ false
    → msg_q_pop q len wait ws ≡ message (take_message q len).0 (take_message q len).1
unfolding msg_q_pop
msg_q_pop-found q len wait [] e = rw e refl
msg_q_pop-found q len wait (timed_out ∷ ws) e = rw e refl
msg_q_pop-found q len wait (woken r ∷ ws) e = rw e refl

-- A pop of `len` bytes from a valid queue. If the queue is empty, it returns nothing and
-- the queue as it was when it does not wait, or waits and its time runs out; a pop that waits for
-- ever and is woken looks at the queue again as the others have left it. If the queue is not empty,
-- the pop, of whatever kind, returns the first `len` bytes of the oldest message, leaves the others
-- in their order and the queue valid.
pub msg_q_pop_lem :
    (q : MsgQueue) (len : ℕ) (wait : WaitType) (ws : List Wait)
    → IsValid q
    → len ≤ q.elem_size
    → ((messages q ≡ [])
        × (msg_q_pop q len no_wait ws ≡ nothing q)
        × ((us : List Wait) → msg_q_pop q len wait_timeout (timed_out ∷ us) ≡ nothing q)
        × ((r : MsgQueue)
            → msg_q_pop q len wait_forever (woken r ∷ ws) ≡ msg_q_pop r len wait_forever ws))
      ⊎ ((out : List ℕ) × (r : MsgQueue) × (msg_q_pop q len wait ws ≡ message out r)
          × Taken q len out r)
unfolding msg_q_pop
msg_q_pop_lem q len wait ws v he = elim (Bool-cases (q.size == 0)) [
  | inl e ↦ inl (
    (let z : q.size ≡ 0 = ground arith in
        ap (λ n. slots q.ring_buffer q.elem_size q.capacity q.head n) z),
    msg_q_pop-empty q len ws e,
    λ us. rw e refl,
    λ r. rw e refl,
  )
  | inr e ↦
      inr (_, _, msg_q_pop-found q len wait ws e, take_message-Taken q len v he (λ z. ground arith))
]
