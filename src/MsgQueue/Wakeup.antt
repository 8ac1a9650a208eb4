-- ===== src/MsgQueue/Wakeup.antt =====
-- Producers and the consumer of lib/msg_q as interleaved steps. A producer that has found the queue
-- empty posts the semaphore after it has left the lock, so that other steps fall in between.
use misc_c.Base.{
  ℕ, ◌+◌, ◌-◌, ◌≤◌, ◌<◌, ◌≡◌, ◌≢◌, refl, List, arith, ◌==◌, if◌then◌else◌, Bool-cases, inl, inr,
}
use misc_c.MsgQueue.{
  WaitType, no_wait, wait_timeout, MsgQueue, msg_q_create, enqueue, post, take_message,
}
use misc_c.MsgQueue.Slots.{IsValid}
use misc_c.MsgQueue.Refine.{enqueue-IsValid, take_message-Taken}
use misc_c.MsgQueue.Runs.{msg_q_create-IsValid}

-- Before its look at `size`, or inside ev_sem_wait.
pub data Consumer : Type 0 where
  looking sleeping : Consumer

-- `posts` counts the producers behind the lock that still have to post.
pub record State : Type 0 where
  pub q : MsgQueue
  pub posts : ℕ
  pub consumer : Consumer

abbrev pub start : (capacity elem_size : ℕ) → State
start capacity elem_size = record {
  q = msg_q_create capacity elem_size;
  posts = 0;
  consumer = looking;
}

infix 20 ◌⊢◌⟶◌
-- The steps with a consumer whose pops wait in the way `wait` says.
pub data ◌⊢◌⟶◌ (wait : WaitType) : State → State → Type 0 where
  -- A producer inside the lock of _msg_q_push.
  put :
      {s : State} (src : List ℕ)
      → s.q.size < s.q.capacity
      → wait ⊢ s ⟶ record s {
        q = enqueue s.q src;
        posts = if s.q.size == 0 then s.posts + 1 else s.posts;
      }
  -- `if(!size) ev_sem_post(&msg_q->sem_out);`
  send : {s : State} → 0 < s.posts → wait ⊢ s ⟶ record s { q = post s.q; posts = s.posts - 1 }
  -- The consumer finds the queue empty and waits.
  sleep :
      {s : State}
      → wait ≢ no_wait
      → s.consumer ≡ looking
      → s.q.size ≡ 0
      → wait ⊢ s ⟶ record s { consumer = sleeping }
  -- ev_sem_wait returns: it has taken one post.
  wake :
      {s : State}
      → s.consumer ≡ sleeping
      → 0 < s.q.sem_out
      → wait ⊢ s ⟶ record s { q = record s.q { sem_out = s.q.sem_out - 1 }; consumer = looking }
  -- ev_sem_wait_ms returns: its time is over.
  time_out :
      {s : State}
      → wait ≡ wait_timeout
      → s.consumer ≡ sleeping
      → wait ⊢ s ⟶ record s { consumer = looking }
  -- The consumer finds a message and takes it.
  fetch :
      {s : State} (len : ℕ)
      → s.consumer ≡ looking
      → s.q.size ≢ 0
      → len ≤ s.q.elem_size
      → wait ⊢ s ⟶ record s { q = (take_message s.q len).1 }

infix 20 ◌⊢◌⟶*◌
pub data ◌⊢◌⟶*◌ (wait : WaitType) : State → State → Type 0 where
  stay : {s : State} → wait ⊢ s ⟶* s
  next : {s t u : State} → wait ⊢ s ⟶* t → wait ⊢ t ⟶ u → wait ⊢ s ⟶* u

-- A consumer asleep beside a message has a post to come.
record Awake (s : State) : Type 0 where
  valid : IsValid s.q
  signalled : s.consumer ≡ sleeping → s.q.size ≢ 0 → 0 < s.q.sem_out + s.posts

awake : {s : Consumer} → s ≡ looking → s ≢ sleeping
awake e e' = absurd (cc)

sem-IsValid : (q : MsgQueue) (s : ℕ) → IsValid q → IsValid (record q { sem_out = s })
sem-IsValid q s v = record {
  storage = v.storage;
  head_in = v.head_in;
  tail_in = v.tail_in;
  fits = v.fits;
  apart = v.apart;
}

step-Awake : (wait : WaitType) (s t : State) → wait ⊢ s ⟶ t → Awake s → Awake t
unfolding take_message
step-Awake wait s _ (put src room) a = record {
  valid = enqueue-IsValid s.q src s.q.sem_out a.valid room;
  signalled = λ e _. let old = a.signalled e in ground arith;
}
step-Awake wait s _ (send h) a = record {
  valid = sem-IsValid s.q (s.q.sem_out + 1) a.valid;
  signalled = λ e ne. omega arith;
}
step-Awake wait s _ (sleep w e z) a = record { valid = a.valid; signalled = λ _ ne. absurd (ne z) }
step-Awake wait s _ (wake e h) a = record {
  valid = sem-IsValid s.q (s.q.sem_out - 1) a.valid;
  signalled = λ e' _. absurd (awake refl e');
}
step-Awake wait s _ (time_out w e) a = record {
  valid = a.valid;
  signalled = λ e' _. absurd (awake refl e');
}
step-Awake wait s _ (fetch len e ne h) a = record {
  valid = (take_message-Taken s.q len a.valid h ne).valid;
  signalled = λ e' _. absurd (awake e e');
}

reached-Awake : (wait : WaitType) (s t : State) → Awake s → wait ⊢ s ⟶* t → Awake t
reached-Awake wait s _ a stay = a
reached-Awake wait s u a (next {t = t} r step) =
    step-Awake wait t u step (reached-Awake wait s t a r)

start-Awake : (capacity elem_size : ℕ) → 0 < capacity → Awake (start capacity elem_size)
start-Awake capacity elem_size pos = record {
  valid = msg_q_create-IsValid capacity elem_size pos;
  signalled = λ e _. absurd (awake refl e);
}

-- In every interleaving of the producers' and the consumer's steps from a new queue the ring stays
-- valid, and no wake-up is lost: when the consumer waits for the semaphore and messages are held,
-- steps lead to a state where it looks at the queue again and as many are held. This holds of every
-- kind of wait, also of the one that has no time-out.
pub message-wakes :
    (wait : WaitType) (capacity elem_size : ℕ) (s : State)
    → 0 < capacity
    → wait ⊢ start capacity elem_size ⟶* s
    → IsValid s.q
      × (s.consumer ≡ sleeping
          → s.q.size ≢ 0
          → (t : State) × (wait ⊢ s ⟶* t) × (t.consumer ≡ looking) × (t.q.size ≡ s.q.size))
message-wakes wait capacity elem_size s pos r =
    let a = reached-Awake wait _ s (start-Awake capacity elem_size pos) r in
    (
      a.valid,
      λ e ne. elim (Bool-cases (s.q.sem_out == 0)) [
        | inr z ↦ (_, next stay (wake e (ground arith)), refl, refl)
        | inl z ↦
            let due = a.signalled e ne in
            (_, next (next stay (send (ground arith))) (wake e (omega arith)), refl, refl)
      ],
    )
