-- ===== src/MsgQueue.antt =====
-- lib/msg_q: a bounded queue of messages of one size in a ring of bytes. Each function is one step:
-- the producers exclude one another by a spinlock and there is one consumer.
pub mod Slots
pub mod Refine
pub mod Runs
pub mod Wakeup
mod Tests
use misc_c.Base.{
  Option, none, ℕ, ◌+◌, ◌-◌, ◌*◌, ◌^◌, Bool, true, false, List, [], ◌∷◌, ltb, leb, ◌==◌,
  if◌then◌else◌, take, drop, replicate,
}
use misc_c.Base.Memory.{copy_at}

-- `msg_q_t`; `sem_out` is the semaphore's count.
pub record MsgQueue : Type 0 where
  pub head : ℕ
  pub tail : ℕ
  pub capacity : ℕ
  pub elem_size : ℕ
  pub size : ℕ
  pub sem_out : ℕ
  pub ring_buffer : List ℕ

pub data WaitType : Type 0 where
  no_wait wait_forever wait_timeout : WaitType

pub data Ret : Type 0 where
  ok full non_msg : Ret

unfoldable pub msg_q_create : (capacity elem_size : ℕ) → MsgQueue
msg_q_create capacity elem_size = record {
  head = 0;
  tail = 0;
  capacity = capacity;
  elem_size = elem_size;
  size = 0;
  sem_out = 0;
  ring_buffer = replicate (capacity * elem_size) 0;
}

-- The pointer afterwards: the queue is freed.
pub msg_q_destroy : MsgQueue → Option MsgQueue
msg_q_destroy q = none

-- `++ i; if(i >= capacity) i = 0;`
abbrev pub advance : (capacity i : ℕ) → ℕ
advance capacity i = if leb capacity (i + 1) then 0 else i + 1

-- What _msg_q_push does under the lock when a place is free: `src` goes to the tail.
abbrev pub enqueue : MsgQueue → (src : List ℕ) → MsgQueue
enqueue q src = record q {
  tail = advance q.capacity q.tail;
  size = q.size + 1;
  ring_buffer = copy_at q.ring_buffer (q.tail * q.elem_size) src;
}

-- ev_sem_post(&msg_q->sem_out)
abbrev pub post : MsgQueue → MsgQueue
post q = record q { sem_out = q.sem_out + 1 }

-- `ctx` is what the caller's pointer leads to.
pub msg_q_push : MsgQueue → (ctx : List ℕ) → (len : ℕ) → Ret × MsgQueue
msg_q_push q ctx len =
    if ltb q.size q.capacity
    then (let r = enqueue q (take len ctx) in (ok, if q.size == 0 then post r else r))
    else (full, q)

-- The part of _msg_q_pop behind its waiting loop: what it copies out, and the queue.
pub take_message : MsgQueue → (len : ℕ) → List ℕ × MsgQueue
take_message q len = (
  take len (drop (q.head * q.elem_size) q.ring_buffer),
  record q { head = advance q.capacity q.head; size = q.size - 1 },
)

-- How one wait ends: by its time, or with the queue as the other threads have left it.
pub data Wait : Type 0 where
  timed_out : Wait
  woken : MsgQueue → Wait

pub data Popped : Type 0 where
  message : List ℕ → MsgQueue → Popped
  nothing : MsgQueue → Popped
  waiting : MsgQueue → Popped

-- The list says how the waits end; behind its end the call still waits.
pub msg_q_pop : MsgQueue → (len : ℕ) → WaitType → List Wait → Popped
unfolding take_message
msg_q_pop q len wait [] =
    if q.size == 0
    then elim wait [ no_wait ↦ nothing q | _ ↦ waiting q ]
    else (let (out, q') = take_message q len in message out q')
msg_q_pop q len wait (timed_out ∷ ws) =
    let again = msg_q_pop q len wait ws in
    if q.size == 0
    then elim wait [ no_wait ↦ nothing q | wait_timeout ↦ nothing q | wait_forever ↦ again ]
    else (let (out, q') = take_message q len in message out q')
msg_q_pop q len wait (woken r ∷ ws) =
    let again = msg_q_pop r len wait ws in
    if q.size == 0
    then elim wait [ no_wait ↦ nothing q | _ ↦ again ]
    else (let (out, q') = take_message q len in message out q')
