-- ===== src/MsgQueue/Runs.antt =====
-- Whole runs of pushes and of pops that do not wait, against a bounded queue of messages.
use misc_c.Base.{
  ℕ, ◌*◌, ◌<◌, ◌≡◌, refl, ap, ap₂, ◌∙◌, inl, inr, List, [], ◌∷◌, ◌++◌, Option, none, some, arith,
  ltb, true, false, if◌then◌else◌, length, take, drop, length-take, take-all, drop-all,
  length-replicate, append-nil,
}
use misc_c.MsgQueue.{
  MsgQueue, msg_q_create, Ret, ok, full, msg_q_push, no_wait, Popped, message, nothing, waiting,
  msg_q_pop,
}
use misc_c.MsgQueue.Slots.{IsValid, slot, messages, length-slots}
use misc_c.MsgQueue.Refine.{msg_q_push_lem, msg_q_pop_lem}

pub data Op : Type 0 where
  push : List ℕ → Op
  pop : Op

pub data Reply : Type 0 where
  pushed : Ret → Reply
  popped : Option (List ℕ) → Reply

-- What a pop has copied out, and the queue behind it.
received : Popped → Option (List ℕ)
received (message m r) = some m
received (nothing r) = none
received (waiting r) = none

left : Popped → MsgQueue
left (message m r) = r
left (nothing r) = r
left (waiting r) = r

-- A run of calls, each for a message of the queue's size.
pub run : MsgQueue → List Op → List Reply
run q [] = []
run q (push m ∷ ops) = let (ret, r) = msg_q_push q m q.elem_size in pushed ret ∷ run r ops
run q (pop ∷ ops) =
    let p = msg_q_pop q q.elem_size no_wait [] in popped (received p) ∷ run (left p) ops

-- The same calls on the list of the messages held.
unfoldable pub queue_run : (capacity : ℕ) → List (List ℕ) → List Op → List Reply
queue_run capacity ms [] = []
queue_run capacity ms (push m ∷ ops) =
    let stored = queue_run capacity (ms ++ (m ∷ [])) ops in
    let refused = queue_run capacity ms ops in
    if ltb (length ms) capacity then pushed ok ∷ stored else pushed full ∷ refused
queue_run capacity [] (pop ∷ ops) = popped none ∷ queue_run capacity [] ops
queue_run capacity (m ∷ ms) (pop ∷ ops) = popped (some m) ∷ queue_run capacity ms ops

-- Every message pushed has the queue's size.
unfoldable pub IsSized : (elem : ℕ) → List Op → Type 0
IsSized elem [] = elem ≡ elem
IsSized elem (push m ∷ ops) = (length m ≡ elem) × IsSized elem ops
IsSized elem (pop ∷ ops) = IsSized elem ops

module _ (q : MsgQueue) where
  pub length-messages : length (messages q) ≡ q.size
  length-messages = length-slots q.ring_buffer q.elem_size q.capacity q.head q.size

-- A message of the full size fills its place.
pub whole_message :
    (q : MsgQueue) (m : List ℕ)
    → length m ≡ q.elem_size
    → take q.elem_size m ++ drop q.elem_size (slot q.ring_buffer q.elem_size q.tail) ≡ m
whole_message q m e =
    let place = slot q.ring_buffer q.elem_size q.tail in
    let room = drop (q.tail * q.elem_size) q.ring_buffer in
    ap₂ ◌++◌ (take-all m q.elem_size (omega arith))
      (drop-all place q.elem_size (omega (arith, length-take q.elem_size room)))
    ∙ append-nil m

-- From a valid queue, a run of calls for messages of the queue's size answers as the bounded queue
-- of the messages held does: each push is stored in order or refused by a full queue, each pop gives
-- the oldest message, unchanged, or says that there is none.
pub run_lem :
    (q : MsgQueue) (ops : List Op)
    → IsValid q
    → IsSized q.elem_size ops
    → run q ops ≡ queue_run q.capacity (messages q) ops
unfolding run queue_run IsSized received left
run_lem q [] v sized = refl
run_lem q (push m ∷ ops) v (e, sized) =
    elim (msg_q_push_lem q m q.elem_size v (omega arith) (omega arith)) [
      | inl (room, r, step, p) ↦
          let more : IsSized r.elem_size ops = rw p.same_elem_size sized in
          let grown = p.appended ∙ ap (λ x. messages q ++ (x ∷ [])) (whole_message q m e) in
          let below : ltb (length (messages q)) q.capacity ≡ true =
            ground (arith, length-messages q) in
          rw (step, below)
            (ap (λ rest. pushed ok ∷ rest)
              (run_lem r ops p.valid more ∙ ap₂ (λ c ms. queue_run c ms ops) p.same_capacity grown))
      | inr (no_room, step) ↦
          let above : ltb (length (messages q)) q.capacity ≡ false =
            ground (arith, length-messages q) in
          rw (step, above) (ap (λ rest. pushed full ∷ rest) (run_lem q ops v sized))
    ]
run_lem q (pop ∷ ops) v sized = elim (msg_q_pop_lem q q.elem_size no_wait [] v (omega arith)) [
  | inl (empty, step, _, _) ↦
      rw (step, empty)
        (ap (λ rest. popped none ∷ rest)
          (run_lem q ops v sized ∙ ap (λ ms. queue_run q.capacity ms ops) empty))
  | inr (m, r, step, t) ↦
      let more : IsSized r.elem_size ops = rw t.same_elem_size sized in
      let same = t.copied ∙ take-all t.oldest q.elem_size t.bounded in
      rw (step, t.held)
        (ap₂ (λ x rest. popped (some x) ∷ rest) same
          (run_lem r ops t.valid more ∙ ap (λ c. queue_run c (messages r) ops) t.same_capacity))
]

-- A queue that msg_q_create gives is valid and holds no message.
pub msg_q_create-IsValid :
    (capacity elem_size : ℕ) → 0 < capacity → IsValid (msg_q_create capacity elem_size)
unfolding msg_q_create
msg_q_create-IsValid capacity elem_size pos = record {
  storage = length-replicate (capacity * elem_size) 0;
  head_in = pos;
  tail_in = pos;
  fits = omega arith;
  apart = inl refl;
}
