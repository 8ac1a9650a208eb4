-- ===== src/MsgQueue/Tests.antt =====
-- Tests of the message queue, and its theorems at a queue of two places for two bytes each.
use misc_c.Base.{ℕ, ◌≡◌, ◌≢◌, refl, List, [], ◌∷◌, none, some, arith}
use misc_c.MsgQueue.{MsgQueue, msg_q_create, ok, full, wait_forever, enqueue}
use misc_c.MsgQueue.Slots.{IsValid, messages}
use misc_c.MsgQueue.Runs.{
  Op, push, pop, pushed, popped, run, queue_run, IsSized, run_lem, msg_q_create-IsValid,
}
use misc_c.MsgQueue.Wakeup.{
  looking, sleeping, State, start, ◌⊢◌⟶◌, put, sleep, ◌⊢◌⟶*◌, stay, next, message-wakes,
}

abbrev two_places : MsgQueue
two_places = msg_q_create 2 2

two_places-IsValid : IsValid two_places
two_places-IsValid = msg_q_create-IsValid 2 2 (omega arith)

abbrev calls : List Op
calls =
    pop
    ∷ push (1 ∷ 2 ∷ [])
    ∷ push (3 ∷ 4 ∷ [])
    ∷ push (5 ∷ 6 ∷ [])
    ∷ pop
    ∷ push (7 ∷ 8 ∷ [])
    ∷ pop
    ∷ pop
    ∷ []

calls-IsSized : IsSized two_places.elem_size calls
unfolding IsSized msg_q_create
calls-IsSized = (refl, (refl, (refl, (refl, refl))))

run_lem_example : run two_places calls ≡ queue_run two_places.capacity (messages two_places) calls
run_lem_example = run_lem two_places calls two_places-IsValid calls-IsSized

-- The third push is refused; the fourth wraps round.
calls_answers :
    run two_places calls
    ≡ popped none
      ∷ pushed ok
      ∷ pushed ok
      ∷ pushed full
      ∷ popped (some (1 ∷ 2 ∷ []))
      ∷ pushed ok
      ∷ popped (some (3 ∷ 4 ∷ []))
      ∷ popped (some (7 ∷ 8 ∷ []))
      ∷ []
unfolding queue_run msg_q_create
calls_answers = run_lem_example

abbrev one_byte : List ℕ
one_byte = 9 ∷ []

-- The consumer sleeps, then a message is put and its post is still to come.
abbrev asleep : State
asleep = record { q = enqueue two_places (1 ∷ 2 ∷ []); posts = 1; consumer = sleeping }

asleep_reached : wait_forever ⊢ start 2 2 ⟶* asleep
unfolding msg_q_create
asleep_reached =
    next (next stay (sleep (λ e. absurd cc) refl refl)) (put (1 ∷ 2 ∷ []) (omega arith))

message-wakes_example :
    IsValid asleep.q
    × (asleep.consumer ≡ sleeping
        → asleep.q.size ≢ 0
        → (t : State) × (wait_forever ⊢ asleep ⟶* t)
          × (t.consumer ≡ looking)
          × (t.q.size ≡ asleep.q.size))
message-wakes_example = message-wakes wait_forever 2 2 asleep (omega arith) asleep_reached
