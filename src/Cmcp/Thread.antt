-- ===== src/Cmcp/Thread.antt =====
-- The hooks and the thread of the state machine, against the events pushed and the events handled.
use misc_c.Base.{
  ℕ, ◌+◌, ◌≡◌, refl, sym, ◌∙◌, ap, true, List, [], ◌∷◌, ◌++◌, map, arith, ltb, if◌then◌else◌,
  length,
}
use misc_c.MsgQueue.{MsgQueue, msg_q_push, timed_out}
use misc_c.MsgQueue.Slots.{messages}
use misc_c.Cmcp.{
  Event, Fsm, msg_size, msg_bytes, handle, cmcp_fsm_init, cmcp_fsm_msg_push, cmcp_fsm,
}
use misc_c.Cmcp.Events.{handle_all, outcome, hellos_for, handle_all_lem}
use misc_c.Cmcp.Queue.{Holds, push-Holds, pop-Holds, pop_none, start-Holds, msg_event-msg_bytes}

-- A hook's push, or a round of the thread whose wait, if it waits, runs out.
pub data Step : Type 0 where
  push : Event → Step
  round : Step

pub run : Fsm → List Step → Fsm
run f [] = f
run f (push e ∷ steps) = run (cmcp_fsm_msg_push f e) steps
run f (round ∷ steps) = run (cmcp_fsm f (timed_out ∷ [])) steps

-- The events that have been handled and those that wait; there is room for 32.
pub record Progress : Type 0 where
  pub handled : List Event
  pub pending : List Event

abbrev pub push_event : Progress → Event → Progress
push_event p e = record p {
  pending = if ltb (length p.pending) 32 then p.pending ++ (e ∷ []) else p.pending;
}

abbrev pub take_event : Progress → Progress
take_event p = elim p.pending [
  | [] ↦ p
  | e ∷ es ↦ record { handled = p.handled ++ (e ∷ []); pending = es }
]

abbrev pub progress : Progress → List Step → Progress
progress p [] = p
progress p (push e ∷ steps) = progress (push_event p e) steps
progress p (round ∷ steps) = progress (take_event p) steps

-- The machine behind the events `hs`, with the queue `q`.
abbrev pub settled : MsgQueue → List Event → Fsm
settled q hs = record { running = true; msg_q = q; state = outcome hs; hellos = 0 + hellos_for hs }

At : Fsm → Progress → Type 0
At f p = (f ≡ settled f.msg_q p.handled) × Holds f.msg_q p.pending

handle_all-append :
    (f : Fsm) (es : List Event) (e : Event)
    → handle_all f (es ++ (e ∷ [])) ≡ handle (handle_all f es) e
handle_all-append f [] e = refl
handle_all-append f (x ∷ es) e = handle_all-append (handle f x) es e

abbrev set_queue : MsgQueue → Fsm → Fsm
set_queue q f = record f { msg_q = q }

-- A round has tested the flag before.
abbrev set_running : MsgQueue → Fsm → Fsm
set_running q f = record f { running = true; msg_q = q }

push-At :
    (f : Fsm) (p : Progress) (e : Event) → At f p → At (cmcp_fsm_msg_push f e) (push_event p e)
unfolding cmcp_fsm_msg_push At
push-At f p e (done, h) = (
  ap (set_queue (msg_q_push f.msg_q (msg_bytes e) msg_size).1) done,
  push-Holds f.msg_q p.pending e h,
)

-- One more event behind those handled.
handle-settled :
    (q : MsgQueue) (hs : List Event) (e : Event)
    → handle (settled q hs) e ≡ settled q (hs ++ (e ∷ []))
unfolding cmcp_fsm_init
handle-settled q hs e =
    let start = record cmcp_fsm_init { msg_q = q } in
    ap (λ f. handle f e) (sym (handle_all_lem start hs refl))
    ∙ sym (handle_all-append start hs e)
    ∙ handle_all_lem start (hs ++ (e ∷ [])) refl

round-At :
    (f : Fsm) (hs es : List Event)
    → At f (record { handled = hs; pending = es })
    → At (cmcp_fsm f (timed_out ∷ [])) (take_event (record { handled = hs; pending = es }))
unfolding cmcp_fsm At
round-At f hs [] (done, h) =
    rw (cmcp_fsm, ap (λ g. g.running) done, pop_none f.msg_q h) (ap (set_running f.msg_q) done, h)
round-At f hs (e ∷ es) (done, h) =
    let (r, step, h') = pop-Holds f.msg_q e es h in
    let next : handle (set_running r f) e ≡ settled r (hs ++ (e ∷ [])) =
      ap (λ g. handle (set_running r g) e) done ∙ handle-settled r hs e in
    rw (cmcp_fsm, ap (λ g. g.running) done, step, msg_event-msg_bytes e, next) (refl, h')

zero_plus : (n : ℕ) → 0 + n ≡ n
zero_plus n = omega arith

run-At : (f : Fsm) (p : Progress) (steps : List Step) → At f p → At (run f steps) (progress p steps)
unfolding run
run-At f p [] a = a
run-At f p (push e ∷ steps) a =
    run-At (cmcp_fsm_msg_push f e) (push_event p e) steps (push-At f p e a)
run-At f p (round ∷ steps) a =
    run-At (cmcp_fsm f (timed_out ∷ [])) (take_event p) steps (round-At f p.handled p.pending a)

-- In every sequence of pushes and rounds of the thread from its initialisation, the events are
-- handled in the order of their pushes, up to 32 wait and one pushed to 32 waiting ones is
-- dropped. After it the state is abort if an abort has been handled, else match if a start has,
-- else idle, and one hello packet has been sent if a start was handled before every abort, else none.
pub cmcp_fsm_lem :
    (steps : List Step)
    → let f = run cmcp_fsm_init steps in
      let p = progress (record { handled = []; pending = [] }) steps in
      (messages f.msg_q ≡ map msg_bytes p.pending)
      × (f.state ≡ outcome p.handled)
      × (f.hellos ≡ hellos_for p.handled)
unfolding At cmcp_fsm_init
cmcp_fsm_lem steps =
    let p = progress (record { handled = []; pending = [] }) steps in
    let (done, h) =
      run-At cmcp_fsm_init (record { handled = []; pending = [] }) steps (refl, start-Holds) in
    (h.msgs, ap (λ f. f.state) done, ap (λ f. f.hellos) done ∙ zero_plus _)
