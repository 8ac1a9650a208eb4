-- ===== src/Cmcp.antt =====
-- net/cmcp: the state machine of cmcp_fsm.c and the hooks of cmcp.c that feed its message queue.
pub mod Events
pub mod Queue
pub mod Thread
mod Tests
use misc_c.Base.{
  ℕ, ◌+◌, ◌*◌, ◌==◌, get_or, Bool, true, false, Option, none, some, List, [], ◌∷◌, if◌then◌else◌,
}
use misc_c.MsgQueue.{
  MsgQueue, msg_q_create, msg_q_push, WaitType, wait_timeout, Wait, Popped, message, nothing,
  waiting, msg_q_pop,
}

pub data Event : Type 0 where
  event_start event_abort event_hello_rx : Event

pub data State : Type 0 where
  state_idle state_abort state_match state_stable : State

abbrev pub state_eq : State → State → Bool
state_eq state_idle state_idle = true
state_eq state_abort state_abort = true
state_eq state_match state_match = true
state_eq state_stable state_stable = true
state_eq _ _ = false

-- `g_cmcp_fsm_mgnt`, with the number of hello packets that _cmcp_tx_hello has been called for.
pub record Fsm : Type 0 where
  pub running : Bool
  pub msg_q : MsgQueue
  pub state : State
  pub hellos : ℕ

-- A `cmcp_fsm_msg_t` in memory: an enumerator in four bytes, the lowest first.
abbrev pub msg_size : ℕ
msg_size = 4

unfoldable pub msg_bytes : Event → List ℕ
msg_bytes event_start = 0 ∷ 0 ∷ 0 ∷ 0 ∷ []
msg_bytes event_abort = 1 ∷ 0 ∷ 0 ∷ 0 ∷ []
msg_bytes event_hello_rx = 2 ∷ 0 ∷ 0 ∷ 0 ∷ []

-- The event that these bytes are read as.
unfoldable pub msg_event : List ℕ → Option Event
msg_event m =
    let code = get_or m 0 0 + 256 * get_or m 1 0 + 65536 * get_or m 2 0 + 16777216 * get_or m 3 0 in
    if code == 0
    then some event_start
    else if code == 1
    then some event_abort
    else if code == 2
    then some event_hello_rx
    else none

-- The poll functions give the new `state`.
abbrev pub cmcp_state_idle_poll : Event → State → State
cmcp_state_idle_poll event_start s = state_match
cmcp_state_idle_poll event_abort s = state_abort
cmcp_state_idle_poll event_hello_rx s = s

abbrev pub cmcp_state_match_poll : Event → State → State
cmcp_state_match_poll event_abort s = state_abort
cmcp_state_match_poll _ s = s

abbrev pub cmcp_state_stable_poll : Event → State → State
cmcp_state_stable_poll event_abort s = state_abort
cmcp_state_stable_poll _ s = s

abbrev pub cmcp_state_match_enter : Fsm → Fsm
cmcp_state_match_enter f = record f { hellos = f.hellos + 1 }

-- `cmcp_fsm_cb_t`
pub record Callbacks : Type 0 where
  pub enter : Option (Fsm → Fsm)
  pub poll : Event → State → State
  pub exit : Option (Fsm → Fsm)

-- `g_cmcp_cb_table`; the entry of the abort state has the poll function of match.
abbrev pub cb_table : State → Callbacks
cb_table state_idle = record { enter = none; poll = cmcp_state_idle_poll; exit = none }
cb_table state_abort = record { enter = none; poll = cmcp_state_match_poll; exit = none }
cb_table state_match = record {
  enter = some cmcp_state_match_enter;
  poll = cmcp_state_match_poll;
  exit = none;
}
cb_table state_stable = record { enter = none; poll = cmcp_state_stable_poll; exit = none }

-- `if(f) f(&msg);`
abbrev pub call : Option (Fsm → Fsm) → Fsm → Fsm
call none f = f
call (some g) f = g f

-- What the loop of _cmcp_fsm does with a message.
abbrev pub handle : Fsm → Event → Fsm
handle f event =
    let last_state = f.state in
    let polled = record f { state = (cb_table last_state).poll event last_state } in
    let new_state = polled.state in
    if state_eq new_state last_state
    then polled
    else call (cb_table new_state).enter (call (cb_table last_state).exit polled)

unfoldable pub cmcp_fsm_init : Fsm
cmcp_fsm_init = record {
  running = true;
  msg_q = msg_q_create 32 msg_size;
  state = state_idle;
  hellos = 0;
}

unfoldable pub cmcp_fsm_msg_push : Fsm → Event → Fsm
cmcp_fsm_msg_push f event = record f { msg_q = (msg_q_push f.msg_q (msg_bytes event) msg_size).1 }

unfoldable pub cmcp_on_cli_hook : Fsm → Fsm
unfolding cmcp_fsm_msg_push
cmcp_on_cli_hook f = cmcp_fsm_msg_push f event_start

unfoldable pub cmcp_off_cli_hook : Fsm → Fsm
unfolding cmcp_fsm_msg_push
cmcp_off_cli_hook f = cmcp_fsm_msg_push f event_abort

-- Bytes that are no event match no case of the poll functions.
abbrev pub handle_msg : Fsm → Option Event → Fsm
handle_msg f none = f
handle_msg f (some event) = handle f event

abbrev pub handle_popped : Fsm → Popped → Fsm
handle_popped f (message m q) = handle_msg (record f { msg_q = q }) (msg_event m)
handle_popped f (nothing q) = record f { msg_q = q }
handle_popped f (waiting q) = f

-- One round of the loop of _cmcp_fsm; `waits` says how the waits of its pop end.
unfoldable pub cmcp_fsm : Fsm → (waits : List Wait) → Fsm
cmcp_fsm f waits =
    if f.running then handle_popped f (msg_q_pop f.msg_q msg_size wait_timeout waits) else f
