-- ===== src/Cmcp/Tests.antt =====
-- Tests of the state machine, and its theorems at short runs.
use misc_c.Base.{◌≡◌, [], ◌∷◌, List, map}
use misc_c.MsgQueue.Slots.{messages}
use misc_c.Cmcp.{event_start, event_abort, event_hello_rx, state_abort, msg_bytes, cmcp_fsm_init}
use misc_c.Cmcp.Events.{outcome, hellos_for}
use misc_c.Cmcp.Thread.{Step, push, round, run, progress, cmcp_fsm_lem}

-- One round more than there are events before the abort.
abbrev on_then_off : List Step
on_then_off =
    round
    ∷ push event_start
    ∷ push event_hello_rx
    ∷ round
    ∷ round
    ∷ push event_abort
    ∷ round
    ∷ push event_start
    ∷ []

cmcp_fsm_lem_example :
    let f = run cmcp_fsm_init on_then_off in
    let p = progress (record { handled = []; pending = [] }) on_then_off in
    (messages f.msg_q ≡ map msg_bytes p.pending)
    × (f.state ≡ outcome p.handled)
    × (f.hellos ≡ hellos_for p.handled)
cmcp_fsm_lem_example = cmcp_fsm_lem on_then_off

on_then_off_aborts :
    let f = run cmcp_fsm_init on_then_off in (f.state ≡ state_abort) × (f.hellos ≡ 1)
on_then_off_aborts = (cmcp_fsm_lem_example.1, cmcp_fsm_lem_example.2)
