-- ===== src/Cmcp/Events.antt =====
-- What a sequence of events makes of the state machine.
use misc_c.Base.{ℕ, ◌+◌, ◌≡◌, refl, ◌∙◌, ap, Bool, true, false, List, [], ◌∷◌, arith, if◌then◌else◌}
use misc_c.Cmcp.{
  Event, event_start, event_abort, event_hello_rx, State, state_idle, state_abort, state_match, Fsm,
  handle,
}

abbrev pub handle_all : Fsm → List Event → Fsm
handle_all f [] = f
handle_all f (e ∷ es) = handle_all (handle f e) es

abbrev pub has_abort : List Event → Bool
has_abort [] = false
has_abort (event_abort ∷ es) = true
has_abort (_ ∷ es) = has_abort es

abbrev pub has_start : List Event → Bool
has_start [] = false
has_start (event_start ∷ es) = true
has_start (_ ∷ es) = has_start es

-- Whether a start comes before every abort.
abbrev pub starts_first : List Event → Bool
starts_first [] = false
starts_first (event_start ∷ es) = true
starts_first (event_abort ∷ es) = false
starts_first (event_hello_rx ∷ es) = starts_first es

abbrev pub outcome : List Event → State
outcome es = if has_abort es then state_abort else if has_start es then state_match else state_idle

abbrev pub hellos_for : List Event → ℕ
hellos_for es = if starts_first es then 1 else 0

from_abort :
    (f : Fsm) (es : List Event)
    → handle_all (record f { state = state_abort }) es ≡ record f { state = state_abort }
from_abort f [] = refl
from_abort f (event_start ∷ es) = from_abort f es
from_abort f (event_abort ∷ es) = from_abort f es
from_abort f (event_hello_rx ∷ es) = from_abort f es

from_match :
    (f : Fsm) (es : List Event)
    → handle_all (record f { state = state_match }) es
      ≡ record f { state = if has_abort es then state_abort else state_match }
from_match f [] = refl
from_match f (event_start ∷ es) = from_match f es
from_match f (event_abort ∷ es) = from_abort f es
from_match f (event_hello_rx ∷ es) = from_match f es

from_idle :
    (f : Fsm) (es : List Event)
    → handle_all (record f { state = state_idle }) es
      ≡ record f { state = outcome es; hellos = f.hellos + hellos_for es }
from_idle f [] = ap (λ n. record f { state = state_idle; hellos = n }) (omega arith)
from_idle f (event_start ∷ es) = from_match (record f { hellos = f.hellos + 1 }) es
from_idle f (event_abort ∷ es) =
    from_abort f es ∙ ap (λ n. record f { state = state_abort; hellos = n }) (omega arith)
from_idle f (event_hello_rx ∷ es) = from_idle f es

-- From idle, events lead to abort if one of them is an abort, else to match if one of them is a
-- start, else nowhere. One hello packet is sent if a start comes before every abort, else none; the
-- queue and the running flag stay. So the stable state is never reached, and no received hello
-- has an effect.
pub handle_all_lem :
    (f : Fsm) (es : List Event)
    → f.state ≡ state_idle
    → handle_all f es ≡ record f { state = outcome es; hellos = f.hellos + hellos_for es }
handle_all_lem f es h = rw (ap (λ s. record f { state = s }) h) (from_idle f es)
