-- ===== src/Contracts.antt =====
-- The control matrix of the dispatcher (namisync/dispatcher/contracts.py).
pub mod Matrix
use nami_sync.Base.{Bool, true, false, not, ◌&&◌, ◌||◌, if◌then◌else◌, ◌==◌, String, Option}
use nami_sync.Session.{SessionState, state_eq, is_terminal}

pub data ControlCode : Type 0 where
  accepted not_found illegal_state unsupported : ControlCode

pub data ControlAction : Type 0 where
  pause resume cancel : ControlAction

-- The final `raise` is for values outside the enumeration.
unfoldable pub control_decision : ControlAction → SessionState → Bool → ControlCode
unfolding state_eq is_terminal
control_decision ControlAction.pause state supports_pause =
    if not supports_pause
    then ControlCode.unsupported
    else if state == SessionState.running
    then ControlCode.accepted
    else ControlCode.illegal_state
control_decision ControlAction.resume state supports_pause =
    if state == SessionState.paused || state == SessionState.interrupted
    then ControlCode.accepted
    else ControlCode.illegal_state
control_decision ControlAction.cancel state supports_pause =
    if not (is_terminal state) && not (state == SessionState.canceling)
    then ControlCode.accepted
    else ControlCode.illegal_state

-- The `detail` text is presentation and is left out.
pub record ControlResult : Type 0 where
  pub code : ControlCode
  pub session_id : String
  pub before : Option SessionState
  pub after : Option SessionState
