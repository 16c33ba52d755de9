-- ===== src/Contracts/Matrix.antt =====
-- The control matrix against the transition table: a request that is accepted asks for a legal edge.
use nami_sync.Base.{◌≡◌, Bool, true, arith}
use nami_sync.Session.{SessionState, state_eq, is_terminal, require_transition}
use nami_sync.Session.Lifecycle.{Legal}
use nami_sync.Contracts.{ControlAction, ControlCode, control_decision}

-- The state that the dispatcher asks for when it grants a request.
abbrev pub requested_state : ControlAction → SessionState
requested_state ControlAction.pause = SessionState.pausing
requested_state ControlAction.resume = SessionState.pending
requested_state ControlAction.cancel = SessionState.canceling

-- Whatever the session's state, a granted pause, resume or cancel requests a legal transition.
pub control_decision-Legal :
    (action : ControlAction) (state : SessionState) (supports_pause : Bool)
    → control_decision action state supports_pause ≡ ControlCode.accepted
    → Legal state (requested_state action)
unfolding control_decision require_transition
control_decision-Legal ControlAction.pause state supports_pause h = ground arith
control_decision-Legal ControlAction.resume state supports_pause h = ground arith
control_decision-Legal ControlAction.cancel state supports_pause h = ground arith

-- A terminal session accepts no control request.
pub control_decision_terminal :
    (action : ControlAction) (state : SessionState) (supports_pause : Bool)
    → is_terminal state ≡ true
    → ¬ (control_decision action state supports_pause ≡ ControlCode.accepted)
unfolding control_decision is_terminal
control_decision_terminal ControlAction.pause state supports_pause h = ground arith
control_decision_terminal ControlAction.resume state supports_pause h = ground arith
control_decision_terminal ControlAction.cancel state supports_pause h = ground arith
