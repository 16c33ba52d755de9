-- ===== src/Session.antt =====
-- The session lifecycle: states, legal transitions and the exceptions that end or suspend a
-- session (namisync/core/session.py).
pub mod Lifecycle
pub mod Results
pub mod Records
use nami_sync.Base.{
  Bool, true, false, not, String, List, [], ◌∷◌, Eq, ◌==◌, contains, Result, raise_if,
}

pub data SessionState : Type 0 where
  pending running pausing paused canceling completed failed canceled refused interrupted :
      SessionState

SessionState_dec : Discrete SessionState
SessionState_dec = hlevel

instance unfoldable pub state_eq : Eq SessionState
unfolding SessionState_dec
state_eq = record { dec = SessionState_dec }

-- `TERMINAL_STATES`
abbrev pub terminal_states : List SessionState
terminal_states =
    SessionState.completed ∷ SessionState.failed ∷ SessionState.canceled ∷ SessionState.refused ∷ []

-- `LEGAL_TRANSITIONS`
unfoldable pub legal_transitions : SessionState → List SessionState
legal_transitions SessionState.pending =
    SessionState.running ∷ SessionState.canceling ∷ SessionState.failed ∷ []
legal_transitions SessionState.running =
    SessionState.pausing ∷ SessionState.canceling ∷ SessionState.completed ∷ SessionState.failed
    ∷ SessionState.canceled ∷ SessionState.refused ∷ []
legal_transitions SessionState.pausing =
    SessionState.paused ∷ SessionState.canceling ∷ SessionState.completed ∷ SessionState.failed
    ∷ SessionState.canceled ∷ SessionState.refused ∷ []
legal_transitions SessionState.paused = SessionState.pending ∷ SessionState.canceling ∷ []
legal_transitions SessionState.canceling =
    SessionState.completed ∷ SessionState.failed ∷ SessionState.canceled ∷ SessionState.refused ∷ []
legal_transitions SessionState.completed = []
legal_transitions SessionState.failed = []
legal_transitions SessionState.canceled = []
legal_transitions SessionState.refused = []
legal_transitions SessionState.interrupted = SessionState.pending ∷ SessionState.canceling ∷ []

unfoldable pub is_terminal : SessionState → Bool
unfolding state_eq
is_terminal state = contains terminal_states state

-- The values of the enumeration.
abbrev pub state_value : SessionState → String
state_value SessionState.pending = "pending"
state_value SessionState.running = "running"
state_value SessionState.pausing = "pausing"
state_value SessionState.paused = "paused"
state_value SessionState.canceling = "canceling"
state_value SessionState.completed = "completed"
state_value SessionState.failed = "failed"
state_value SessionState.canceled = "canceled"
state_value SessionState.refused = "refused"
state_value SessionState.interrupted = "interrupted"

-- What the session code raises; `other` stands for any exception of a workflow, by its class and
-- its text.
pub data Exn : Type 0 where
  cancel_signal pause_signal : Exn
  value_error type_error : String → Exn
  illegal_transition : SessionState → SessionState → Exn
  other : String → String → Exn

unfoldable pub require_transition : SessionState → SessionState → Result Exn (Unit {0})
unfolding legal_transitions state_eq
require_transition current requested =
    raise_if (not (contains (legal_transitions current) requested))
      (Exn.illegal_transition current requested)

pub data Disposition : Type 0 where
  ran unrun : Disposition

pub record FailureDetail : Type 0 where
  pub type_name : String
  pub message : String
