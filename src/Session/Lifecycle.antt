-- ===== src/Session/Lifecycle.antt =====
-- What the transition table of namisync/core/session.py promises: which states are final, and
-- that each other state can still reach a final one.
use nami_sync.Base.{◌≡◌, refl, true, false, [], arith, ok}
use nami_sync.Session.{SessionState, legal_transitions, state_eq, is_terminal, require_transition}

-- An edge that `require_transition` lets pass.
abbrev pub Legal : SessionState → SessionState → Type 0
Legal s t = require_transition s t ≡ ok tt

pub data Reaches : SessionState → SessionState → Type 0 where
  here : {s : SessionState} → Reaches s s
  step : {s t u : SessionState} → Legal s t → Reaches t u → Reaches s u

-- A state has no legal successor exactly when it is terminal.
pub is_terminal-legal_transitions :
    (s : SessionState)
    → (is_terminal s ≡ true → legal_transitions s ≡ [])
      × (legal_transitions s ≡ [] → is_terminal s ≡ true)
unfolding is_terminal legal_transitions
is_terminal-legal_transitions s = ground arith

-- Every state but a terminal one, `interrupted` included, has a legal path to `canceled`.
pub Reaches-canceled : (s : SessionState) → is_terminal s ≡ false → Reaches s SessionState.canceled
unfolding is_terminal require_transition
Reaches-canceled SessionState.running h = step refl here
Reaches-canceled SessionState.pausing h = step refl here
Reaches-canceled SessionState.canceling h = step refl here
Reaches-canceled SessionState.pending h = step {t = SessionState.canceling} refl (step refl here)
Reaches-canceled SessionState.paused h = step {t = SessionState.canceling} refl (step refl here)
Reaches-canceled SessionState.interrupted h =
    step {t = SessionState.canceling} refl (step refl here)
Reaches-canceled SessionState.canceled h = here
Reaches-canceled SessionState.completed h = cc
Reaches-canceled SessionState.failed h = cc
Reaches-canceled SessionState.refused h = cc

not-Legal_of_terminal : (s t : SessionState) → is_terminal s ≡ true → ¬ Legal s t
unfolding is_terminal require_transition
not-Legal_of_terminal s t h = ground arith

-- Along legal transitions a terminal state is never left.
pub terminal_stays : {s t : SessionState} → is_terminal s ≡ true → Reaches s t → s ≡ t
terminal_stays h here = refl
terminal_stays h (step {s} {t} l r) = absurd (not-Legal_of_terminal s t h l)
