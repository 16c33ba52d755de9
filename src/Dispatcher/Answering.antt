-- ===== src/Dispatcher/Answering.antt =====
-- What the answers of the control requests tell: `pause`, `resume`, `cancel`
-- (namisync/dispatcher/dispatcher.py).
use nami_sync.Base.{
  ◌≡◌, refl, sym, ◌∙◌, ap, Bool, true, false, String, Option, none, some, ◌==◌, ==_refl, string_eq,
  Result, ok, err, arith, Bool-cases, Result-cases, Option-cases, inl, inr,
}
use mathlib.Core.Path.{subst}
use nami_sync.Base.Dict.{get, put, get-put}
use nami_sync.Session.{SessionState, state_eq, Exn}
use nami_sync.Session.Records.{SessionRecord}
use nami_sync.Contracts.{ControlAction, ControlResult, control_decision}
use nami_sync.Dispatcher.{
  Dispatcher, Answers, Control, request_pause, request_cancel, reset, transition_locked,
  transitioned, announce, lookup,
}
use nami_sync.Dispatcher.Following.{announce_records, put_record_records}
use nami_sync.Dispatcher.Keeping.{signal_records, enqueue_records}
use nami_sync.Dispatcher.Controls.{
  pause, resume, cancel, grant, signal, signalled, enqueue, is_accepted, joins_queue,
  cancel_signalled, denied_pause,
}

abbrev pub state_of : Option SessionRecord → Option SessionState
state_of none = none
state_of (some r) = some r.state

abbrev pub state_at : String → Dispatcher → Option SessionState
state_at session_id d = state_of (get session_id d.records)

-- An answer, if the request gives one, names the state before and the state that the tables have
-- now.
abbrev IsTruthful : String → Option SessionState → Dispatcher × Result Exn ControlResult → Type 0
IsTruthful session_id before (d, err e) = Unit
IsTruthful session_id before (d, ok answer) =
    (answer.before ≡ before) × (answer.after ≡ state_at session_id d)

transition_locked_state :
    (session_id : String) (state : SessionState) (answers : Answers) (d : Dispatcher)
    (updated : SessionRecord)
    → (transition_locked session_id state none answers d).1 ≡ ok updated
    → state_at session_id (transition_locked session_id state none answers d).0 ≡ some updated.state
unfolding transition_locked
transition_locked_state session_id state answers d updated h =
    elim (Result-cases (lookup session_id d.records)) [
      | inr (e, missing) ↦ absurd (ground (arith, h, missing))
      | inl (r, found) ↦ elim (Result-cases (transitioned state none answers.now r)) [
        | inr (e, refused) ↦ absurd (ground (arith, h, found, refused))
        | inl (u, made) ↦
            let there : get session_id (put session_id u d.records) ≡ some u =
              get-put session_id session_id u d.records ∙ rw (==_refl session_id) refl in
            let same : updated ≡ u = ground (arith, h, found, made) in
            rw same (
              rw (found, transition_locked)
                (rw made (
                  ap state_of
                    (ap (get session_id) (put_record_records session_id u answers d) ∙ there))))
      ]
    ]

state_at_same :
    (session_id : String) (d d' : Dispatcher)
    → d'.records ≡ d.records
    → state_at session_id d' ≡ state_at session_id d
state_at_same session_id d d' same = ap (λ records. state_of (get session_id records)) same

-- The answer of a granted request.
grant-IsTruthful :
    (session_id : String) (state : SessionState) (queued : Bool) (r : SessionRecord)
    (answers : Answers) (d : Dispatcher)
    → IsTruthful session_id (some r.state) (grant session_id state queued r answers d)
unfolding grant
grant-IsTruthful session_id state queued r answers d =
    let d₁ = (transition_locked session_id state none answers d).0 in
    elim (Result-cases (transition_locked session_id state none answers d).1) [
      | inr (e, t) ↦ rw (t, grant) tt
      | inl (updated, t) ↦
          let d₂ = enqueue queued session_id d₁ in
          let d₃ = (announce session_id updated.state answers d₂).0 in
          let known : state_at session_id d₃ ≡ some updated.state =
            state_at_same session_id d₂ d₃ (announce_records session_id updated.state answers d₂)
            ∙ state_at_same session_id d₁ d₂ (enqueue_records queued session_id d₁)
            ∙ transition_locked_state session_id state answers d updated t in
          elim (Result-cases (announce session_id updated.state answers d₂).1) [
            | inr (e, failed) ↦ rw (t, grant) (rw failed tt)
            | inl (u, emitted) ↦ rw (t, grant) (rw emitted (refl, sym known))
          ]
    ]

signalled-IsTruthful :
    (session_id : String) (before : Option SessionState) (request : Control → Control)
    (rest : Dispatcher → Dispatcher × Result Exn ControlResult) (d : Dispatcher)
    → ((d' : Dispatcher) → d'.records ≡ d.records → IsTruthful session_id before (rest d'))
    → IsTruthful session_id before (signalled request session_id rest d)
signalled-IsTruthful session_id before request rest d k =
    elim (Result-cases (signal request session_id d)) [
      | inr (e, s) ↦ rw (s, signalled) tt
      | inl (d', s) ↦ rw (s, signalled) (k d' (signal_records request session_id d d' s))
    ]

cancel_signalled-IsTruthful :
    (session_id : String) (r : SessionRecord) (answers : Answers) (d d' : Dispatcher)
    → get session_id d.records ≡ some r
    → d'.records ≡ d.records
    → IsTruthful session_id (some r.state) (cancel_signalled session_id r answers d')
unfolding cancel_signalled
cancel_signalled-IsTruthful session_id r answers d d' h same =
    elim (Bool-cases (r.state == SessionState.pausing)) [
      | inr other ↦
          rw (other, cancel_signalled)
            (grant-IsTruthful session_id SessionState.canceling
              (joins_queue session_id r d'.pending) r answers d')
      | inl draining ↦
          rw (draining, cancel_signalled)
            (refl, sym (state_at_same session_id d d' same ∙ ap state_of h))
    ]

-- The request, by its action.
unfoldable pub control :
    ControlAction → String → Answers → Dispatcher → Dispatcher × Result Exn ControlResult
control ControlAction.pause = pause
control ControlAction.resume = resume
control ControlAction.cancel = cancel

denied_states :
    (session_id : String) (r : SessionRecord)
    → let denied =
        denied_pause (control_decision ControlAction.pause r.state r.supports_pause) session_id r in
      (denied.before ≡ some r.state) × (denied.after ≡ some r.state)
denied_states session_id r = ground arith

pause-IsTruthful :
    (session_id : String) (answers : Answers) (d : Dispatcher)
    → IsTruthful session_id (state_at session_id d) (pause session_id answers d)
unfolding pause
pause-IsTruthful session_id answers d = elim (Option-cases (get session_id d.records)) [
  | inl h ↦ rw (h, pause) (refl, sym (ap state_of h))
  | inr (r, h) ↦
      elim (Bool-cases
        (is_accepted (control_decision ControlAction.pause r.state r.supports_pause))) [
          | inr refused ↦
              rw (h, pause)
                (rw refused (
                  (denied_states session_id r).0,
                  (denied_states session_id r).1 ∙ sym (ap state_of h),
                ))
          | inl accepted ↦
              rw (h, pause)
                (rw accepted (
                  signalled-IsTruthful session_id (some r.state) request_pause
                    (grant session_id SessionState.pausing false r answers) d
                    (λ d' same.
                      grant-IsTruthful session_id SessionState.pausing false r answers d')))
        ]
]

resume-IsTruthful :
    (session_id : String) (answers : Answers) (d : Dispatcher)
    → IsTruthful session_id (state_at session_id d) (resume session_id answers d)
unfolding resume
resume-IsTruthful session_id answers d = elim (Option-cases (get session_id d.records)) [
  | inl h ↦ rw (h, resume) (refl, sym (ap state_of h))
  | inr (r, h) ↦
      elim (Bool-cases
        (is_accepted (control_decision ControlAction.resume r.state r.supports_pause))) [
          | inr refused ↦ rw (h, resume) (rw refused (refl, sym (ap state_of h)))
          | inl accepted ↦
              rw (h, resume)
                (rw accepted (
                  signalled-IsTruthful session_id (some r.state) reset
                    (grant session_id SessionState.pending true r answers) d
                    (λ d' same.
                      grant-IsTruthful session_id SessionState.pending true r answers d')))
        ]
]

cancel-IsTruthful :
    (session_id : String) (answers : Answers) (d : Dispatcher)
    → IsTruthful session_id (state_at session_id d) (cancel session_id answers d)
unfolding cancel
cancel-IsTruthful session_id answers d = elim (Option-cases (get session_id d.records)) [
  | inl h ↦ rw (h, cancel) (refl, sym (ap state_of h))
  | inr (r, h) ↦
      elim (Bool-cases
        (is_accepted (control_decision ControlAction.cancel r.state r.supports_pause))) [
          | inr refused ↦ rw (h, cancel) (rw refused (refl, sym (ap state_of h)))
          | inl accepted ↦
              rw (h, cancel)
                (rw accepted (
                  signalled-IsTruthful session_id (some r.state) request_cancel
                    (cancel_signalled session_id r answers) d
                    (λ d' same. cancel_signalled-IsTruthful session_id r answers d d' h same)))
        ]
]

control-IsTruthful :
    (action : ControlAction) (session_id : String) (answers : Answers) (d : Dispatcher)
    → IsTruthful session_id (state_at session_id d) (control action session_id answers d)
unfolding control
control-IsTruthful ControlAction.pause = pause-IsTruthful
control-IsTruthful ControlAction.resume = resume-IsTruthful
control-IsTruthful ControlAction.cancel = cancel-IsTruthful

-- Whenever `pause`, `resume` or `cancel` answers, granted or not, for a known session or an unknown
-- one: the answer's `before` is the session's state before the request, and its `after` is the
-- state that the tables have when it returns.
pub control_answers :
    (action : ControlAction) (session_id : String) (answers : Answers) (d d' : Dispatcher)
    (answer : ControlResult)
    → control action session_id answers d ≡ (d', ok answer)
    → (answer.before ≡ state_at session_id d) × (answer.after ≡ state_at session_id d')
control_answers action session_id answers d d' answer h =
    subst (IsTruthful session_id (state_at session_id d)) h
      (control-IsTruthful action session_id answers d)
