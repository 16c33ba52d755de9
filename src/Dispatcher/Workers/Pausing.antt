-- ===== src/Dispatcher/Workers/Pausing.antt =====
-- When a session whose kind does not support pausing ends as paused
-- (namisync/dispatcher/dispatcher.py, `_run_core`; namisync/core/session.py, `run_session`).
use nami_sync.Base.{
  ◌≡◌, refl, ◌∙◌, Bool, true, false, List, [], ℕ, suc, Option, none, some, Result, ok, err, arith,
  Result-cases, inl, inr,
}
use nami_sync.Evidence.{RecordingStatus}
use nami_sync.Session.{Exn, Disposition}
use nami_sync.Session.Results.{OperationResult, Item}
use nami_sync.Runner.{
  Work, Run, Ending, RunOutcome, perform, observed_emit, run_session, conclude, finish,
}
use nami_sync.Dispatcher.Workers.{pause_guarded, core_work, admitted_work}

abbrev pub is_pause : Exn → Bool
is_pause Exn.pause_signal = true
is_pause _ = false

abbrev is_pause_ending : Ending → Bool
is_pause_ending (Ending.raised e) = is_pause e
is_pause_ending _ = false

abbrev pub fails_by_pause : Option Exn → Bool
fails_by_pause none = false
fails_by_pause (some e) = is_pause e

perform-pause_guarded :
    (work : Work) (signals : ℕ → Result Exn (Unit {0})) (run : Run)
    → is_pause_ending (perform (pause_guarded false work) signals run).1 ≡ false
unfolding perform pause_guarded
perform-pause_guarded (Work.return r) signals run = refl
perform-pause_guarded Work.return_other signals run = refl
perform-pause_guarded (Work.raise Exn.pause_signal) signals run = refl
perform-pause_guarded (Work.raise Exn.cancel_signal) signals run = refl
perform-pause_guarded (Work.raise (Exn.value_error m)) signals run = refl
perform-pause_guarded (Work.raise (Exn.type_error m)) signals run = refl
perform-pause_guarded (Work.raise (Exn.illegal_transition s t)) signals run = refl
perform-pause_guarded (Work.raise (Exn.other c m)) signals run = refl
perform-pause_guarded (Work.emit body rest) signals run =
    elim (Result-cases (observed_emit body run)) [
      | inl (run', o) ↦ rw (o, perform) (perform-pause_guarded (rest (ok tt)) signals run')
      | inr (e, o) ↦ rw (o, perform) (perform-pause_guarded (rest (err e)) signals run)
    ]
perform-pause_guarded (Work.checkpoint rest) signals run =
    perform-pause_guarded (rest (signals run.checks)) signals
      (record run { checks = suc run.checks })

-- What a core whose kind does not support pausing takes from outside of its invocation is a pause:
-- the answer of its first checkpoint, or else the failure that it was given.
abbrev pub pauses_outside : Result Exn (Unit {0}) → Option Exn → Bool
pauses_outside (err e) failure = is_pause e
pauses_outside (ok u) failure = fails_by_pause failure

admitted_ending :
    (invocation : Option Work) (failure : Option Exn) (signals : ℕ → Result Exn (Unit {0}))
    (run : Run)
    → is_pause_ending (perform (admitted_work invocation failure false) signals run).1
      ≡ fails_by_pause failure
unfolding perform
admitted_ending invocation (some e) signals run = refl
admitted_ending none none signals run = refl
admitted_ending (some work) none signals run = perform-pause_guarded work signals run

core_ending :
    (invocation : Option Work) (failure : Option Exn) (signals : ℕ → Result Exn (Unit {0}))
    (run : Run)
    → is_pause_ending (perform (core_work invocation failure false) signals run).1
      ≡ pauses_outside (signals run.checks) failure
unfolding perform core_work
core_ending invocation failure signals run = elim (Result-cases (signals run.checks)) [
  | inr (e, s) ↦ rw (s, perform) refl
  | inl (u, s) ↦ rw (s, perform) (admitted_ending invocation failure signals _)
]

abbrev is_none {ℓ} : {A : Type ℓ} → Option A → Bool
is_none none = true
is_none (some a) = false

conclude_none :
    (ending : Ending) (disposition : Disposition) (run : Run) (settled : Option OperationResult)
    → conclude ending disposition run ≡ ok settled
    → is_none settled ≡ is_pause_ending ending
unfolding conclude
conclude_none ending disposition run settled h = ground arith

finish_none :
    (finalize_audit : OperationResult → Result Exn RecordingStatus)
    (settled : Option OperationResult) (run : Run) (outcome : RunOutcome)
    → (finish finalize_audit settled run).1 ≡ ok outcome
    → outcome.paused ≡ is_none settled
unfolding finish
finish_none finalize_audit settled run outcome h = ground arith

-- The run of a session whose kind does not support pausing, if it returns, ends as paused exactly
-- if its first checkpoint answers with a pause, or returns and the failure that the core was given
-- is a pause. What its invocation emits, catches or raises, and what the later checkpoints answer,
-- never makes it end as paused.
pub core_pauses :
    (invocation : Option Work) (failure : Option Exn) (signals : ℕ → Result Exn (Unit {0}))
    (finalize_audit : OperationResult → Result Exn RecordingStatus) (disposition : Disposition)
    (items : List Item) (outcome : RunOutcome)
    → (run_session (core_work invocation failure false) signals finalize_audit disposition items).1
      ≡ ok outcome
    → outcome.paused ≡ pauses_outside (signals 0) failure
unfolding run_session
core_pauses invocation failure signals finalize_audit disposition items outcome h =
    let start : Run = record { items = items; latest_progress = none; log = []; checks = 0 } in
    let ended = perform (core_work invocation failure false) signals start in
    elim (Result-cases (conclude ended.1 disposition ended.0)) [
      | inr (e, c) ↦ ground arith
      | inl (settled, c) ↦
          finish_none finalize_audit settled ended.0 outcome (ground arith)
          ∙ conclude_none ended.1 disposition ended.0 settled c
          ∙ core_ending invocation failure signals start
    ]
