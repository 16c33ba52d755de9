-- ===== src/Examples/Sessions.antt =====
-- The session lifecycle and the runner at concrete inputs (namisync/core/session.py).
use nami_sync.Base.{
  ◌≡◌, refl, true, false, [], ◌∷◌, ℕ, zero, none, some, Result, ok, err, arith, pos,
}
use nami_sync.Evidence.{RecordingStatus, Outcome}
use nami_sync.Session.{SessionState, Exn, Disposition, is_terminal, state_eq}
use nami_sync.Session.Lifecycle.{Reaches, Reaches-canceled, terminal_stays, Legal}
use nami_sync.Session.Results.{OperationResult, make_result, Item, ItemOutcome}
use nami_sync.Contracts.{ControlAction, control_decision}
use nami_sync.Contracts.Matrix.{control_decision-Legal}
use nami_sync.Events.{EventBody, Progress, make_progress}
use nami_sync.Runner.{Work, run_session, perform, observed_emit, conclude, finish}
use nami_sync.Runner.Settling.{Settled, run_session-Settled}

Reaches-canceled_example : Reaches SessionState.interrupted SessionState.canceled
unfolding is_terminal
Reaches-canceled_example = Reaches-canceled SessionState.interrupted refl

terminal_stays_example : SessionState.failed ≡ SessionState.failed
unfolding is_terminal
terminal_stays_example = terminal_stays {s = SessionState.failed} refl Reaches.here

control_decision-Legal_example : Legal SessionState.paused SessionState.pending
unfolding control_decision
control_decision-Legal_example =
    control_decision-Legal ControlAction.resume SessionState.paused false refl

-- A workflow that reports an item and its progress, catches the refusal of a terminal body of its
-- own, and is stopped by its second checkpoint.
abbrev half_done : Progress
half_done = record {
  items_done = pos 1;
  items_total = some (pos 2);
  bytes_done = pos 10;
  bytes_total = some (pos 25);
  current_path = none;
}

abbrev copied : ItemOutcome
copied = record {
  item_id = "1";
  kind = "copy";
  path = "a.txt";
  outcome = Outcome.succeeded;
  reason = none;
  detail = [];
}

abbrev finished : OperationResult
finished = record {
  status = SessionState.completed;
  recording = RecordingStatus.ok;
  audit = RecordingStatus.ok;
  disposition = Disposition.ran;
  canceled = false;
  operations = Item.planned copied ∷ [];
  bytes_done = pos 25;
  bytes_total = pos 25;
  error = none;
}

abbrev workflow : Work
workflow = Work.emit (EventBody.progress half_done) λ _. Work.checkpoint λ _.
    Work.emit (EventBody.item copied) λ _.
      Work.emit (EventBody.terminal finished)
        λ _. Work.checkpoint (elim [ ok go ↦ Work.return finished | err e ↦ Work.raise e ])

abbrev cancel_second : ℕ → Result Exn (Unit {0})
cancel_second = elim [ zero ↦ ok tt | _ ↦ err Exn.cancel_signal ]

workflow_canceled :
    (run_session workflow cancel_second (λ r. ok RecordingStatus.ok) Disposition.ran []).1
    ≡ ok (record {
      paused = false;
      result = some (record finished {
        status = SessionState.canceled;
        canceled = true;
        bytes_done = pos 10;
      });
    })
unfolding run_session perform observed_emit conclude finish make_result
workflow_canceled = refl

run_session-Settled_example :
    let (run, outcome) =
      run_session workflow cancel_second (λ r. err Exn.cancel_signal) Disposition.ran [] in
    Settled run.log outcome
unfolding make_progress is_terminal state_eq
run_session-Settled_example =
    run_session-Settled workflow cancel_second (λ r. err Exn.cancel_signal) Disposition.ran []
      (refl, λ _ _. (tt, λ _. (tt, λ _. elim [ ok go ↦ ground arith | err e ↦ tt ])))
