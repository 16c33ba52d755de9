-- ===== src/Runner.antt =====
-- The session runner, `run_session` (namisync/core/session.py). A workflow is the tree of what it
-- asks of its context; the callbacks of the dispatcher are the effects of a log, and contain their
-- own failures, as the runner's contract asks.
pub mod Collecting
pub mod Settling
use nami_sync.Base.{
  ◌≡◌, refl, Bool, true, false, ◌&&◌, String, List, [], ◌∷◌, ◌++◌, Option, none, some, ℕ, suc,
  Result, ok, err, ◌>>=◌, ◌>>◌, if◌then◌else◌, ℤ, pos,
}
use nami_sync.Evidence.{RecordingStatus}
use Prim.Native.String.{◌++◌ as ◌<>◌}
use nami_sync.Session.{SessionState, state_value, Exn, Disposition, FailureDetail}
use nami_sync.Session.Results.{OperationResult, ItemOutcome, ForeignBody, Item, make_result}
use nami_sync.Events.{EventBody, Progress}

-- A call of the context hands its outcome to the rest: the workflow may catch what it raises.
pub data Work : Type 0 where
  return : OperationResult → Work
  return_other : Work
  raise : Exn → Work
  emit : EventBody → (Result Exn (Unit {0}) → Work) → Work
  checkpoint : (Result Exn (Unit {0}) → Work) → Work

-- What the runner does to its collaborators.
pub data Effect : Type 0 where
  emitted : EventBody → Effect
  settled : SessionState → Option OperationResult → Effect
  published : OperationResult → Effect

-- The variables of `run_session` that `observed_emit` updates, the log, and the checkpoints passed.
pub record Run : Type 0 where
  pub items : List Item
  pub latest_progress : Option Progress
  pub log : List Effect
  pub checks : ℕ

pub data Ending : Type 0 where
  returned : OperationResult → Ending
  returned_other : Ending
  raised : Exn → Ending

-- The test for an item: an `ItemOutcome`, or any body with an `item_id` and a `path`.
abbrev pub as_items : EventBody → List Item
as_items (EventBody.item i) = Item.planned i ∷ []
as_items (EventBody.foreign b) = if b.has_item_id && b.has_path then Item.foreign b ∷ [] else []
as_items _ = []

abbrev pub next_progress : EventBody → Option Progress → Option Progress
next_progress (EventBody.progress p) latest = some p
next_progress _ latest = latest

-- `observed_emit`
unfoldable pub observed_emit : EventBody → Run → Result Exn Run
observed_emit (EventBody.terminal r) run =
    err (Exn.value_error "workflow code cannot emit Terminal")
observed_emit body run = ok (record run {
  items = run.items ++ as_items body;
  latest_progress = next_progress body run.latest_progress;
  log = run.log ++ emitted body ∷ [];
})

-- The call `work(context)`; the n-th call of `checkpoint` answers `signals n`.
unfoldable pub perform : Work → (ℕ → Result Exn (Unit {0})) → Run → Run × Ending
perform (Work.return r) signals run = (run, returned r)
perform Work.return_other signals run = (run, returned_other)
perform (Work.raise e) signals run = (run, raised e)
perform (Work.emit body rest) signals run = elim (observed_emit body run) [
  | ok run' ↦ perform (rest (ok tt)) signals run'
  | err e ↦ perform (rest (err e)) signals run
]
perform (Work.checkpoint rest) signals run =
    perform (rest (signals run.checks)) signals (record run { checks = suc run.checks })

abbrev pub progress_done : Option Progress → ℤ
progress_done none = pos 0
progress_done (some p) = p.bytes_done

abbrev pub progress_total : Option Progress → ℤ
progress_total none = pos 0
progress_total (some p) = elim p.bytes_total [ none ↦ p.bytes_done | some total ↦ total ]

-- `type(error).__name__` and `str(error)`.
abbrev pub failure_detail : Exn → FailureDetail
failure_detail Exn.cancel_signal = record { type_name = "Canceled"; message = "" }
failure_detail Exn.pause_signal = record { type_name = "PauseRequested"; message = "" }
failure_detail (Exn.value_error text) = record { type_name = "ValueError"; message = text }
failure_detail (Exn.type_error text) = record { type_name = "TypeError"; message = text }
failure_detail (Exn.illegal_transition s t) = record {
  type_name = "IllegalTransition";
  message = "cannot transition from " <> (state_value s <> (" to " <> state_value t));
}
failure_detail (Exn.other name text) = record { type_name = name; message = text }

abbrev pub stopped_result :
    SessionState → Bool → Option FailureDetail → Disposition → Run → OperationResult
stopped_result status canceled error disposition run = record {
  status = status;
  recording = RecordingStatus.ok;
  audit = RecordingStatus.ok;
  disposition = disposition;
  canceled = canceled;
  operations = run.items;
  bytes_done = progress_done run.latest_progress;
  bytes_total = progress_total run.latest_progress;
  error = error;
}

-- The `try` statement: `none` for a pause, else the result. A constructor that refuses raises.
unfoldable pub conclude : Ending → Disposition → Run → Result Exn (Option OperationResult)
conclude (returned r) disposition run = ok (some r)
conclude returned_other disposition run = do
  r ← make_result (
      stopped_result SessionState.failed false
        (some (failure_detail (Exn.type_error "workflow must return OperationResult"))) disposition
        run)
  ok (some r)
conclude (raised Exn.pause_signal) disposition run = ok none
conclude (raised Exn.cancel_signal) disposition run = do
  r ← make_result (stopped_result SessionState.canceled true none disposition run)
  ok (some r)
conclude (raised e) disposition run = do
  r ←
      make_result
        (stopped_result SessionState.failed false (some (failure_detail e)) disposition run)
  ok (some r)

pub record RunOutcome : Type 0 where
  pub paused : Bool
  pub result : Option OperationResult

abbrev pub append_log : List Effect → Run → Run
append_log effects run = record run { log = run.log ++ effects }

abbrev pub audit_status : Result Exn RecordingStatus → RecordingStatus
audit_status (ok status) = status
audit_status (err e) = RecordingStatus.degraded

-- The statements after the `try`, and the `return` in its pause handler.
unfoldable pub finish :
    (OperationResult → Result Exn RecordingStatus)
    → Option OperationResult
    → Run
    → Run × Result Exn RunOutcome
finish finalize_audit none run = (
  append_log (settled SessionState.paused none ∷ []) run,
  ok (record { paused = true; result = none }),
)
finish finalize_audit (some r) run =
    elim (make_result (record r { audit = audit_status (finalize_audit r) })) [
      | ok final ↦ (
        append_log
            (settled r.status (some r) ∷ published final ∷ emitted (EventBody.terminal final) ∷ [])
            run,
        ok (record { paused = false; result = some final }),
      )
      | err e ↦ (append_log (settled r.status (some r) ∷ []) run, err e)
    ]

unfoldable pub run_session :
    Work
    → (ℕ → Result Exn (Unit {0}))
    → (OperationResult → Result Exn RecordingStatus)
    → Disposition
    → List Item
    → Run × Result Exn RunOutcome
run_session work signals finalize_audit disposition items =
    let start : Run = record { items = items; latest_progress = none; log = []; checks = 0 } in
    let (run, ending) = perform work signals start in
    elim (conclude ending disposition run) [
      | ok settled_as ↦ finish finalize_audit settled_as run
      | err e ↦ (run, err e)
    ]
