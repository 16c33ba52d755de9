-- ===== src/Runner/Settling.antt =====
-- How a run ends: settled once, then at most one terminal event, on every path of `run_session`
-- (namisync/core/session.py).
use nami_sync.Base.{
  ◌≡◌, refl, sym, ◌>>=◌, Bool, true, false, List, [], ◌∷◌, ◌++◌, Option, none, some, ℕ, Result, ok,
  is_negative, ltz, arith, ◌⊎◌, inl, inr,
}
use mathlib.Core.List.{append-nil}
use nami_sync.Base.Lists.{All}
use nami_sync.Evidence.{RecordingStatus}
use nami_sync.Session.{Exn, SessionState, Disposition, FailureDetail, is_terminal, state_eq}
use nami_sync.Session.Results.{Item, OperationResult, IsResult, make_result, make_result_complete}
use nami_sync.Events.{EventBody, Progress, make_progress}
use nami_sync.Runner.{
  Work, Run, RunOutcome, Effect, Ending, emitted, settled, published, returned, returned_other,
  raised, perform, progress_done, progress_total, stopped_result, conclude, finish, run_session,
  audit_status,
}
use nami_sync.Runner.Collecting.{
  IsTyped, IsWorkEffect, IsLatest, IsCollected, IsEnding, perform-IsCollected, perform-IsEnding,
}

-- The two ways in which a session's log may end.
pub data Settled (log : List Effect) (outcome : Result Exn RunOutcome) : Type 0 where
  suspended :
      (before : List Effect)
      → All IsWorkEffect before
      → log ≡ before ++ settled SessionState.paused none ∷ []
      → outcome ≡ ok (record { paused = true; result = none })
      → Settled log outcome
  ended :
      (before : List Effect) (r final : OperationResult)
      → All IsWorkEffect before
      → IsResult r
      → final ≡ record r { audit = final.audit }
      → log
        ≡ before
          ++ settled r.status (some r) ∷ published final ∷ emitted (EventBody.terminal final) ∷ []
      → outcome ≡ ok (record { paused = false; result = some final })
      → Settled log outcome

progress_bytes :
    (latest : Option Progress)
    → IsLatest latest
    → (is_negative (progress_done latest) ≡ false)
      × (is_negative (progress_total latest) ≡ false)
      × (ltz (progress_total latest) (progress_done latest) ≡ false)
unfolding make_progress
progress_bytes none h = (refl, refl, refl)
progress_bytes (some p) h = ground arith

-- The results that the exception handlers build pass their own checks.
stopped_result-IsResult :
    (status : SessionState) (canceled : Bool) (error : Option FailureDetail)
    (disposition : Disposition) (run : Run)
    → (status ≡ SessionState.canceled) × (canceled ≡ true)
      ⊎ (status ≡ SessionState.failed) × (canceled ≡ false)
    → IsLatest run.latest_progress
    → IsResult (stopped_result status canceled error disposition run)
unfolding is_terminal
stopped_result-IsResult status canceled error disposition run s l =
    ground (arith, progress_bytes run.latest_progress l)

abbrev IsConclusion : Option OperationResult → Type 0
IsConclusion none = Unit
IsConclusion (some r) = IsResult r

stopped-IsConclusion :
    (status : SessionState) (canceled : Bool) (error : Option FailureDetail)
    (disposition : Disposition) (run : Run)
    → (status ≡ SessionState.canceled) × (canceled ≡ true)
      ⊎ (status ≡ SessionState.failed) × (canceled ≡ false)
    → IsLatest run.latest_progress
    → (m : Option OperationResult) × ((make_result
            (stopped_result status canceled error disposition run)
          >>= λ r. ok (some r))
        ≡ ok m)
      × IsConclusion m
stopped-IsConclusion status canceled error disposition run s l =
    let valid = stopped_result-IsResult status canceled error disposition run s l in
    (
      some (stopped_result status canceled error disposition run),
      rw (make_result_complete (stopped_result status canceled error disposition run) valid),
      valid,
    )

conclude-IsConclusion :
    (ending : Ending) (disposition : Disposition) (run : Run)
    → IsEnding ending
    → IsLatest run.latest_progress
    → (m : Option OperationResult) × (conclude ending disposition run ≡ ok m) × IsConclusion m
unfolding conclude
conclude-IsConclusion (returned r) disposition run e l = (some r, refl, e)
conclude-IsConclusion returned_other disposition run e l =
    stopped-IsConclusion _ _ _ _ run (inr (refl, refl)) l
conclude-IsConclusion (raised Exn.pause_signal) disposition run e l = (none, refl, tt)
conclude-IsConclusion (raised Exn.cancel_signal) disposition run e l =
    stopped-IsConclusion _ _ _ _ run (inl (refl, refl)) l
conclude-IsConclusion (raised _) disposition run e l =
    stopped-IsConclusion _ _ _ _ run (inr (refl, refl)) l

with_audit :
    (r : OperationResult) (audit : RecordingStatus)
    → IsResult r
    → IsResult (record r { audit = audit })
with_audit r audit v = record {
  ended = v.ended;
  done_counted = v.done_counted;
  total_counted = v.total_counted;
  within_total = v.within_total;
  canceled_agrees = v.canceled_agrees;
  refused_unrun = v.refused_unrun;
}

finish-Settled :
    (finalize_audit : OperationResult → Result Exn RecordingStatus) (m : Option OperationResult)
    (run : Run)
    → IsConclusion m
    → All IsWorkEffect run.log
    → Settled (finish finalize_audit m run).0.log (finish finalize_audit m run).1
unfolding finish
finish-Settled finalize_audit none run v plain = suspended run.log plain refl refl
finish-Settled finalize_audit (some r) run v plain =
    let audit = audit_status (finalize_audit r) in
    rw (make_result_complete (record r { audit = audit }) (with_audit r audit v), finish)
      (ended run.log r (record r { audit = audit }) plain v refl refl refl)

-- For a workflow whose bodies and results come from their constructors, whatever it emits, catches
-- or raises, whatever the checkpoints answer and whether or not the audit fails: the run produces
-- an outcome. Either it settles once as paused, with no terminal event and no result; or it
-- settles once in the status of a valid result, then publishes that result with only its audit
-- changed, and the one terminal event, which carries it, is the last entry of the log.
pub run_session-Settled :
    (work : Work) (signals : ℕ → Result Exn (Unit {0}))
    (finalize_audit : OperationResult → Result Exn RecordingStatus) (disposition : Disposition)
    (items : List Item)
    → IsTyped work
    → let (run, outcome) = run_session work signals finalize_audit disposition items in
      Settled run.log outcome
unfolding run_session
run_session-Settled work signals finalize_audit disposition items t =
    let start : Run = record { items = items; latest_progress = none; log = []; checks = 0 } in
    let collected : IsCollected items (perform work signals start).0 =
      perform-IsCollected items work signals start t
        (record { plain = tt; gathered = sym (append-nil _); latest = tt }) in
    let (m, concluded, valid) =
      conclude-IsConclusion (perform work signals start).1 disposition
        (perform work signals start).0 (perform-IsEnding work signals start t) collected.latest in
    rw (concluded, run_session)
      (finish-Settled finalize_audit m (perform work signals start).0 valid collected.plain)
