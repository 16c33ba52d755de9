-- ===== src/Dispatcher/Steps.antt =====
-- The dispatcher's blocks as steps, and lists of steps for the interleavings of its threads. The
-- steps of `pause`, `resume`, `cancel`, `settle` and `end_worker` take a method with the event that
-- follows its block; `release`, `transit` and `publish_state` are the blocks by themselves, for the
-- interleavings in which another thread comes in between.
use nami_sync.Base.{Bool, true, not, String, List, [], ◌∷◌, Option, ◌==◌, Result, string_eq}
use nami_sync.Session.{SessionState, Exn}
use nami_sync.Session.Results.{OperationResult}
use nami_sync.Session.Records.{SessionRecord, ResourceId, Bytes}
use nami_sync.Runner.{Work}
use nami_sync.Bus.Hub.{EventHub}
use nami_sync.Dispatcher.{Dispatcher, Answers, release_custody, transition_locked, announce}
use nami_sync.Dispatcher.Scheduling.{schedule}
use nami_sync.Dispatcher.Controls.{
  enter, pause, resume, cancel, close_session, begin_submit, take_order, end_submit, stop_accepting,
}
use nami_sync.Dispatcher.Workers.{
  acquired, opened, settle_session, publish_result, replace_payload, worker_done, end_core,
}

-- A step, with what the clock, the store, the lock provider and the workflow answer to it.
pub data Step : Type 0 where
  enter_session : SessionRecord → EventHub → Step
  pause_session resume_session cancel_session : String → Answers → Step
  close_session_step : String → Option Exn → Step
  schedule_pass : Step
  acquire : String → SessionRecord → Result Exn (List ResourceId) → Step
  open_invocation : String → Result Exn Work → Answers → Step
  settle : String → SessionState → Option OperationResult → Option Exn → Answers → Step
  publish : String → OperationResult → Answers → Step
  snapshot : String → Bytes → Answers → Step
  release : String → Option Exn → Step
  end_worker : String → Answers → Step
  transit : String → SessionState → Option OperationResult → Answers → Step
  publish_state : String → SessionState → Answers → Step
  begin_submission : String → Bool → Step
  hand_out_order end_submission begin_shutdown : Step
  end_run : String → Step

-- `_transition_locked` alone
unfoldable pub transit_only :
    String → SessionState → Option OperationResult → Answers → Dispatcher → Dispatcher
transit_only session_id state result answers d =
    (transition_locked session_id state result answers d).0

unfoldable pub step : Step → Dispatcher → Dispatcher
step (enter_session r hub) d = (enter r hub d).0
step (pause_session session_id answers) d = (pause session_id answers d).0
step (resume_session session_id answers) d = (resume session_id answers d).0
step (cancel_session session_id answers) d = (cancel session_id answers d).0
step (close_session_step session_id dropped) d = (close_session session_id dropped d).0
step schedule_pass d = schedule d
step (acquire session_id r answer) d = (acquired session_id r answer d).0
step (open_invocation session_id answer answers) d = (opened session_id answer answers d).0
step (settle session_id state result failure answers) d =
    (settle_session session_id state result failure answers d).0
step (publish session_id result answers) d = (publish_result session_id result answers d).0
step (snapshot session_id payload answers) d = (replace_payload session_id payload answers d).0
step (release session_id failure) d = release_custody session_id failure d
step (end_worker session_id answers) d = (worker_done session_id answers d).0
step (transit session_id state result answers) d = transit_only session_id state result answers d
step (publish_state session_id state answers) d = (announce session_id state answers d).0
step (begin_submission kind is_registered) d = (begin_submit kind is_registered d).0
step hand_out_order d = (take_order d).0
step end_submission d = end_submit d
step begin_shutdown d = (stop_accepting d).0
step (end_run session_id) d = end_core session_id d

unfoldable pub steps : List Step → Dispatcher → Dispatcher
steps [] d = d
steps (s ∷ rest) d = steps rest (step s d)

-- The step neither closes the session nor enters another one under its id.
abbrev pub keeps : String → Step → Bool
keeps session_id (enter_session r hub) = not (session_id == r.session_id)
keeps session_id (close_session_step other dropped) = not (session_id == other)
keeps session_id _ = true
