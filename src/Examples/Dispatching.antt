-- ===== src/Examples/Dispatching.antt =====
-- Custody and the dispatcher at concrete inputs (namisync/dispatcher/custody.py and
-- namisync/dispatcher/dispatcher.py).
use nami_sync.Base.{
  ◌≡◌, refl, true, false, String, List, [], ◌∷◌, ◌++◌, ℕ, none, some, Result, ok, pos, contains,
  string_eq, if◌then◌else◌,
}
use nami_sync.Base.Dict.{get, put}
use nami_sync.Base.Lists.{any}
use nami_sync.Evidence.{Datetime, RecordingStatus}
use nami_sync.Session.{
  SessionState, state_eq, is_terminal, legal_transitions, require_transition, Exn, Disposition,
}
use nami_sync.Session.Results.{OperationResult, make_result}
use nami_sync.Session.Records.{
  SessionRecord, ResourceId, resource_eq, make_record, IsRecord, has_value, string_ltb,
  resource_ltb, is_sorted_set,
}
use nami_sync.Contracts.{ControlCode, ControlAction, control_decision}
use nami_sync.Events.{EventBody, make_envelope}
use nami_sync.Runner.{RunOutcome, Work, run_session, perform, observed_emit, conclude, finish}
use nami_sync.Bus.Hub.{EventHub, emit}
use nami_sync.Bus.Pump.{AuditPump}
use nami_sync.Custody.{
  Provider, Lease, attempts, releases, attempt, release, release_at, act, no_leases,
}
use nami_sync.Custody.Exclusion.{Exclusive, holds, act-Exclusive}
use nami_sync.Dispatcher.{
  Dispatcher, Answers, new_control, transition_locked, transitioned, put_record, announce,
  release_custody,
}
use nami_sync.Dispatcher.Scheduling.{visit, visit_pending, scan_pending, start_scan, schedule}
use nami_sync.Dispatcher.Scheduling.Admission.{visit_admits, asked_in, are_disjoint}
use nami_sync.Dispatcher.Controls.{cancel, cancel_signalled, grant, signal}
use nami_sync.Dispatcher.Workers.{core_work, pause_guarded}
use nami_sync.Dispatcher.Workers.Pausing.{core_pauses, pauses_outside}
use nami_sync.Dispatcher.Steps.{Step, steps}
use nami_sync.Dispatcher.Following.{Follows}
use nami_sync.Dispatcher.Running.{steps-Follows, steps_terminal}
use nami_sync.Dispatcher.Answering.{control, control_answers, state_at}
use nami_sync.Dispatcher.Releasing.{release_custody_unreserves}
use nami_sync.Dispatcher.Transitions.{transition_locked_succeeds}

abbrev disk : String → ResourceId
disk key = record { namespace = "volume"; key = key }

abbrev noon : Datetime
noon = record { instant = 720; utc_offset = some (pos 0) }

abbrev answers : Answers
answers = record { now = noon; emitted_at = noon; stored = none }

abbrev session : String → SessionState → List ResourceId → ℕ → SessionRecord
session session_id state resources order = record {
  session_id = session_id;
  kind = "sync";
  state = state;
  resources = resources;
  payload = [];
  supports_pause = true;
  admission_order = order;
  created_at = noon;
  started_at = none;
  ended_at = if is_terminal state then some noon else none;
  result = none;
}

abbrev first : SessionRecord
first = session "a" SessionState.running (disk "C" ∷ []) 0

abbrev second : SessionRecord
second = session "b" SessionState.pending (disk "C" ∷ disk "D" ∷ []) 1

abbrev third : SessionRecord
third = session "c" SessionState.pending (disk "D" ∷ []) 2

abbrev idle_audit : AuditPump
idle_audit = record {
  capacity = 4;
  queue = [];
  degraded = false;
  closed = false;
  completed = none;
  delivered = [];
}

-- The hub of a session, before any event.
abbrev hub_of : SessionRecord → EventHub
hub_of r = record {
  session_id = r.session_id;
  state = r.state;
  replay_capacity = 3;
  subscriber_capacity = 2;
  replay = [];
  subscribers = [];
  detached = [];
  seq = 0;
  audit = idle_audit;
}

-- The first session runs on C; the second waits for C and D; the third asks for D behind it.
abbrev busy : Dispatcher
busy = record {
  records = ("a", first) ∷ ("b", second) ∷ ("c", third) ∷ [];
  controls = ("a", new_control) ∷ ("b", new_control) ∷ ("c", new_control) ∷ [];
  hubs = ("a", hub_of first) ∷ ("b", hub_of second) ∷ ("c", hub_of third) ∷ [];
  item_events = [];
  pending = "b" ∷ "c" ∷ [];
  reserved = disk "C" ∷ [];
  leases = ("a", disk "C" ∷ []) ∷ [];
  workers = "a" ∷ [];
  admitting = 0;
  admission_order = 3;
  accepting = true;
  store_failures = [];
  custody_failures = [];
}

visit_admits_example :
    let scan = scan_pending busy.records ("b" ∷ []) (start_scan busy) in
    (visit busy.records "c" scan).selected ≡ (
      if are_disjoint (disk "D" ∷ []) (asked_in busy.records ("b" ∷ []) ++ busy.reserved)
      then scan.selected ++ "c" ∷ []
      else scan.selected)
unfolding get string_eq
visit_admits_example = visit_admits busy ("b" ∷ []) "c" third refl refl

schedule_test : (schedule busy).pending ≡ "b" ∷ "c" ∷ []
unfolding schedule scan_pending visit visit_pending get string_eq resource_eq state_eq
schedule_test = refl

abbrev canceled_second : List Step
canceled_second =
    Step.cancel_session "b" answers
    ∷ Step.schedule_pass
    ∷ Step.settle "b" SessionState.canceled none none answers
    ∷ []

steps-Follows_example :
    (r : SessionRecord) × (get "b" (steps canceled_second busy).records ≡ some r) × Follows second r
unfolding get string_eq
steps-Follows_example =
    steps-Follows "b" canceled_second busy second (refl, (refl, (refl, tt))) refl

abbrev over : SessionRecord
over = session "a" SessionState.canceled (disk "C" ∷ []) 0

steps_terminal_example :
    (r : SessionRecord) × (get "a"
        (steps canceled_second (put_record "a" over answers busy)).records
      ≡ some r)
    × (r.state ≡ SessionState.canceled)
unfolding get put string_eq is_terminal
steps_terminal_example =
    steps_terminal "a" canceled_second (put_record "a" over answers busy) over
      (refl, (refl, (refl, tt))) refl refl

control_answers_example :
    (some SessionState.pending ≡ state_at "b" busy)
    × (some SessionState.canceling ≡ state_at "b" (control ControlAction.cancel "b" answers busy).0)
unfolding control cancel cancel_signalled grant signal announce transition_locked transitioned
    control_decision legal_transitions require_transition make_record is_sorted_set resource_ltb
    string_ltb get put string_eq resource_eq state_eq is_terminal emit make_envelope
control_answers_example =
    control_answers ControlAction.cancel "b" answers busy
      (control ControlAction.cancel "b" answers busy).0
      (record {
        code = ControlCode.accepted;
        session_id = "b";
        before = some SessionState.pending;
        after = some SessionState.canceling;
      })
      refl

transition_locked_succeeds_example :
    (updated : SessionRecord) × (transition_locked "b" SessionState.canceling none answers busy
      ≡ (put_record "b" updated answers busy, ok updated))
    × (updated.state ≡ SessionState.canceling)
    × (has_value updated.ended_at ≡ is_terminal SessionState.canceling)
    × IsRecord updated
unfolding get string_eq is_terminal require_transition legal_transitions state_eq is_sorted_set
    resource_ltb string_ltb
transition_locked_succeeds_example =
    transition_locked_succeeds "b" SessionState.canceling none answers busy second (hub_of second)
      refl refl
      (record {
        named = refl;
        ordered = refl;
        created_utc = refl;
        started_utc = refl;
        ended_utc = refl;
        ended_iff = refl;
        agrees = refl;
      })
      refl refl refl

release_custody_unreserves_example :
    let d' = release_custody "b" none busy in
    (get "a" d'.leases ≡ some (disk "C" ∷ [])) × (contains d'.reserved (disk "C") ≡ false)
unfolding get string_eq resource_eq
release_custody_unreserves_example =
    release_custody_unreserves "a" "b" none busy second (disk "C" ∷ []) (disk "C") refl refl refl
      refl (refl, refl)

-- An invocation that raises `PauseRequested` of its own.
abbrev rude : Work
rude = Work.emit (EventBody.phase_changed "copy") (λ answer. Work.raise Exn.pause_signal)

abbrev quiet : ℕ → Result Exn (Unit {0})
quiet n = ok tt

abbrev audited : OperationResult → Result Exn RecordingStatus
audited r = ok RecordingStatus.ok

abbrev refused_pause : OperationResult
refused_pause = record {
  status = SessionState.failed;
  recording = RecordingStatus.ok;
  audit = RecordingStatus.ok;
  disposition = Disposition.ran;
  canceled = false;
  operations = [];
  bytes_done = pos 0;
  bytes_total = pos 0;
  error = some (record {
    type_name = "RuntimeError";
    message = "registered invocation paused without capability";
  });
}

core_pauses_example : false ≡ pauses_outside (quiet 0) none
unfolding run_session perform observed_emit conclude finish core_work pause_guarded is_terminal
    state_eq make_result
core_pauses_example =
    core_pauses (some rude) none quiet audited Disposition.ran []
      (record { paused = false; result = some refused_pause }) refl

-- A pause that the core is given as its failure ends the run as paused.
abbrev given_pause : RunOutcome
given_pause = record { paused = true; result = none }

core_pauses_given :
    (run_session
      (core_work none (some Exn.pause_signal) false)
      quiet
      audited
      Disposition.unrun
      []).1
    ≡ ok given_pause
unfolding run_session perform conclude finish core_work
core_pauses_given = refl

abbrev visits : List nami_sync.Custody.Action
visits =
    attempts (disk "C" ∷ []) false
    ∷ attempts (disk "C" ∷ disk "D" ∷ []) false
    ∷ releases 0
    ∷ releases 0
    ∷ attempts (disk "C" ∷ disk "D" ∷ []) false
    ∷ []

act-Exclusive_example :
    let p = act visits no_leases in
    Exclusive p.leases
    × ((x : ResourceId) → contains p.held x ≡ any (λ lease. holds lease x) p.leases)
act-Exclusive_example = act-Exclusive visits

act_test : (act visits no_leases).held ≡ disk "C" ∷ disk "D" ∷ []
unfolding act attempt release release_at resource_eq string_eq
act_test = refl
