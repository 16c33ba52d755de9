-- ===== src/Dispatcher/Workers.antt =====
-- What a session's worker does to the tables: `_run_worker`, `_run_core`, `_settle`,
-- `_publish_result`, `_replace_payload`, `_worker_done` (namisync/dispatcher/dispatcher.py).
pub mod Pausing
use nami_sync.Base.{
  Bool, true, false, not, ◌&&◌, String, List, [], ◌∷◌, ◌++◌, Option, none, some, Eq, ◌==◌, Result,
  ok, err, ◌>>◌, ◌>>=◌, if◌then◌else◌, string_eq,
}
use nami_sync.Base.Dict.{get, put, remove}
use nami_sync.Base.Lists.{keep}
use nami_sync.Session.{SessionState, state_eq, is_terminal, Exn, Disposition}
use nami_sync.Session.Results.{OperationResult}
use nami_sync.Session.Records.{SessionRecord, ResourceId, make_record, Bytes}
use nami_sync.Runner.{Work, return, return_other, raise, emit}
use nami_sync.Dispatcher.{
  Dispatcher, Answers, lookup, transition_locked, announce, put_record, release_custody,
  disposition_of, Control,
}

-- Where a worker is between two of its blocks. `core` is about to call `_run_core`, `ending` is in
-- the `finally`; the first records are those that the worker has read.
pub data Phase : Type 0 where
  starting : Phase
  acquiring : SessionRecord → Phase
  opening : Phase
  core : Option Work → Disposition → Option Exn → Phase
  ending : Phase

abbrev pub is_canceling : SessionRecord → Bool
is_canceling r = r.state == SessionState.canceling

-- `_run_core` without an invocation and without a failure: it raises `Canceled`.
abbrev pub canceled_core : SessionRecord → Phase
canceled_core r = core none (disposition_of r) none

-- The first block, up to the lock provider.
unfoldable pub start_worker : String → Dispatcher → Phase
start_worker session_id d = elim (get session_id d.records) [
  | none ↦ ending
  | some r ↦ if is_canceling r then canceled_core r else acquiring r
]

-- The provider's answer: a lease on the record's resources, or what `acquire` raised.
unfoldable pub acquired :
    String → SessionRecord → Result Exn (List ResourceId) → Dispatcher → Dispatcher × Phase
acquired session_id r (err Exn.cancel_signal) d = (d, canceled_core r)
acquired session_id r (err e) d = (d, core none Disposition.unrun (some e))
acquired session_id r (ok lease) d =
    let d' = record d { leases = put session_id lease d.leases } in
    elim (get session_id d'.records) [
      | none ↦ (d', ending)
      | some current ↦ (d', if is_canceling current then canceled_core current else opening)
    ]

-- The answer of `registration.open`, and the transition to `RUNNING` if no cancel came first. An
-- exception in between ends the worker.
unfoldable pub opened : String → Result Exn Work → Answers → Dispatcher → Dispatcher × Phase
opened session_id (err e) answers d = (d, core none Disposition.unrun (some e))
opened session_id (ok invocation) answers d = elim (get session_id d.records) [
  | none ↦ (d, ending)
  | some current ↦
      if is_canceling current
      then (d, canceled_core current)
      else let (d', answer) = transition_locked session_id SessionState.running none answers d in
        elim answer [
          | err e ↦ (d', ending)
          | ok updated ↦
              let (d'', emitted) = announce session_id updated.state answers d' in
              (
                d'',
                elim emitted [
                  | ok _ ↦ core (some invocation) Disposition.ran none
                  | err e ↦ ending
                ],
              )
        ]
]

-- The handler around `invocation.run`: a pause that the kind does not support is an error.
unfoldable pub pause_guarded : Bool → Work → Work
pause_guarded supports_pause (Work.raise Exn.pause_signal) =
    if supports_pause
    then raise Exn.pause_signal
    else raise (Exn.other "RuntimeError" "registered invocation paused without capability")
pause_guarded supports_pause (Work.raise e) = raise e
pause_guarded supports_pause (Work.return r) = return r
pause_guarded supports_pause Work.return_other = return_other
pause_guarded supports_pause (Work.emit body rest) =
    emit body (λ answer. pause_guarded supports_pause (rest answer))
pause_guarded supports_pause (Work.checkpoint rest) =
    Work.checkpoint (λ answer. pause_guarded supports_pause (rest answer))

-- What `work` does once its checkpoint returned.
abbrev pub admitted_work : Option Work → Option Exn → Bool → Work
admitted_work invocation (some e) supports_pause = raise e
admitted_work none none supports_pause = raise Exn.cancel_signal
admitted_work (some run) none supports_pause = pause_guarded supports_pause run

-- `work` in `_run_core`
unfoldable pub core_work : Option Work → Option Exn → Bool → Work
core_work invocation failure supports_pause = Work.checkpoint (λ answer. elim answer [
  | err e ↦ raise e
  | ok _ ↦ admitted_work invocation failure supports_pause
])

-- The result that a settlement records: a terminal one waits for the audit.
abbrev pub transition_result : SessionState → Option OperationResult → Option OperationResult
transition_result state result = if is_terminal state then none else result

-- `_settle`
unfoldable pub settle_session :
    String
    → SessionState
    → Option OperationResult
    → Option Exn
    → Answers
    → Dispatcher
    → Dispatcher × Result Exn (Unit {0})
settle_session session_id state result failure answers d =
    let d₁ = release_custody session_id failure d in
    let (d₂, answer) =
      transition_locked session_id state (transition_result state result) answers d₁ in
    elim answer [ err e ↦ (d₂, err e) | ok updated ↦ announce session_id updated.state answers d₂ ]

-- `self._records[session_id]`, with `replace` and `_persist_locked`
abbrev pub replace_record :
    (SessionRecord → SessionRecord)
    → String
    → Answers
    → Dispatcher
    → Dispatcher × Result Exn (Unit {0})
replace_record change session_id answers d =
    elim (lookup session_id d.records >>= λ r. make_record (change r)) [
      | err e ↦ (d, err e)
      | ok updated ↦ (put_record session_id updated answers d, ok tt)
    ]

-- `_publish_result`
unfoldable pub publish_result :
    String → OperationResult → Answers → Dispatcher → Dispatcher × Result Exn (Unit {0})
publish_result session_id result =
    replace_record (λ r. record r { result = some result }) session_id

-- `_replace_payload`
unfoldable pub replace_payload :
    String → Bytes → Answers → Dispatcher → Dispatcher × Result Exn (Unit {0})
replace_payload session_id payload = replace_record (λ r. record r { payload = payload }) session_id

-- The last block of `_run_core`, after a run that did not pause.
unfoldable pub end_core : String → Dispatcher → Dispatcher
end_core session_id d = record d { item_events = remove session_id d.item_events }

abbrev pub cancel_is_set : Option Control → Bool
cancel_is_set none = false
cancel_is_set (some control) = control.cancel

abbrev pub is_paused : Option SessionRecord → Bool
is_paused none = false
is_paused (some r) = r.state == SessionState.paused

-- `self._workers.pop(session_id, None)`
abbrev pub without_worker : String → Dispatcher → Dispatcher
without_worker session_id d = record d {
  workers = keep (λ worker. not (worker == session_id)) d.workers;
}

-- `_worker_done`: a cancel that came while the pause drained goes back into the queue.
unfoldable pub worker_done : String → Answers → Dispatcher → Dispatcher × Result Exn (Unit {0})
worker_done session_id answers d =
    let d₁ = without_worker session_id d in
    let (d₂, answer) = transition_locked session_id SessionState.canceling none answers d₁ in
    if is_paused (get session_id d.records) && cancel_is_set (get session_id d.controls)
    then elim answer [
      | err e ↦ (d₂, err e)
      | ok updated ↦
          announce session_id updated.state answers
            (record d₂ { pending = d₂.pending ++ session_id ∷ [] })
    ]
    else (d₁, ok tt)
