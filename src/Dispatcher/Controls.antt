-- ===== src/Dispatcher/Controls.antt =====
-- Admission and control of sessions: `submit`, `get`, `list`, `subscribe`, `pause`, `resume`,
-- `cancel`, `close` (namisync/dispatcher/dispatcher.py).
use nami_sync.Base.{
  Bool, true, false, not, ◌&&◌, String, List, [], ◌∷◌, ◌++◌, ℕ, ◌+◌, ◌-◌, Option, none, some, ◌==◌,
  contains, string_eq, Result, ok, err, ◌>>◌, ◌>>=◌, if◌then◌else◌,
}
use nami_sync.Base.Dict.{get, put, remove}
use nami_sync.Base.Lists.{keep}
use nami_sync.Evidence.{Datetime}
use nami_sync.Session.{SessionState, state_eq, is_terminal, Exn}
use nami_sync.Session.Records.{
  SessionRecord, ResourceId, resource_eq, resource_ltb, make_record, Bytes,
}
use nami_sync.Contracts.{ControlCode, ControlAction, ControlResult, control_decision}
use nami_sync.Bus.Stream.{EventStream}
use nami_sync.Bus.Hub
use nami_sync.Bus.Hub.{EventHub, open_hub}
use nami_sync.Dispatcher.{
  Dispatcher, Answers, Control, new_control, request_pause, request_cancel, reset, lookup,
  transition_locked, announce, is_settled, check_now,
}
use nami_sync.Dispatcher.Store.{values, sort_by_order}

-- `PreparedSession`, which a workflow's `prepare` returns; its resources are a frozenset.
pub record PreparedSession : Type 0 where
  pub payload : Bytes
  pub resources : List ResourceId

-- `sorted` on a set of resources.
unfoldable pub insert_resource : ResourceId → List ResourceId → List ResourceId
insert_resource a [] = a ∷ []
insert_resource a (b ∷ sorted) =
    let rest = insert_resource a sorted in
    if resource_ltb b a then b ∷ rest else if a == b then b ∷ sorted else a ∷ b ∷ sorted

unfoldable pub sort_resources : List ResourceId → List ResourceId
unfolding insert_resource
sort_resources [] = []
sort_resources (a ∷ resources) = insert_resource a (sort_resources resources)

-- The capacities that the dispatcher hands to its hubs.
pub record Capacities : Type 0 where
  pub replay : ℕ
  pub subscriber : ℕ
  pub audit : ℕ

-- The first block of `submit`: is the dispatcher accepting, and is the kind registered?
unfoldable pub begin_submit : String → Bool → Dispatcher → Dispatcher × Result Exn (Unit {0})
begin_submit kind is_registered d =
    if not d.accepting
    then (d, err (Exn.other "AdmissionClosed" "dispatcher is no longer accepting sessions"))
    else if is_registered
    then (record d { admitting = d.admitting + 1 }, ok tt)
    else (d, err (Exn.other "UnknownWorkflowKind" kind))

-- The block of `_admit` that hands out the admission order.
unfoldable pub take_order : Dispatcher → Dispatcher × ℕ
take_order d = (record d { admission_order = d.admission_order + 1 }, d.admission_order)

-- The record that `_admit` builds; `session_id` is a fresh `uuid4`.
unfoldable pub new_record :
    String → String → PreparedSession → Bool → ℕ → Datetime → Result Exn SessionRecord
new_record session_id kind prepared supports_pause admission_order now =
    check_now now >>= λ created_at. make_record (record {
      session_id = session_id;
      kind = kind;
      state = SessionState.pending;
      resources = sort_resources prepared.resources;
      payload = prepared.payload;
      supports_pause = supports_pause;
      admission_order = admission_order;
      created_at = created_at;
      started_at = none;
      ended_at = none;
      result = none;
    })

-- The block of `_admit` that enters the session, unless the dispatcher has stopped. The store has
-- taken the record by then, and gives it up again if not.
unfoldable pub enter : SessionRecord → EventHub → Dispatcher → Dispatcher × Result Exn String
enter r hub d =
    if d.accepting
    then (
      record d {
        records = put r.session_id r d.records;
        controls = put r.session_id new_control d.controls;
        hubs = put r.session_id hub d.hubs;
        item_events = put r.session_id [] d.item_events;
        pending = d.pending ++ r.session_id ∷ [];
      },
      ok r.session_id,
    )
    else (d, err (Exn.other "AdmissionClosed" "dispatcher stopped during admission"))

-- `finally` in `submit`
unfoldable pub end_submit : Dispatcher → Dispatcher
end_submit d = record d { admitting = d.admitting - 1 }

-- `get`
unfoldable pub get_session : String → Dispatcher → Result Exn SessionRecord
get_session session_id d = elim (get session_id d.records) [
  | none ↦ err (Exn.other "SessionNotFound" session_id)
  | some r ↦ ok r
]

-- `list`, with the query that `None` stands for being true everywhere
unfoldable pub list : (SessionRecord → Bool) → Dispatcher → List SessionRecord
list query d = keep query (sort_by_order (values d.records))

-- `subscribe`
unfoldable pub subscribe_to :
    String → Option ℕ → Datetime → Dispatcher → Result Exn (Dispatcher × EventStream)
subscribe_to session_id from_seq now d = elim (get session_id d.hubs) [
  | none ↦ err (Exn.other "SessionNotFound" session_id)
  | some hub ↦ Hub.subscribe from_seq now hub >>= λ (hub', stream).
      ok (record d { hubs = put session_id hub' d.hubs }, stream)
]

abbrev answer_control :
    ControlCode → String → Option SessionState → Option SessionState → ControlResult
answer_control code session_id before after = record {
  code = code;
  session_id = session_id;
  before = before;
  after = after;
}

-- `_missing_control`
abbrev pub missing_control : String → ControlResult
missing_control session_id = answer_control ControlCode.not_found session_id none none

-- `_illegal_control`
abbrev pub illegal_control : SessionRecord → ControlResult
illegal_control r =
    answer_control ControlCode.illegal_state r.session_id (some r.state) (some r.state)

-- The answers of `pause` to a decision other than `ACCEPTED`.
abbrev pub denied_pause : ControlCode → String → SessionRecord → ControlResult
denied_pause ControlCode.unsupported session_id r =
    answer_control ControlCode.unsupported session_id (some r.state) (some r.state)
denied_pause _ session_id r = illegal_control r

-- `self._controls[session_id].request()`
unfoldable pub signal : (Control → Control) → String → Dispatcher → Result Exn Dispatcher
signal request session_id d = lookup session_id d.controls >>= λ control.
    ok (record d { controls = put session_id (request control) d.controls })

abbrev pub enqueue : Bool → String → Dispatcher → Dispatcher
enqueue true session_id d = record d { pending = d.pending ++ session_id ∷ [] }
enqueue false session_id d = d

-- What a granted request does once it is signalled: the transition, its place in the queue, and
-- then the event.
unfoldable pub grant :
    String
    → SessionState
    → Bool
    → SessionRecord
    → Answers
    → Dispatcher
    → Dispatcher × Result Exn ControlResult
grant session_id state queued r answers d =
    let (d', answer) = transition_locked session_id state none answers d in
    elim answer [
      | err e ↦ (d', err e)
      | ok updated ↦
          let (d'', emitted) =
            announce session_id updated.state answers (enqueue queued session_id d') in
          (
            d'',
            emitted
                >> ok (
                    answer_control ControlCode.accepted session_id (some r.state)
                      (some updated.state)),
          )
    ]

abbrev pub signalled :
    (Control → Control)
    → String
    → (Dispatcher → Dispatcher × Result Exn ControlResult)
    → Dispatcher
    → Dispatcher × Result Exn ControlResult
signalled request session_id rest d = elim (signal request session_id d) [
  | err e ↦ (d, err e)
  | ok d' ↦ rest d'
]

abbrev pub is_accepted : ControlCode → Bool
is_accepted ControlCode.accepted = true
is_accepted _ = false

-- `pause`
unfoldable pub pause : String → Answers → Dispatcher → Dispatcher × Result Exn ControlResult
pause session_id answers d = elim (get session_id d.records) [
  | none ↦ (d, ok (missing_control session_id))
  | some r ↦
      let decision = control_decision ControlAction.pause r.state r.supports_pause in
      if is_accepted decision
      then signalled request_pause session_id
          (grant session_id SessionState.pausing false r answers) d
      else (d, ok (denied_pause decision session_id r))
]

-- `resume`
unfoldable pub resume : String → Answers → Dispatcher → Dispatcher × Result Exn ControlResult
resume session_id answers d = elim (get session_id d.records) [
  | none ↦ (d, ok (missing_control session_id))
  | some r ↦
      let decision = control_decision ControlAction.resume r.state r.supports_pause in
      if is_accepted decision
      then signalled reset session_id (grant session_id SessionState.pending true r answers) d
      else (d, ok (illegal_control r))
]

-- Whether `cancel` puts the session into the queue.
abbrev pub joins_queue : String → SessionRecord → List String → Bool
joins_queue session_id r pending =
    contains (SessionState.pending ∷ SessionState.paused ∷ SessionState.interrupted ∷ []) r.state
    && not (contains pending session_id)

-- What a granted `cancel` does once it is signalled: a pausing session drains first.
unfoldable pub cancel_signalled :
    String → SessionRecord → Answers → Dispatcher → Dispatcher × Result Exn ControlResult
cancel_signalled session_id r answers d =
    if r.state == SessionState.pausing
    then (d, ok (answer_control ControlCode.accepted session_id (some r.state) (some r.state)))
    else grant session_id SessionState.canceling (joins_queue session_id r d.pending) r answers d

-- `cancel`
unfoldable pub cancel : String → Answers → Dispatcher → Dispatcher × Result Exn ControlResult
cancel session_id answers d = elim (get session_id d.records) [
  | none ↦ (d, ok (missing_control session_id))
  | some r ↦
      let decision = control_decision ControlAction.cancel r.state r.supports_pause in
      if is_accepted decision
      then signalled request_cancel session_id (cancel_signalled session_id r answers) d
      else (d, ok (illegal_control r))
]

-- `close`: the session's hub leaves the tables, to be closed. `dropped` is what the store's `drop` raises.
unfoldable pub close_session : String → Option Exn → Dispatcher → Dispatcher × Result Exn (Unit {0})
close_session session_id dropped d = elim (get session_id d.records) [
  | none ↦ (d, err (Exn.other "SessionNotFound" session_id))
  | some r ↦
      if not (is_settled r)
      then (d, err (Exn.other "SessionNotTerminal" session_id))
      else elim dropped [
        | some e ↦ (d, err e)
        | none ↦ (
          record d {
            hubs = remove session_id d.hubs;
            records = remove session_id d.records;
            controls = remove session_id d.controls;
            item_events = remove session_id d.item_events;
          },
          ok tt,
        )
      ]
]

-- The first block of `shutdown`: no more sessions, and the ones that it then cancels.
unfoldable pub stop_accepting : Dispatcher → Dispatcher × List SessionRecord
stop_accepting d =
    (record d { accepting = false }, keep (λ r. not (is_terminal r.state)) (values d.records))
