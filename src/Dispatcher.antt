-- ===== src/Dispatcher.antt =====
-- The dispatcher's tables and the operations that its methods share
-- (namisync/dispatcher/dispatcher.py). Each `with self._condition` block is one step on the state.
-- What a step asks of the clock and the store is an argument: what they answered.
pub mod Store
pub mod Scheduling
pub mod Controls
pub mod Workers
pub mod Steps
pub mod Following
pub mod Keeping
pub mod Working
pub mod Running
pub mod Answering
pub mod Releasing
pub mod Transitions
use nami_sync.Base.{
  ◌≡◌, Bool, true, false, not, ◌&&◌, ◌||◌, String, List, [], ◌∷◌, ◌++◌, ℕ, Option, none, some, Eq,
  ◌==◌, contains, string_eq, Result, ok, err, raise_if, ◌>>◌, ◌>>=◌, if◌then◌else◌,
}
use nami_sync.Base.Dict.{Dict, get, put, remove}
use nami_sync.Base.Lists.{keep}
use nami_sync.Evidence.{Datetime, is_utc}
use nami_sync.Session.{SessionState, state_eq, is_terminal, Exn, require_transition, Disposition}
use nami_sync.Session.Results.{OperationResult, Item}
use nami_sync.Session.Records.{
  SessionRecord, ResourceId, resource_eq, make_record, has_value, Bytes,
}
use nami_sync.Events.{EventBody}
use nami_sync.Bus.Hub
use nami_sync.Bus.Hub.{EventHub}

-- `_Control`
pub record Control : Type 0 where
  pub pause : Bool
  pub cancel : Bool

abbrev pub new_control : Control
new_control = record { pause = false; cancel = false }

abbrev pub request_pause : Control → Control
request_pause control = record control { pause = true }

abbrev pub request_cancel : Control → Control
request_cancel control = record control { cancel = true }

abbrev pub reset : Control → Control
reset control = record control { pause = false; cancel = false }

abbrev pub cancel_requested : Control → Bool
cancel_requested control = control.cancel

-- `checkpoint`: cancellation goes first.
unfoldable pub checkpoint : Control → Result Exn (Unit {0})
checkpoint control = do
  raise_if control.cancel Exn.cancel_signal
  raise_if control.pause Exn.pause_signal

-- A lease is the resources that it gives back. Failures are counted by their exceptions.
pub record Dispatcher : Type 0 where
  pub records : Dict String SessionRecord
  pub controls : Dict String Control
  pub hubs : Dict String EventHub
  pub item_events : Dict String (List Item)
  pub pending : List String
  pub reserved : List ResourceId
  pub leases : Dict String (List ResourceId)
  pub workers : List String
  pub admitting : ℕ
  pub admission_order : ℕ
  pub accepting : Bool
  pub store_failures : List Exn
  pub custody_failures : List Exn

-- What the clock and the store answer to one step: the time of the transition, the time of the
-- event, and what `put` raises.
pub record Answers : Type 0 where
  pub now : Datetime
  pub emitted_at : Datetime
  pub stored : Option Exn

-- `_now`
abbrev pub check_now : Datetime → Result Exn Datetime
check_now value = do
  raise_if (not (is_utc value)) (Exn.value_error "clock must return UTC")
  ok value

abbrev pub key_error : String → Exn
key_error key = Exn.other "KeyError" key

abbrev pub lookup {ℓ} : {A : Type ℓ} → String → Dict String A → Result Exn A
lookup key table = elim (get key table) [ none ↦ err (key_error key) | some a ↦ ok a ]

-- `_persist_locked`
abbrev pub persist_locked : Option Exn → Dispatcher → Dispatcher
persist_locked none d = d
persist_locked (some e) d = record d { store_failures = d.store_failures ++ e ∷ [] }

-- `self._records[session_id] = updated`, then `_persist_locked`.
abbrev pub put_record : String → SessionRecord → Answers → Dispatcher → Dispatcher
put_record session_id updated answers d =
    persist_locked answers.stored (record d { records = put session_id updated d.records })

-- The fields that a transition sets.
abbrev pub in_state :
    SessionState → Option OperationResult → Datetime → SessionRecord → SessionRecord
in_state state result now r = record r {
  state = state;
  started_at =
      if state == SessionState.running && not (has_value r.started_at)
      then some now
      else r.started_at;
  ended_at = if is_terminal state then some now else none;
  result = result;
}

-- What `_transition_locked` makes of the record.
unfoldable pub transitioned :
    SessionState → Option OperationResult → Datetime → SessionRecord → Result Exn SessionRecord
transitioned state result now r = do
  require_transition r.state state
  time ← check_now now
  make_record (in_state state result time r)

-- `_transition_locked`. The lookup of the hub comes last: if it raises, the tables have changed.
unfoldable pub transition_locked :
    String
    → SessionState
    → Option OperationResult
    → Answers
    → Dispatcher
    → Dispatcher × Result Exn SessionRecord
unfolding transitioned
transition_locked session_id state result answers d =
    elim (lookup session_id d.records >>= λ r. transitioned state result answers.now r) [
      | err e ↦ (d, err e)
      | ok updated ↦
          let d' = put_record session_id updated answers d in
          (d', lookup session_id d'.hubs >>= λ hub. ok updated)
    ]

-- `hub.emit(StateChanged(state))`, after the lock is given back.
unfoldable pub announce :
    String → SessionState → Answers → Dispatcher → Dispatcher × Result Exn (Unit {0})
announce session_id state answers d = elim (get session_id d.hubs) [
  | none ↦ (d, ok tt)
  | some hub ↦
      let (hub', outcome) = Hub.emit (EventBody.state_changed state) answers.emitted_at hub in
      (record d { hubs = put session_id hub' d.hubs }, outcome >>= λ _. ok tt)
]

-- `_is_settled`
abbrev pub is_settled : SessionRecord → Bool
is_settled r = is_terminal r.state && has_value r.result

-- `_disposition`
abbrev pub disposition_of : SessionRecord → Disposition
disposition_of r = if has_value r.started_at then Disposition.ran else Disposition.unrun

-- `set.difference_update` on a set given by its elements.
abbrev pub without : List ResourceId → List ResourceId → List ResourceId
without gone = keep (λ resource. not (contains gone resource))

abbrev pub without_lease : String → Dict String (List ResourceId) → Dict String (List ResourceId)
without_lease session_id leases = remove session_id leases

abbrev pub resources_of : Option SessionRecord → List ResourceId
resources_of none = []
resources_of (some r) = r.resources

-- `_release_custody`; `failure` is what the lease's `release` raises.
unfoldable pub release_custody : String → Option Exn → Dispatcher → Dispatcher
release_custody session_id failure d = record d {
  leases = without_lease session_id d.leases;
  custody_failures = elim (get session_id d.leases) [
    | none ↦ d.custody_failures
    | some lease ↦ elim failure [
      | none ↦ d.custody_failures
      | some e ↦ d.custody_failures ++ e ∷ []
    ]
  ];
  reserved = without (resources_of (get session_id d.records)) d.reserved;
}
