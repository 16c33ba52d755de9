-- ===== src/Session/Results.antt =====
-- Terminal truth of a session, `OperationResult`, and the checks of its constructor
-- (namisync/core/session.py; the items it carries are from namisync/core/events.py).
use nami_sync.Base.{
  ◌≡◌, Bool, true, false, not, ◌&&◌, ◌||◌, String, List, Option, Eq, ◌==◌, Result, ok, raise_if,
  ◌>>◌, ℤ, ltz, is_negative, arith,
}
use nami_sync.Evidence.{Outcome, RecordingStatus}
use nami_sync.Session.{SessionState, state_eq, is_terminal, Exn, Disposition, FailureDetail}

abbrev pub is_empty : String → Bool
is_empty String.[] = true
is_empty (String.◌∷◌ c s) = false

-- `detail` maps names to presentation values, given here by their texts.
pub record ItemOutcome : Type 0 where
  pub item_id : String
  pub kind : String
  pub path : String
  pub outcome : Outcome
  pub reason : Option String
  pub detail : List (String × String)

-- `ItemOutcome.__post_init__`
unfoldable pub make_item_outcome : ItemOutcome → Result Exn ItemOutcome
make_item_outcome item = do
  raise_if (is_empty item.item_id || is_empty item.kind)
      (Exn.value_error "item_id and kind must be non-empty")
  ok item

-- An event body of another class, seen only through `hasattr`.
pub record ForeignBody : Type 0 where
  pub class_name : String
  pub has_item_id : Bool
  pub has_path : Bool

-- What `run_session` collects in `items`.
pub data Item : Type 0 where
  planned : ItemOutcome → Item
  foreign : ForeignBody → Item

pub record OperationResult : Type 0 where
  pub status : SessionState
  pub recording : RecordingStatus
  pub audit : RecordingStatus
  pub disposition : Disposition
  pub canceled : Bool
  pub operations : List Item
  pub bytes_done : ℤ
  pub bytes_total : ℤ
  pub error : Option FailureDetail

Disposition_dec : Discrete Disposition
Disposition_dec = hlevel

instance unfoldable pub disposition_eq : Eq Disposition
unfolding Disposition_dec
disposition_eq = record { dec = Disposition_dec }

abbrev pub bool_ne : Bool → Bool → Bool
bool_ne true b = not b
bool_ne false b = b

-- `OperationResult.__post_init__`, which `replace` runs again.
unfoldable pub make_result : OperationResult → Result Exn OperationResult
unfolding is_terminal state_eq disposition_eq
make_result r = do
  raise_if (not (is_terminal r.status)) (Exn.value_error "operation result status must be terminal")
  raise_if (is_negative r.bytes_done || is_negative r.bytes_total)
      (Exn.value_error "result byte counts cannot be negative")
  raise_if (ltz r.bytes_total r.bytes_done) (Exn.value_error "bytes_done cannot exceed bytes_total")
  raise_if (bool_ne r.canceled (r.status == SessionState.canceled))
      (Exn.value_error "canceled must agree with the terminal status")
  raise_if (r.status == SessionState.refused && not (r.disposition == Disposition.unrun))
      (Exn.value_error "refused sessions must have unrun disposition")
  ok r

-- What a result that the constructor lets through satisfies.
pub record IsResult (r : OperationResult) : Type 0 where
  pub ended : is_terminal r.status ≡ true
  pub done_counted : is_negative r.bytes_done ≡ false
  pub total_counted : is_negative r.bytes_total ≡ false
  pub within_total : ltz r.bytes_total r.bytes_done ≡ false
  pub canceled_agrees : r.canceled ≡ (r.status == SessionState.canceled)
  pub refused_unrun : r.status ≡ SessionState.refused → r.disposition ≡ Disposition.unrun

pub make_result_sound : (r r' : OperationResult) → make_result r ≡ ok r' → (r' ≡ r) × IsResult r
unfolding make_result
make_result_sound r r' h = ground arith

pub make_result_complete : (r : OperationResult) → IsResult r → make_result r ≡ ok r
unfolding make_result
make_result_complete r v = ground arith
