-- ===== src/Integrity/Vocabulary.antt =====
-- The words of an integrity run (namisync/core/integrity.py) and content evidence
-- (namisync/core/evidence.py).
use nami_sync.Base.{
  Bool, true, false, not, ◌&&◌, String, List, ℕ, Option, Result, ok, raise_if, ◌>>◌, Eq, ◌==◌,
  option_eq, none, some,
}
use nami_sync.Base.Lists.{length}
use nami_sync.Evidence.{Datetime, is_aware, is_utc, Provenance, RecordingStatus}
use nami_sync.Models.{FileStat, entry_kind_eq, identity_eq}
use nami_sync.Paths.{Text, PathError, text_eq, code_eq}
use nami_sync.Session.{Exn}

pub data InventoryState : Type 0 where
  present missing unsupported : InventoryState

pub data IntegrityResult : Type 0 where
  verified baselined mismatched modified missing unsupported canceled error : IntegrityResult

IntegrityResult_dec : Discrete IntegrityResult
IntegrityResult_dec = hlevel

instance unfoldable pub result_eq : Eq IntegrityResult
unfolding IntegrityResult_dec
result_eq = record { dec = IntegrityResult_dec }

pub data IntegrityMode : Type 0 where
  baseline verify rebaseline : IntegrityMode

pub data IntegrityReason : Type 0 where
  path_invalid inventory_missing inventory_unsupported not_found unsupported_read stat_changed
        read_drift hash_mismatch baseline_exists read_error recording_stale recording_conflict
        recording_error canceled :
      IntegrityReason

pub data ReadStrategy : Type 0 where
  windows_unbuffered : ReadStrategy

pub data RecordDisposition : Type 0 where
  applied noop stale conflict : RecordDisposition

-- `ContentEvidence`; its algorithm is sha256. A digest is the list of its bytes.
pub record ContentEvidence : Type 0 where
  pub digest : List ℕ
  pub size : ℕ
  pub provenance : Provenance
  pub observed_at : Datetime

-- `ContentEvidence.__post_init__`
unfoldable pub make_content : ContentEvidence → Result Exn ContentEvidence
unfolding code_eq
make_content content = do
  raise_if (not (length content.digest == 32))
      (Exn.value_error "sha256 digest must contain exactly 32 bytes")
  raise_if (not (is_aware content.observed_at))
      (Exn.value_error "observed_at must be timezone-aware")
  raise_if (not (is_utc content.observed_at)) (Exn.value_error "observed_at must be UTC")
  ok content

pub record Attestation : Type 0 where
  pub content : ContentEvidence
  pub subject : FileStat

pub record IntegrityRecordCommand : Type 0 where
  pub mode : IntegrityMode
  pub item_id : String
  pub row_id : String
  pub location_id : String
  pub rel_path_key : Text
  pub scope_token : String
  pub expected_state : InventoryState
  pub expected_stat : FileStat
  pub expected_baseline : Option Attestation
  pub attestation : Attestation
  pub advances_last_verified : Bool
  pub clear_reappeared : Bool

abbrev is_present_state : InventoryState → Bool
is_present_state InventoryState.present = true
is_present_state state = false

abbrev pub is_verify : IntegrityMode → Bool
is_verify IntegrityMode.verify = true
is_verify mode = false

abbrev is_baseline : IntegrityMode → Bool
is_baseline IntegrityMode.baseline = true
is_baseline mode = false

abbrev pub is_given {ℓ} : {A : Type ℓ} → Option A → Bool
is_given none = false
is_given (some a) = true

abbrev same_bool : Bool → Bool → Bool
same_bool true b = b
same_bool false b = not b

-- `IntegrityRecordCommand.__post_init__`
unfoldable pub make_command : IntegrityRecordCommand → Result Exn IntegrityRecordCommand
unfolding entry_kind_eq code_eq identity_eq option_eq
make_command command =
    let subject = command.attestation.subject in
    let expected = command.expected_stat in
    do
      raise_if (not (is_present_state command.expected_state))
          (Exn.value_error "integrity evidence can be recorded only for present rows")
      raise_if
          (not (
            subject.kind == expected.kind
            && subject.size == expected.size
            && subject.mtime_ns == expected.mtime_ns
            && subject.file_identity == expected.file_identity))
          (Exn.value_error "new attestation must match the guarded kind/size/mtime/identity")
      raise_if (is_baseline command.mode && is_given command.expected_baseline)
          (Exn.value_error "baseline commands require no established evidence")
      raise_if (is_verify command.mode && not (is_given command.expected_baseline))
          (Exn.value_error "verification commands require established evidence")
      raise_if (not (same_bool command.advances_last_verified (is_verify command.mode)))
          (Exn.value_error "only a prior-evidence verification match advances time")
      ok command

-- What a detail says: `_error_detail` of an exception from outside, the path error, a key that is
-- not the path's, the exception of a constructor, or how many bytes were read of how many.
pub data IntegrityDetail : Type 0 where
  of_error : String → IntegrityDetail
  of_path : PathError → IntegrityDetail
  key_mismatch : IntegrityDetail
  of_exn : Exn → IntegrityDetail
  short_read : ℕ → ℕ → IntegrityDetail

pub record IntegrityOutcome : Type 0 where
  pub item_id : String
  pub row_id : String
  pub location_id : String
  pub path : Text
  pub result : IntegrityResult
  pub reason : Option IntegrityReason
  pub detail : Option IntegrityDetail
  pub read_strategy : Option ReadStrategy
  pub recording : RecordingStatus
  pub record_disposition : Option RecordDisposition
