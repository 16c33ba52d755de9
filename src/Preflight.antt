-- ===== src/Preflight.antt =====
-- Preflight: the pure judgment of an execution set against an observed world
-- (namisync/core/preflight.py and namisync/modules/preflight.py). Refusals keep the order in which
-- they are found, and their texts are left out; the code then removes duplicates and sorts.
-- `upper` is Unicode's uppercase table; `OsPath` is what is used of Python's `os.path`.
pub mod Judging
use nami_sync.Base.{
  Bool, true, false, not, ◌&&◌, ◌||◌, String, List, [], ◌∷◌, ◌++◌, ℕ, ◌+◌, ◌-◌, Option, none, some,
  Eq, ◌==◌, contains, string_eq, option_eq, ltb, if◌then◌else◌,
}
use nami_sync.Base.Dict.{Dict, get}
use nami_sync.Base.Lists.{any, keep}
use nami_sync.Evidence.{Outcome, outcome_eq, Datetime}
use nami_sync.Models.{
  EntryKind, entry_kind_eq, FileStat, VolumeId, VolumeEvidence, volume_eq, identity_eq, metadata_eq,
  CapabilityProfile,
}
use nami_sync.Paths.{Text, text_eq, path_key}
use nami_sync.Planning.{
  Plan, PlanOperation, OperationKind, kind_eq, FilterSet, filter_eq, is_blocked, op_ids, is_some,
  calculate_required_bytes, quarantined_operation_ids,
}
use nami_sync.Execution.{ExecutionSet, remaining}

-- `normcase`, `abspath` and `commonpath`; the last raises on paths of two drives.
pub record OsPath : Type 0 where
  pub normcase : Text → Text
  pub abspath : Text → Text
  pub commonpath : Text → Text → Option Text

-- `_paths_overlap`
unfoldable pub paths_overlap : OsPath → Text → Text → Bool
paths_overlap os first second =
    let first_norm = os.normcase (os.abspath first) in
    let second_norm = os.normcase (os.abspath second) in
    elim (os.commonpath first_norm second_norm) [
      | none ↦ false
      | some common ↦ contains (first_norm ∷ second_norm ∷ []) (os.normcase common)
    ]

pub record Subject : Type 0 where
  pub root_id : String
  pub rel_path_key : Text

Subject_dec : Discrete Subject
Subject_dec = hlevel (string_eq.dec, text_eq.dec)

instance unfoldable pub subject_eq : Eq Subject
unfolding Subject_dec
subject_eq = record { dec = Subject_dec }

pub record StatObservation : Type 0 where
  pub stat : Option FileStat
  pub error : Option String
  pub contained : Bool
  pub representable : Bool

pub record RootObservation : Type 0 where
  pub resolved_path : Option Text
  pub volume_id : Option VolumeId
  pub volume_evidence : Option VolumeEvidence
  pub error : Option String

pub record TrashObservation : Type 0 where
  pub resolved_path : Option Text
  pub available : Bool
  pub contained : Bool
  pub same_volume : Bool
  pub writable : Bool
  pub reparse_safe : Bool
  pub error : Option String

pub record ObservedWorld : Type 0 where
  pub stats : Dict Subject StatObservation
  pub paths : Dict Subject Text
  pub target_parent_paths : List Text
  pub roots : Dict String RootObservation
  pub free_space : Option ℕ
  pub reclaimable_temp_bytes : ℕ
  pub trash : Option TrashObservation
  pub current_filters : FilterSet
  pub current_policy_fingerprint : String
  pub observed_at : Datetime
  pub settings_error : Option String

pub data RefusalCode : Type 0 where
  incomplete_source_scan incomplete_target_scan root_unavailable root_changed roots_overlap
        volume_clone_ambiguous selection_not_closed operation_blocked blocked_correspondence
        dependency_unavailable observation_unavailable source_drift target_drift
        destination_appeared type_changed identity_changed size_changed mtime_changed
        metadata_changed filter_drift options_drift insufficient_space trash_unavailable
        trash_escape trash_off_volume trash_not_writable trash_reparse path_escape
        path_unrepresentable :
      RefusalCode

pub record Refusal : Type 0 where
  pub code : RefusalCode
  pub op_id : Option String
  pub subject : Option Subject

-- `if test: refusals.append(refusal)`
abbrev pub refuse_if : Bool → Refusal → List Refusal
refuse_if true refusal = refusal ∷ []
refuse_if false refusal = []

abbrev pub general : RefusalCode → Refusal
general code = record { code = code; op_id = none; subject = none }

abbrev pub for_operation : RefusalCode → PlanOperation → Refusal
for_operation code operation = record { code = code; op_id = some operation.op_id; subject = none }

abbrev pub for_subject : RefusalCode → PlanOperation → Subject → Refusal
for_subject code operation subject = record {
  code = code;
  op_id = some operation.op_id;
  subject = some subject;
}

-- `abs(a - b) > granularity`
abbrev pub is_farther : ℕ → ℕ → ℕ → Bool
is_farther granularity a b = ltb granularity ((a - b) + (b - a))

-- `_add_stat_refusals`, the comparison of two stats
unfoldable pub compare_stats : PlanOperation → Subject → ℕ → FileStat → FileStat → List Refusal
compare_stats operation subject granularity_ns expected actual =
    refuse_if (not (actual.kind == expected.kind))
      (for_subject RefusalCode.type_changed operation subject)
    ++ refuse_if
        (is_some expected.file_identity && not (actual.file_identity == expected.file_identity))
        (for_subject RefusalCode.identity_changed operation subject)
    ++ refuse_if (ltb actual.size expected.size || ltb expected.size actual.size)
        (for_subject RefusalCode.size_changed operation subject)
    ++ refuse_if (is_farther granularity_ns actual.mtime_ns expected.mtime_ns)
        (for_subject RefusalCode.mtime_changed operation subject)
    ++ refuse_if
        (not (actual.metadata == expected.metadata)
          || ltb actual.nlink expected.nlink
          || ltb expected.nlink actual.nlink)
        (for_subject RefusalCode.metadata_changed operation subject)

abbrev pub judge_stat :
    PlanOperation → Subject → Bool → ℕ → Option FileStat → Option FileStat → List Refusal
judge_stat operation subject source_subject granularity_ns none none = []
judge_stat operation subject source_subject granularity_ns none (some actual) =
    for_subject RefusalCode.destination_appeared operation subject ∷ []
judge_stat operation subject source_subject granularity_ns (some expected) none =
    for_subject (if source_subject then RefusalCode.source_drift else RefusalCode.target_drift)
      operation subject
    ∷ []
judge_stat operation subject source_subject granularity_ns (some expected) (some actual) =
    compare_stats operation subject granularity_ns expected actual

abbrev pub is_unobserved : Option StatObservation → Bool
is_unobserved none = true
is_unobserved (some observation) = is_some observation.error

-- `_add_stat_refusals`
unfoldable pub stat_refusals :
    PlanOperation → Subject → Option StatObservation → Option FileStat → Bool → ℕ → List Refusal
stat_refusals operation subject none expected source_subject granularity_ns =
    for_subject RefusalCode.observation_unavailable operation subject ∷ []
stat_refusals operation subject (some observation) expected source_subject granularity_ns =
    if is_some observation.error
    then for_subject RefusalCode.observation_unavailable operation subject ∷ []
    else refuse_if (not observation.contained)
        (for_subject RefusalCode.path_escape operation subject)
      ++ refuse_if (not observation.representable)
          (for_subject RefusalCode.path_unrepresentable operation subject)
      ++ judge_stat operation subject source_subject granularity_ns expected observation.stat
