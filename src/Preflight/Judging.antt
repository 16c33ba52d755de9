-- ===== src/Preflight/Judging.antt =====
-- The parts of `preflight` in the order of the code (namisync/modules/preflight.py).
pub mod Blameless
pub mod Ready
pub mod Derived
pub mod Cleared
mod Parts
unfoldable pub use Parts.*
use nami_sync.Base.{
  Bool, true, false, not, ◌&&◌, ◌||◌, String, List, [], ◌∷◌, ◌++◌, ℕ, ◌+◌, Option, none, some, Eq,
  ◌==◌, contains, string_eq, option_eq, ltb, if◌then◌else◌,
}
use nami_sync.Base.Dict.{Dict, get}
use nami_sync.Base.Lists.{any}
use nami_sync.Evidence.{Outcome, outcome_eq}
use nami_sync.Models.{EntryKind, entry_kind_eq, FileStat, VolumeId, volume_eq, CapabilityProfile}
use nami_sync.Paths.{Text, text_eq, path_key}
use nami_sync.Planning.{
  Plan, PlanOperation, OperationKind, kind_eq, filter_eq, is_blocked, op_ids, is_some,
  calculate_required_bytes, quarantined_operation_ids,
}
use nami_sync.Execution.{ExecutionSet, remaining}
use nami_sync.Preflight.{
  OsPath, paths_overlap, Subject, subject_eq, StatObservation, RootObservation, TrashObservation,
  ObservedWorld, RefusalCode, Refusal, refuse_if, general, for_operation, stat_refusals,
  is_unobserved,
}

module _ (upper : ℕ → Text) where
  abbrev pub subject_at : String → Text → Subject
  subject_at root_id rel_path = record { root_id = root_id; rel_path_key = path_key upper rel_path }

  -- The stat of the source, of the target, and of the prior target.
  unfoldable pub source_refusals : Plan → ObservedWorld → PlanOperation → List Refusal
  source_refusals plan world operation = elim operation.source_rel_path [
    | none ↦ []
    | some path ↦ elim operation.source_expected [
      | none ↦ []
      | some expected ↦
          let subject = subject_at plan.source_root.root_id path in
          stat_refusals operation subject (get subject world.stats) (some expected) true
            plan.source_profile.mtime_granularity_ns
    ]
  ]

  unfoldable pub target_refusals :
      Plan → ObservedWorld → PlanOperation → Text → Option FileStat → List Refusal
  target_refusals plan world operation path expected =
      let subject = subject_at plan.target_root.root_id path in
      stat_refusals operation subject (get subject world.stats) expected false
        plan.target_profile.mtime_granularity_ns

  unfoldable pub prior_refusals : Plan → ObservedWorld → PlanOperation → List Refusal
  prior_refusals plan world operation = elim operation.prior_target_rel_path [
    | none ↦ []
    | some path ↦ target_refusals plan world operation path operation.prior_target_expected
  ]

  -- One round of the loop over the remaining operations.
  unfoldable pub operation_refusals :
      ExecutionSet → ObservedWorld → List String → PlanOperation → List Refusal
  operation_refusals xset world quarantined operation =
      scan_refusals xset.plan operation
      ++ blocked_refusals quarantined operation
      ++ dependency_refusals xset operation operation.dependencies
      ++ source_refusals xset.plan world operation
      ++ target_refusals xset.plan world operation operation.target_rel_path
          operation.target_expected
      ++ prior_refusals xset.plan world operation

  unfoldable pub all_operation_refusals :
      ExecutionSet → ObservedWorld → List String → List PlanOperation → List Refusal
  all_operation_refusals xset world quarantined [] = []
  all_operation_refusals xset world quarantined (operation ∷ operations) =
      operation_refusals xset world quarantined operation
      ++ all_operation_refusals xset world quarantined operations

  -- `direct_target_subjects` and `created_directory_keys`
  abbrev prior_subjects : Plan → Option Text → List Subject
  prior_subjects plan none = []
  prior_subjects plan (some path) = subject_at plan.target_root.root_id path ∷ []

  unfoldable pub direct_target_subjects : Plan → List PlanOperation → List Subject
  direct_target_subjects plan [] = []
  direct_target_subjects plan (operation ∷ operations) =
      subject_at plan.target_root.root_id operation.target_rel_path
        ∷ prior_subjects plan operation.prior_target_rel_path
      ++ direct_target_subjects plan operations

  unfoldable pub created_directory_keys : List PlanOperation → List Text
  created_directory_keys [] = []
  created_directory_keys (operation ∷ operations) =
      let rest = created_directory_keys operations in
      if operation.kind == OperationKind.mkdir
      then path_key upper operation.target_rel_path ∷ rest
      else rest

  abbrev about : RefusalCode → Subject → Refusal
  about code subject = record { code = code; op_id = none; subject = some subject }

  -- A parent on the target side that no operation names.
  unfoldable pub parent_refusals :
      List Text → Subject → Text → Option StatObservation → List Refusal
  parent_refusals created subject rel_path none =
      about RefusalCode.observation_unavailable subject ∷ []
  parent_refusals created subject rel_path (some observation) =
      if is_some observation.error
      then about RefusalCode.observation_unavailable subject ∷ []
      else refuse_if (not observation.contained) (about RefusalCode.path_escape subject)
        ++ refuse_if (not observation.representable)
            (about RefusalCode.path_unrepresentable subject)
        ++ elim observation.stat [
          | none ↦
              refuse_if (not (contains created (path_key upper rel_path)))
                (about RefusalCode.target_drift subject)
          | some stat ↦
              refuse_if (not (stat.kind == EntryKind.directory))
                (about RefusalCode.type_changed subject)
        ]

  unfoldable pub all_parent_refusals :
      Plan → ObservedWorld → List PlanOperation → List (Subject × Text) → List Refusal
  all_parent_refusals plan world operations [] = []
  all_parent_refusals plan world operations ((subject, rel_path) ∷ paths) =
      (if not (subject.root_id == plan.target_root.root_id)
          || contains (direct_target_subjects plan operations) subject
        then []
        else parent_refusals (created_directory_keys operations) subject rel_path
            (get subject world.stats))
      ++ all_parent_refusals plan world operations paths

  -- `preflight`, up to the removal of duplicates and the order; the verdict is `ok` exactly if
  -- there are none.
  unfoldable pub preflight : OsPath → ExecutionSet → ObservedWorld → List Refusal
  preflight os xset world =
      let plan = xset.plan in
      let operations = remaining xset in
      let source = get plan.source_root.root_id world.roots in
      let target = get plan.target_root.root_id world.roots in
      root_refusals plan.source_volume_id source
      ++ root_refusals plan.target_volume_id target
      ++ refuse_if (overlapping (paths_overlap os) (resolved source) (resolved target))
          (general RefusalCode.roots_overlap)
      ++ drift_refusals plan world
      ++ all_operation_refusals xset world (quarantined_operation_ids upper plan.operations)
          operations
      ++ all_parent_refusals plan world operations world.paths
      ++ space_refusals world.free_space world.reclaimable_temp_bytes
          (calculate_required_bytes operations plan.target_profile plan.trash_on_update 0)
      ++ (if any (uses_trash plan) operations then trash_refusals world.trash else [])
