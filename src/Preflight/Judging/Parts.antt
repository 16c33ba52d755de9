-- ===== src/Preflight/Judging/Parts.antt =====
-- The parts of `preflight` that read no path (namisync/modules/preflight.py).
use nami_sync.Base.{
  Bool, false, not, ◌&&◌, ◌||◌, String, List, [], ◌∷◌, ◌++◌, ℕ, ◌+◌, Option, none, some, ◌==◌,
  contains, string_eq, option_eq, ltb, if◌then◌else◌,
}
use nami_sync.Base.Dict.{get}
use nami_sync.Evidence.{Outcome, outcome_eq}
use nami_sync.Models.{entry_kind_eq, VolumeId, VolumeEvidence, volume_eq}
use nami_sync.Paths.{Text, text_eq}
use nami_sync.Planning.{
  Plan, PlanOperation, OperationKind, kind_eq, filter_eq, is_blocked, op_ids, is_some,
}
use nami_sync.Execution.{ExecutionSet, remaining}
use nami_sync.Preflight.{
  subject_eq, RootObservation, TrashObservation, ObservedWorld, RefusalCode, Refusal, refuse_if,
  general, for_operation,
}

abbrev is_ambiguous : Option VolumeEvidence → Bool
is_ambiguous none = false
is_ambiguous (some evidence) = evidence.clone_ambiguous

-- One side of the first loop.
unfoldable pub root_refusals : Option VolumeId → Option RootObservation → List Refusal
root_refusals expected none = general RefusalCode.root_unavailable ∷ []
root_refusals expected (some observed) =
    if is_some observed.error || not (is_some observed.resolved_path)
    then general RefusalCode.root_unavailable ∷ []
    else refuse_if (is_ambiguous observed.volume_evidence)
        (general RefusalCode.volume_clone_ambiguous)
      ++ refuse_if (not (is_some expected) || not (observed.volume_id == expected))
          (general RefusalCode.root_changed)

abbrev pub resolved : Option RootObservation → Option Text
resolved none = none
resolved (some observed) = observed.resolved_path

abbrev pub overlapping : (Text → Text → Bool) → Option Text → Option Text → Bool
overlapping overlap (some source) (some target) = overlap source target
overlapping overlap _ _ = false

-- Filters, options and settings.
unfoldable pub drift_refusals : Plan → ObservedWorld → List Refusal
drift_refusals plan world =
    refuse_if (not (world.current_filters == plan.filter_snapshot))
      (general RefusalCode.filter_drift)
    ++ refuse_if (not (world.current_policy_fingerprint == plan.policy_fingerprint))
        (general RefusalCode.options_drift)
    ++ refuse_if (is_some world.settings_error) (general RefusalCode.observation_unavailable)

-- The kinds that an incomplete scan forbids.
abbrev pub needs_scans : PlanOperation → Bool
needs_scans operation =
    contains
      (OperationKind.move ∷ OperationKind.move_update ∷ OperationKind.trash ∷ OperationKind.delete
        ∷ [])
      operation.kind

unfoldable pub scan_refusals : Plan → PlanOperation → List Refusal
scan_refusals plan operation =
    refuse_if (needs_scans operation && not plan.source_complete)
      (for_operation RefusalCode.incomplete_source_scan operation)
    ++ refuse_if (needs_scans operation && not plan.target_complete)
        (for_operation RefusalCode.incomplete_target_scan operation)

unfoldable pub blocked_refusals : List String → PlanOperation → List Refusal
blocked_refusals quarantined operation =
    if is_blocked operation
    then for_operation RefusalCode.operation_blocked operation ∷ []
    else refuse_if (contains quarantined operation.op_id)
        (for_operation RefusalCode.blocked_correspondence operation)

-- `operations_by_id.get(op_id)`, and whether what it finds is blocked; a later operation takes the
-- place of an earlier one.
unfoldable pub operation_by_id : String → List PlanOperation → Option PlanOperation
operation_by_id op_id [] = none
operation_by_id op_id (operation ∷ operations) = elim (operation_by_id op_id operations) [
  | some later ↦ some later
  | none ↦ if op_id == operation.op_id then some operation else none
]

abbrev pub finds_blocked : Option PlanOperation → Bool
finds_blocked none = false
finds_blocked (some operation) = is_blocked operation

-- `dependency_status in unavailable`
abbrev pub is_unavailable : Option Outcome → Bool
is_unavailable none = false
is_unavailable (some outcome) =
    contains (Outcome.failed ∷ Outcome.canceled ∷ Outcome.deferred ∷ Outcome.blocked ∷ []) outcome

-- The test of one selected dependency.
abbrev pub is_dependency_lost : ExecutionSet → String → Bool
is_dependency_lost xset dependency =
    is_unavailable (get dependency xset.status)
    || finds_blocked (operation_by_id dependency xset.plan.operations)
    || not (is_some (get dependency xset.status))
      && not (contains (op_ids (remaining xset)) dependency)

unfoldable pub dependency_refusals : ExecutionSet → PlanOperation → List String → List Refusal
dependency_refusals xset operation [] = []
dependency_refusals xset operation (dependency ∷ dependencies) =
    (if not (contains xset.selection dependency)
      then for_operation RefusalCode.selection_not_closed operation ∷ []
      else refuse_if (is_dependency_lost xset dependency)
          (for_operation RefusalCode.dependency_unavailable operation))
    ++ dependency_refusals xset operation dependencies

-- `trash_on_update` counts for the kinds that displace content.
abbrev pub uses_trash : Plan → PlanOperation → Bool
uses_trash plan operation =
    operation.kind == OperationKind.trash
    || plan.trash_on_update
      && contains (OperationKind.update ∷ OperationKind.move_update ∷ []) operation.kind

unfoldable pub trash_refusals : Option TrashObservation → List Refusal
trash_refusals none = general RefusalCode.trash_unavailable ∷ []
trash_refusals (some trash) =
    refuse_if (not trash.available) (general RefusalCode.trash_unavailable)
    ++ refuse_if (not trash.contained) (general RefusalCode.trash_escape)
    ++ refuse_if (not trash.same_volume) (general RefusalCode.trash_off_volume)
    ++ refuse_if (not trash.writable) (general RefusalCode.trash_not_writable)
    ++ refuse_if (not trash.reparse_safe) (general RefusalCode.trash_reparse)

unfoldable pub space_refusals : Option ℕ → ℕ → ℕ → List Refusal
space_refusals none reclaimable required = general RefusalCode.observation_unavailable ∷ []
space_refusals (some free) reclaimable required =
    refuse_if (ltb (free + reclaimable) required) (general RefusalCode.insufficient_space)
