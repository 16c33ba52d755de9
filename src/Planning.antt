-- ===== src/Planning.antt =====
-- Plans and their operations, capacity and quarantine (namisync/core/planning.py).
pub mod Options
use nami_sync.Base.{
  Bool, true, false, not, ◌||◌, ◌&&◌, String, List, [], ◌∷◌, ◌++◌, ℕ, ◌+◌, Option, none, some,
  if◌then◌else◌, Eq, ◌==◌, contains, string_eq,
}
use nami_sync.Base.Lists.{any}
use nami_sync.Models.{FileStat, MetadataSnapshot, CapabilityProfile, VolumeId, VolumeEvidence, Root}
use nami_sync.Policies.{Assignment, PreservationPolicy, DeletionPolicy}
use nami_sync.Paths.{Text, text_eq, starts_with, path_key, backslash}

pub data OperationKind : Type 0 where
  copy update move move_update recase mkdir trash delete noop : OperationKind

OperationKind_dec : Discrete OperationKind
OperationKind_dec = hlevel

instance unfoldable pub kind_eq : Eq OperationKind
unfolding OperationKind_dec
kind_eq = record { dec = OperationKind_dec }

pub data OperationReason : Type 0 where
  source_only metadata_changed metadata_match identity_rename identity_rename_changed
        required_directory empty_directory target_only directory_cleanup unsupported case_mismatch
        unicode_normalization_mismatch case_collision type_collision policy_collision :
      OperationReason

pub data BlockedReason : Type 0 where
  unsupported case_mismatch case_collision type_collision destination_collision blocked_dependency :
      BlockedReason

-- The paths of an operation are valid: its constructor validates them.
pub record PlanOperation : Type 0 where
  pub op_id : String
  pub kind : OperationKind
  pub source_rel_path : Option Text
  pub target_rel_path : Text
  pub source_expected : Option FileStat
  pub target_expected : Option FileStat
  pub intended : Option FileStat
  pub prior_target_rel_path : Option Text
  pub prior_target_expected : Option FileStat
  pub metadata : Option MetadataSnapshot
  pub content_bytes : ℕ
  pub dependencies : List String
  pub reason : OperationReason
  pub blocked_reason : Option BlockedReason

abbrev pub is_some {ℓ} : {A : Type ℓ} → Option A → Bool
is_some none = false
is_some (some a) = true

-- `PlanOperation.blocked`
abbrev pub is_blocked : PlanOperation → Bool
is_blocked operation = is_some operation.blocked_reason

abbrev pub op_ids : List PlanOperation → List String
op_ids [] = []
op_ids (operation ∷ operations) = operation.op_id ∷ op_ids operations

-- `FilterSet`, by its patterns in their canonical order.
pub record FilterSet : Type 0 where
  pub patterns : List String

FilterSet_dec : Discrete FilterSet
FilterSet_dec = hlevel string_eq.dec

instance unfoldable pub filter_eq : Eq FilterSet
unfolding FilterSet_dec
filter_eq = record { dec = FilterSet_dec }

-- `Plan`, with the root's binding and the fingerprint that it was made with. The set of the required
-- volumes is a list of its elements.
pub record Plan : Type 0 where
  pub source_root : Root
  pub target_root : Root
  pub source_volume_id : Option VolumeId
  pub target_volume_id : Option VolumeId
  pub source_volume_evidence : Option VolumeEvidence
  pub target_volume_evidence : Option VolumeEvidence
  pub source_profile : CapabilityProfile
  pub target_profile : CapabilityProfile
  pub source_complete : Bool
  pub target_complete : Bool
  pub operations : List PlanOperation
  pub assignment : Assignment
  pub preservation : PreservationPolicy
  pub filter_snapshot : FilterSet
  pub deletion_policy : DeletionPolicy
  pub trash_on_update : Bool
  pub policy_fingerprint : String
  pub worker_count : ℕ
  pub required_volumes : List VolumeId
  pub required_bytes : ℕ
  pub fingerprint : String

-- The checks of `Plan.__post_init__` on the order of operations: ids are new, and dependencies
-- are known.
unfoldable pub is_dependency_ordered : List String → List PlanOperation → Bool
is_dependency_ordered known [] = true
is_dependency_ordered known (operation ∷ operations) =
    not (contains known operation.op_id)
    && not (any (λ dependency. not (contains known dependency)) operation.dependencies)
    && is_dependency_ordered (operation.op_id ∷ known) operations

-- `displaced = operation.target_expected or operation.prior_target_expected`
abbrev displaced_size : PlanOperation → ℕ
displaced_size operation = elim operation.target_expected [
  | some stat ↦ stat.size
  | none ↦ elim operation.prior_target_expected [ some stat ↦ stat.size | none ↦ 0 ]
]

-- What one operation adds to the requirement.
unfoldable pub operation_bytes : CapabilityProfile → Bool → PlanOperation → ℕ
unfolding kind_eq
operation_bytes profile trash_on_update operation =
    if is_blocked operation
    then 0
    else (if contains (OperationKind.copy ∷ OperationKind.update ∷ OperationKind.move_update ∷ [])
          operation.kind
        then operation.content_bytes
        else 0)
      + (if trash_on_update
            && not profile.supports_hardlinks
            && contains (OperationKind.update ∷ OperationKind.move_update ∷ []) operation.kind
          then displaced_size operation
          else 0)

-- `calculate_required_bytes`
unfoldable pub calculate_required_bytes : List PlanOperation → CapabilityProfile → Bool → ℕ → ℕ
unfolding operation_bytes
calculate_required_bytes [] profile trash_on_update required = required
calculate_required_bytes (operation ∷ operations) profile trash_on_update required =
    calculate_required_bytes operations profile trash_on_update
      (required + operation_bytes profile trash_on_update operation)

-- `_same_or_descendant`
unfoldable pub same_or_descendant : Text → Text → Bool
unfolding text_eq starts_with
same_or_descendant path ancestor = path == ancestor || starts_with (ancestor ++ backslash ∷ []) path

-- `_inside_any_region`
unfoldable pub inside_any_region : Text → List Text → Bool
unfolding same_or_descendant
inside_any_region path regions = any (same_or_descendant path) regions

module _ (upper : ℕ → Text) where
  abbrev key_of : Option Text → List Text
  key_of none = []
  key_of (some path) = path_key upper path ∷ []

  -- `blocked_source_paths`
  unfoldable pub blocked_source_paths : List PlanOperation → List Text
  unfolding path_key
  blocked_source_paths [] = []
  blocked_source_paths (operation ∷ operations) =
      (if is_blocked operation then key_of operation.source_rel_path else [])
      ++ blocked_source_paths operations

  -- `target_paths`, of one operation
  unfoldable pub target_paths : PlanOperation → List Text
  unfolding path_key
  target_paths operation =
      path_key upper operation.target_rel_path ∷ key_of operation.prior_target_rel_path

  -- `blocked_target_paths`
  unfoldable pub blocked_target_paths : List PlanOperation → List Text
  unfolding target_paths
  blocked_target_paths [] = []
  blocked_target_paths (operation ∷ operations) =
      (if is_blocked operation then target_paths operation else [])
      ++ blocked_target_paths operations

  -- `destructive_paths`
  unfoldable pub destructive_paths : PlanOperation → List Text
  unfolding path_key kind_eq
  destructive_paths operation =
      if contains (OperationKind.trash ∷ OperationKind.delete ∷ []) operation.kind
      then path_key upper operation.target_rel_path ∷ []
      else if contains (OperationKind.move ∷ OperationKind.move_update ∷ []) operation.kind
      then key_of operation.prior_target_rel_path
      else []

  source_is_blocked : List Text → PlanOperation → Bool
  source_is_blocked sources operation = elim operation.source_rel_path [
    | none ↦ false
    | some path ↦ inside_any_region (path_key upper path) sources
  ]

  -- Whether the loop adds the operation to `quarantined`.
  unfoldable pub is_quarantined : List Text → List Text → PlanOperation → Bool
  unfolding source_is_blocked inside_any_region same_or_descendant target_paths destructive_paths
  is_quarantined sources targets operation =
      not (is_blocked operation)
      && (source_is_blocked sources operation
          || any (λ path. inside_any_region path targets) (target_paths operation)
          || any (λ destructive. any (λ blocked. same_or_descendant blocked destructive) targets)
              (destructive_paths operation))

  quarantined_from : List Text → List Text → List PlanOperation → List String
  unfolding is_quarantined
  quarantined_from sources targets [] = []
  quarantined_from sources targets (operation ∷ operations) =
      let rest = quarantined_from sources targets operations in
      if is_quarantined sources targets operation then operation.op_id ∷ rest else rest

  -- `quarantined_operation_ids`, the set by its elements
  unfoldable pub quarantined_operation_ids : List PlanOperation → List String
  unfolding quarantined_from blocked_source_paths blocked_target_paths
  quarantined_operation_ids operations =
      quarantined_from (blocked_source_paths operations) (blocked_target_paths operations)
        operations
