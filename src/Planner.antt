-- ===== src/Planner.antt =====
-- The helpers of the planner (namisync/modules/planner.py). Paths are valid: the constructors of the
-- records validated them.
pub mod Assigning
pub mod Pairing
pub mod Moving
pub mod Directories
pub mod Contents
pub mod Visiting
pub mod Removals
pub mod Cleanup
pub mod Assembly
pub mod Backward
pub mod Staged
pub mod Emptying
pub mod Succeeding
pub mod Inverting
pub mod Segments
pub mod Emptied
pub mod Moved
pub mod Taken
pub mod Permitted
pub mod Sources
pub mod Covered
pub mod Assigned
use nami_sync.Base.{
  Bool, true, false, not, ◌||◌, ◌&&◌, String, List, [], ◌∷◌, ◌++◌, ℕ, suc, ◌-◌, ◌+◌, Option, none,
  some, if◌then◌else◌, leb, Eq, ◌==◌,
}
use nami_sync.Base.Dict.{Dict, get, put}
use nami_sync.Base.Sorting.{sorted}
use nami_sync.Models.{FileIdentity, identity_eq, FileStat, MetadataSnapshot}
use nami_sync.Models.Records.{FileRecord}
use nami_sync.Paths.{Text, text_eq, code_eq, PathError, backslash, starts_with, path_key}
use nami_sync.Paths.Parts.{texts_leb}
use nami_sync.Planning.{OperationKind, OperationReason, BlockedReason, PlanOperation}
use nami_sync.Planning.Options.{Platform, deterministic_operation_id}

-- What `plan` raises: the scope is not implemented, the three errors of `_validate_assignment`, and
-- a source key that no record has; and a target path that does not validate. A plan that its
-- constructor refuses is invalid.
pub data PlanError : Type 0 where
  scope_not_implemented unknown_source assigned_twice not_every_source missing_source_key
        invalid_plan :
      PlanError
  invalid_target : PathError → PlanError

-- `abs(a - b)`
abbrev distance : ℕ → ℕ → ℕ
distance a b = (a - b) + (b - a)

-- `_metadata_equal`
unfoldable pub metadata_equal : FileStat → FileStat → ℕ → Bool
unfolding code_eq
metadata_equal source target granularity_ns =
    source.size == target.size
    && leb (distance source.mtime_ns target.mtime_ns) granularity_ns
    && source.metadata.attributes == target.metadata.attributes

abbrev or_empty {ℓ} : {A : Type ℓ} → Option (List A) → List A
or_empty none = []
or_empty (some xs) = xs

module _ {ℓ} {K A : Type ℓ} ⦃e : Eq K⦄ where
  -- `groups.get(key, ())`
  unfoldable pub group_at : K → Dict K (List A) → List A
  unfolding get
  group_at key groups = or_empty (get key groups)

  -- `groups.setdefault(key, []).append(record)`
  unfoldable pub append_to : K → A → Dict K (List A) → Dict K (List A)
  unfolding put group_at
  append_to key entry groups = put key (group_at key groups ++ entry ∷ []) groups

  unfoldable pub group_onto : (A → K) → List A → Dict K (List A) → Dict K (List A)
  unfolding append_to
  group_onto key_of [] groups = groups
  group_onto key_of (entry ∷ entries) groups =
      group_onto key_of entries (append_to (key_of entry) entry groups)

unfoldable pub sort_groups : {A : Type 0} → (A → A → Bool) → Dict Text (List A) → Dict Text (List A)
unfolding sorted
sort_groups leq [] = []
sort_groups leq ((key, entries) ∷ groups) = (key, sorted leq entries) ∷ sort_groups leq groups

-- `_group_by_key`, for records by their key and their path
unfoldable pub group_by_key : {A : Type 0} → (A → Text) → (A → Text) → List A → Dict Text (List A)
unfolding sort_groups group_onto texts_leb text_eq
group_by_key key_of path_of entries =
    sort_groups (λ a b. texts_leb (path_of a ∷ []) (path_of b ∷ [])) (group_onto key_of entries [])

abbrev or_zero : Option ℕ → ℕ
or_zero none = 0
or_zero (some n) = n

-- `_identity_counts`
unfoldable pub count_identities : List FileRecord → Dict FileIdentity ℕ → Dict FileIdentity ℕ
unfolding get put identity_eq
count_identities [] counts = counts
count_identities (found ∷ records) counts = elim found.file_identity [
  | none ↦ count_identities records counts
  | some identity ↦
      count_identities records (put identity (or_zero (get identity counts) + 1) counts)
]

abbrev pub identity_counts : List FileRecord → Dict FileIdentity ℕ
identity_counts records = count_identities records []

abbrev pub metadata_of : Option FileStat → Option MetadataSnapshot
metadata_of none = none
metadata_of (some stat) = some stat.metadata

module _ (platform : Platform) where
  -- `_is_descendant`
  unfoldable pub is_descendant : Text → Text → Bool
  unfolding starts_with path_key
  is_descendant path ancestor =
      starts_with (path_key platform.upper ancestor ++ backslash ∷ [])
        (path_key platform.upper path)

  -- `_blocked_operation`
  unfoldable pub blocked_operation :
      OperationKind
      → Option Text
      → Text
      → Option FileStat
      → Option FileStat
      → Option FileStat
      → OperationReason
      → BlockedReason
      → List String
      → PlanOperation
  unfolding deterministic_operation_id
  blocked_operation kind source target source_expected target_expected intended reason
        blocked_reason dependencies =
      record {
        op_id = deterministic_operation_id platform kind source target none reason;
        kind = kind;
        source_rel_path = source;
        target_rel_path = target;
        source_expected = source_expected;
        target_expected = target_expected;
        intended = intended;
        prior_target_rel_path = none;
        prior_target_expected = none;
        metadata = metadata_of intended;
        content_bytes = 0;
        dependencies = dependencies;
        reason = reason;
        blocked_reason = some blocked_reason;
      }
