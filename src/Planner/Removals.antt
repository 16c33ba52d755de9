-- ===== src/Planner/Removals.antt =====
-- The removals and the unsupported entries of `plan` (namisync/modules/planner.py).
use nami_sync.Base.{Bool, true, false, not, ◌||◌, List, [], ◌∷◌, ◌++◌, none, some, contains}
use nami_sync.Base.Dict.{Dict, put}
use nami_sync.Base.Lists.{keep}
use nami_sync.Base.Sorting.{sorted}
use nami_sync.Models.Records.{FileRecord, file_stat, UnsupportedRecord}
use nami_sync.Paths.{Text, text_eq}
use nami_sync.Paths.Parts.{texts_leb}
use nami_sync.Planner.Assigning.{SourceIdentity, source_identity_eq}
use nami_sync.Planner.{blocked_operation}
use nami_sync.Planning.{OperationKind, OperationReason, BlockedReason, PlanOperation}
use nami_sync.Planning.Options.{Platform, deterministic_operation_id}
use nami_sync.Policies.{DeletionPolicy, deletion_eq}

-- A target file that no operation claims or moves.
unfoldable pub is_unclaimed : List Text → List Text → FileRecord → Bool
unfolding text_eq
is_unclaimed claimed moved_from found =
    not (contains claimed found.rel_path_key || contains moved_from found.rel_path_key)

abbrev pub record_keys : List FileRecord → List Text
record_keys [] = []
record_keys (found ∷ rest) = found.rel_path_key ∷ record_keys rest

abbrev pub values_of {ℓ κ} : {K : Type ℓ} {A : Type κ} → Dict K A → List A
values_of [] = []
values_of ((k, a) ∷ rest) = a ∷ values_of rest

-- The files that are removed under the policy.
unfoldable pub removed_files :
    DeletionPolicy → List Text → List Text → List FileRecord → List FileRecord
unfolding is_unclaimed
removed_files DeletionPolicy.additive claimed moved_from files = []
removed_files policy claimed moved_from files = keep (is_unclaimed claimed moved_from) files

abbrev pub removal_kind : DeletionPolicy → OperationKind
removal_kind DeletionPolicy.trash = OperationKind.trash
removal_kind policy = OperationKind.delete

-- `removed_file_keys`
unfoldable pub removed_file_keys :
    DeletionPolicy → List Text → List Text → List FileRecord → List Text
unfolding removed_files
removed_file_keys policy claimed moved_from files =
    moved_from ++ record_keys (removed_files policy claimed moved_from files)

-- `visible_unsupported`: the last record of each key and path, where the first one stood.
visible_unsupported :
    (Text → Bool)
    → List UnsupportedRecord
    → Dict SourceIdentity UnsupportedRecord
    → List UnsupportedRecord
unfolding put source_identity_eq
visible_unsupported excluded [] seen = values_of seen
visible_unsupported excluded (found ∷ records) seen = elim (excluded found.rel_path) [
  | true ↦ visible_unsupported excluded records seen
  | false ↦
      visible_unsupported excluded records
        (put (record { key = found.rel_path_key; path = found.rel_path }) found seen)
]

unsupported_leb : UnsupportedRecord → UnsupportedRecord → Bool
unfolding texts_leb
unsupported_leb a b =
    texts_leb (a.rel_path_key ∷ a.rel_path ∷ []) (b.rel_path_key ∷ b.rel_path ∷ [])

module _ (platform : Platform) where
  -- The removal of a file, by the kind that the policy asks for.
  unfoldable pub removal : OperationKind → FileRecord → PlanOperation
  unfolding deterministic_operation_id
  removal kind found = record {
    op_id =
        deterministic_operation_id platform kind none found.rel_path none
          OperationReason.target_only;
    kind = kind;
    source_rel_path = none;
    target_rel_path = found.rel_path;
    source_expected = none;
    target_expected = some (file_stat found);
    intended = none;
    prior_target_rel_path = none;
    prior_target_expected = none;
    metadata = none;
    content_bytes = 0;
    dependencies = [];
    reason = OperationReason.target_only;
    blocked_reason = none;
  }

  unfoldable pub removals_as : OperationKind → List FileRecord → List PlanOperation
  unfolding removal
  removals_as kind [] = []
  removals_as kind (found ∷ files) = removal kind found ∷ removals_as kind files

  -- `removal_operations`
  unfoldable pub removal_operations :
      DeletionPolicy → List Text → List Text → List FileRecord → List PlanOperation
  unfolding removed_files removals_as
  removal_operations policy claimed moved_from files =
      removals_as (removal_kind policy) (removed_files policy claimed moved_from files)

  unfoldable pub unsupported_as : List UnsupportedRecord → List PlanOperation
  unfolding blocked_operation
  unsupported_as [] = []
  unsupported_as (found ∷ records) =
      blocked_operation platform OperationKind.noop (some found.rel_path) found.rel_path none none
        none OperationReason.unsupported BlockedReason.unsupported []
      ∷ unsupported_as records

  -- `blocked_operations`
  unfoldable pub unsupported_operations :
      (Text → Bool) → List UnsupportedRecord → List PlanOperation
  unfolding sorted visible_unsupported unsupported_leb unsupported_as
  unsupported_operations excluded records =
      unsupported_as (sorted unsupported_leb (visible_unsupported excluded records []))
