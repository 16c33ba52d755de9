-- ===== src/Planner/Contents.antt =====
-- The content operations of `plan` (namisync/modules/planner.py): what is done for each assignment.
use nami_sync.Base.{
  Bool, true, false, not, ◌&&◌, String, List, [], ◌∷◌, ◌++◌, ℕ, Option, none, some, if◌then◌else◌,
  ◌==◌,
}
use nami_sync.Base.Dict.{Dict}
use nami_sync.Models.{FileStat}
use nami_sync.Models.Records.{FileRecord, file_stat, DirRecord, dir_stat}
use nami_sync.Paths.{Text, text_eq, backslash}
use nami_sync.Paths.Parts.{parent_of, file_name}
use nami_sync.Planner.Assigning.{SourceIdentity, source_identity_eq}
use nami_sync.Planner.Moving.{MoveContext, move_pair}
use nami_sync.Planner.{metadata_equal, blocked_operation}
use nami_sync.Planning.{OperationKind, kind_eq, OperationReason, BlockedReason, PlanOperation}
use nami_sync.Planning.Options.{Platform, deterministic_operation_id}
use nami_sync.Policies.{DestinationAssignment, MappingPair}

-- What one round adds: the operation, `claimed_target_keys` and `moved_from_keys`.
pub record Content : Type 0 where
  pub operation : PlanOperation
  pub claims : List Text
  pub moved_from : List Text

-- What the loop reads besides the item.
pub record ContentContext : Type 0 where
  pub source_files_by_key : Dict Text (List FileRecord)
  pub target_dirs_by_key : Dict Text (List DirRecord)
  pub normalizations : Dict SourceIdentity FileRecord
  pub created : Dict Text PlanOperation
  pub assigned_groups : Dict Text (List DestinationAssignment)
  pub granularity : ℕ
  pub propagate_source_casing : Bool
  pub moves : MoveContext

abbrev pub is_present {ℓ} : {A : Type ℓ} → Option A → Bool
is_present none = false
is_present (some a) = true

abbrev pub file_at : List FileRecord → Option FileStat
file_at (found ∷ []) = some (file_stat found)
file_at _ = none

abbrev pub dir_at : List DirRecord → Option FileStat
dir_at (found ∷ []) = some (dir_stat found)
dir_at _ = none

-- `str(observed_path.parent / desired_name)`
unfoldable pub renamed : Text → Text → Text
unfolding parent_of
renamed observed desired_name = elim (parent_of observed) [
  | none ↦ desired_name
  | some parent ↦ parent ++ backslash ∷ [] ++ desired_name
]

-- How an item whose target file stands is done: its kind, its reason, its target path and whether it
-- is the file's name that changes.
pub record Match : Type 0 where
  pub kind : OperationKind
  pub reason : OperationReason
  pub target_path : Text
  pub is_recased : Bool

unfoldable pub recasing : Bool → Bool → Text → Text → Match
unfolding text_eq file_name renamed
recasing propagates matched desired observed =
    let kept = if matched then OperationKind.noop else OperationKind.update in
    let differs = propagates && not (file_name desired == file_name observed) in
    record {
      kind = if differs && matched then OperationKind.recase else kept;
      reason = OperationReason.case_mismatch;
      target_path = if differs then renamed observed (file_name desired) else observed;
      is_recased = differs && matched;
    }

-- The three branches, on a normalization mismatch, on another spelling and on the same path.
unfoldable pub match_target : Bool → Bool → Bool → Text → Text → Match
unfolding text_eq recasing
match_target propagates matched mismatch desired observed =
    let kept = if matched then OperationKind.noop else OperationKind.update in
    if mismatch
    then record {
      kind = kept;
      reason = OperationReason.unicode_normalization_mismatch;
      target_path = observed;
      is_recased = false;
    }
    else if desired == observed
    then record {
      kind = kept;
      reason = if matched then OperationReason.metadata_match else OperationReason.metadata_changed;
      target_path = desired;
      is_recased = false;
    }
    else recasing propagates matched desired observed

abbrev option_if {ℓ} : {A : Type ℓ} → Bool → A → Option A
option_if true a = some a
option_if false a = none

module _ (platform : Platform) where
  module _ (found : FileRecord) (item : DestinationAssignment) (dependencies : List String) where
    -- An item that a collision blocks, claiming its key.
    unfoldable pub collided : Option FileStat → OperationReason → BlockedReason → Content
    unfolding blocked_operation
    collided target_expected reason blocked_reason = record {
      operation =
          blocked_operation platform OperationKind.copy (some found.rel_path) item.target_rel_path
            (some (file_stat found)) target_expected (some (file_stat found)) reason blocked_reason
            dependencies;
      claims = item.target_rel_path_key ∷ [];
      moved_from = [];
    }

    -- An item below a directory that is blocked: its key is not claimed.
    unfoldable pub inherited : Content
    unfolding collided
    inherited =
        record (collided none OperationReason.source_only BlockedReason.blocked_dependency) {
          claims = [];
        }

    -- An item whose target file stands.
    unfoldable pub matched_content : ContentContext → Bool → FileRecord → Content
    unfolding metadata_equal match_target deterministic_operation_id kind_eq
    matched_content context mismatch observed =
        let matched = metadata_equal (file_stat found) (file_stat observed) context.granularity in
        let chosen =
          match_target context.propagate_source_casing matched mismatch item.target_rel_path
            observed.rel_path in
        let prior = option_if chosen.is_recased observed.rel_path in
        let intended = if chosen.is_recased then file_stat observed else file_stat found in
        record {
          operation = record {
            op_id =
                deterministic_operation_id platform chosen.kind (some found.rel_path)
                  chosen.target_path prior chosen.reason;
            kind = chosen.kind;
            source_rel_path = some found.rel_path;
            target_rel_path = chosen.target_path;
            source_expected = some (file_stat found);
            target_expected = some (file_stat observed);
            intended = some intended;
            prior_target_rel_path = prior;
            prior_target_expected = option_if chosen.is_recased (file_stat observed);
            metadata = some intended.metadata;
            content_bytes = if chosen.kind == OperationKind.update then found.size else 0;
            dependencies = dependencies;
            reason = chosen.reason;
            blocked_reason = none;
          };
          claims = observed.rel_path_key ∷ [];
          moved_from = [];
        }

    -- An item whose file stands elsewhere in the target.
    unfoldable pub moved_content : ContentContext → MappingPair → FileRecord → Content
    unfolding metadata_equal deterministic_operation_id
    moved_content context pair old =
        let matched = metadata_equal (file_stat found) (file_stat old) context.granularity in
        let kind = if matched then OperationKind.move else OperationKind.move_update in
        let reason =
          if matched
          then OperationReason.identity_rename
          else OperationReason.identity_rename_changed in
        record {
          operation = record {
            op_id =
                deterministic_operation_id platform kind (some found.rel_path) item.target_rel_path
                  (some pair.target_rel_path) reason;
            kind = kind;
            source_rel_path = some found.rel_path;
            target_rel_path = item.target_rel_path;
            source_expected = some (file_stat found);
            target_expected = none;
            intended = some (file_stat found);
            prior_target_rel_path = some pair.target_rel_path;
            prior_target_expected = some (file_stat old);
            metadata = some found.metadata;
            content_bytes = if matched then 0 else found.size;
            dependencies = dependencies;
            reason = reason;
            blocked_reason = none;
          };
          claims = item.target_rel_path_key ∷ [];
          moved_from = pair.target_rel_path_key ∷ [];
        }

    -- An item that the target lacks.
    unfoldable pub copied_content : Content
    unfolding deterministic_operation_id
    copied_content = record {
      operation = record {
        op_id =
            deterministic_operation_id platform OperationKind.copy (some found.rel_path)
              item.target_rel_path none OperationReason.source_only;
        kind = OperationKind.copy;
        source_rel_path = some found.rel_path;
        target_rel_path = item.target_rel_path;
        source_expected = some (file_stat found);
        target_expected = none;
        intended = some (file_stat found);
        prior_target_rel_path = none;
        prior_target_expected = none;
        metadata = some found.metadata;
        content_bytes = found.size;
        dependencies = dependencies;
        reason = OperationReason.source_only;
        blocked_reason = none;
      };
      claims = item.target_rel_path_key ∷ [];
      moved_from = [];
    }

    unfoldable pub absent_content : ContentContext → Content
    unfolding move_pair moved_content copied_content
    absent_content context = elim (move_pair context.moves found item.target_rel_path_key) [
      | some (pair, old) ↦ moved_content context pair old
      | none ↦ copied_content
    ]
