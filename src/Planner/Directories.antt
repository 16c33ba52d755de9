-- ===== src/Planner/Directories.antt =====
-- The `mkdir` operations of `plan` (namisync/modules/planner.py).
use nami_sync.Base.{
  Bool, ◌||◌, ◌&&◌, String, List, [], ◌∷◌, ◌++◌, map, Option, none, some, ltb, ◌==◌,
}
use nami_sync.Base.Dict.{Dict, get, put}
use nami_sync.Base.Sorting.{distinct}
use nami_sync.Models.{FileStat}
use nami_sync.Models.Records.{FileRecord, file_stat, DirRecord, dir_stat}
use nami_sync.Paths.{Text, text_eq, code_eq, path_key}
use nami_sync.Paths.Parts.{depth, ancestors, texts_leb}
use nami_sync.Planner.{group_at, blocked_operation}
use nami_sync.Planning.{OperationKind, OperationReason, BlockedReason, PlanOperation}
use nami_sync.Planning.Options.{Platform, deterministic_operation_id}
use nami_sync.Policies.{DestinationAssignment}

-- The ancestors of the items' target paths, as the loop adds them.
unfoldable pub item_ancestors : List DestinationAssignment → List Text
unfolding ancestors
item_ancestors [] = []
item_ancestors (item ∷ items) = ancestors item.target_rel_path ++ item_ancestors items

-- `required_directory_paths`, the set by its elements
unfoldable pub required_directory_paths : List DirRecord → List DestinationAssignment → List Text
unfolding distinct item_ancestors text_eq
required_directory_paths source_dirs items =
    distinct (map (λ found. found.rel_path) source_dirs ++ item_ancestors items)

-- `(parent_operation.op_id,) if parent_operation is not None else ()`
abbrev pub dependency_on : Option PlanOperation → List String
dependency_on none = []
dependency_on (some parent) = parent.op_id ∷ []

-- The target that a blocked directory finds: the one file at its key.
abbrev only_file : List FileRecord → Option FileStat
only_file (found ∷ []) = some (file_stat found)
only_file _ = none

collision_reason : List FileRecord → OperationReason
collision_reason [] = OperationReason.policy_collision
collision_reason (found ∷ files) = OperationReason.type_collision

collision_block : List FileRecord → BlockedReason
collision_block [] = BlockedReason.destination_collision
collision_block (found ∷ files) = BlockedReason.type_collision

module _ (platform : Platform) where
  -- The order of the key `(_depth(value), normalize_relative_path(value), value)`
  unfoldable pub shallower : Text → Text → Bool
  unfolding depth texts_leb path_key code_eq
  shallower a b =
      ltb (depth a) (depth b)
      || (depth a == depth b
          && texts_leb (path_key platform.upper a ∷ a ∷ []) (path_key platform.upper b ∷ b ∷ []))

  unfoldable pub first_created : List Text → Dict Text PlanOperation → Option PlanOperation
  unfolding path_key get text_eq
  first_created [] created = none
  first_created (parent ∷ parents) created = elim (get (path_key platform.upper parent) created) [
    | some operation ↦ some operation
    | none ↦ first_created parents created
  ]

  -- `_nearest_created_parent`
  unfoldable pub nearest_created_parent : Text → Dict Text PlanOperation → Option PlanOperation
  unfolding first_created ancestors
  nearest_created_parent path created = first_created (ancestors path) created

  -- A directory for which no single source directory stands, or that a file is in the way of.
  unfoldable pub blocked_mkdir :
      Text → Option DirRecord → List FileRecord → List String → PlanOperation
  unfolding blocked_operation collision_reason collision_block
  blocked_mkdir path none files dependencies =
      blocked_operation platform OperationKind.mkdir (some path) path none (only_file files) none
        (collision_reason files) (collision_block files) dependencies
  blocked_mkdir path (some found) files dependencies =
      blocked_operation platform OperationKind.mkdir (some found.rel_path) path
        (some (dir_stat found)) (only_file files) (some (dir_stat found)) (collision_reason files)
        (collision_block files) dependencies

  unfoldable pub required_mkdir : Text → DirRecord → List String → PlanOperation
  unfolding deterministic_operation_id
  required_mkdir path found dependencies = record {
    op_id =
        deterministic_operation_id platform OperationKind.mkdir (some found.rel_path) path none
          OperationReason.required_directory;
    kind = OperationKind.mkdir;
    source_rel_path = some found.rel_path;
    target_rel_path = path;
    source_expected = some (dir_stat found);
    target_expected = none;
    intended = some (dir_stat found);
    prior_target_rel_path = none;
    prior_target_expected = none;
    metadata = some found.metadata;
    content_bytes = 0;
    dependencies = dependencies;
    reason = OperationReason.required_directory;
    blocked_reason = none;
  }

  -- The operation for a directory that the target lacks, by the source directories at its key.
  unfoldable pub mkdir_operation :
      Text → List DirRecord → List FileRecord → List String → PlanOperation
  unfolding blocked_mkdir required_mkdir
  mkdir_operation path (found ∷ []) [] dependencies = required_mkdir path found dependencies
  mkdir_operation path (found ∷ []) (stray ∷ files) dependencies =
      blocked_mkdir path (some found) (stray ∷ files) dependencies
  mkdir_operation path _ files dependencies = blocked_mkdir path none files dependencies

  module _ (source_dirs : Dict Text (List DirRecord)) (target_dirs : Dict Text (List DirRecord))
      (target_files : Dict Text (List FileRecord)) where
    -- The loop: the operations in their order and `created_directories`.
    unfoldable pub mkdirs :
        List Text
        → List PlanOperation
        → Dict Text PlanOperation
        → List PlanOperation × Dict Text PlanOperation
    unfolding mkdir_operation nearest_created_parent group_at put path_key text_eq
    mkdirs [] operations created = (operations, created)
    mkdirs (path ∷ paths) operations created =
        let key = path_key platform.upper path in
        let parent = nearest_created_parent path created in
        let operation =
          mkdir_operation path (group_at key source_dirs) (group_at key target_files)
            (dependency_on parent) in
        elim (group_at key target_dirs) [
          | existing ∷ rest ↦ mkdirs paths operations created
          | [] ↦ mkdirs paths (operations ++ operation ∷ []) (put key operation created)
        ]
