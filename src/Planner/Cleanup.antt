-- ===== src/Planner/Cleanup.antt =====
-- The removal of directories that `plan` leaves empty (namisync/modules/planner.py).
use nami_sync.Base.{
  Bool, true, false, not, ◌||◌, ◌&&◌, String, string_eq, List, [], ◌∷◌, ◌++◌, map, Option, none,
  some, option_eq, if◌then◌else◌, ltb, ◌==◌, contains,
}
use nami_sync.Base.Dict.{Dict, put}
use nami_sync.Base.Lists.{any, keep}
use nami_sync.Base.Sorting.{sorted, distinct}
use nami_sync.Models.Records.{FileRecord, DirRecord, dir_stat, ScanResult}
use nami_sync.Paths.{Text, text_eq, code_eq, codes}
use nami_sync.Paths.Parts.{depth, parent_of, texts_leb}
use nami_sync.Planner.Pairing.{is_nonempty}
use nami_sync.Planner.Removals.{values_of}
use nami_sync.Planner.{is_descendant}
use nami_sync.Planning.{OperationKind, kind_eq, OperationReason, PlanOperation}
use nami_sync.Planning.Options.{Platform, deterministic_operation_id}
use nami_sync.Policies.{DeletionPolicy, deletion_eq}

-- The path that an operation takes away, if it takes one.
unfoldable pub removed_path : PlanOperation → Option Text
unfolding kind_eq
removed_path operation =
    if contains (OperationKind.trash ∷ OperationKind.delete ∷ []) operation.kind
    then some operation.target_rel_path
    else if contains (OperationKind.move ∷ OperationKind.move_update ∷ []) operation.kind
    then operation.prior_target_rel_path
    else none

-- `removal_by_path`
unfoldable pub removal_by_path :
    List PlanOperation → Dict Text PlanOperation → Dict Text PlanOperation
unfolding removed_path put text_eq
removal_by_path [] removals = removals
removal_by_path (operation ∷ operations) removals = elim (removed_path operation) [
  | none ↦ removal_by_path operations removals
  | some path ↦ removal_by_path operations (put path operation removals)
]

-- The order of the key `(-_depth(item.rel_path), item.rel_path_key, item.rel_path)`
unfoldable pub deeper_first : DirRecord → DirRecord → Bool
unfolding depth texts_leb code_eq
deeper_first a b =
    ltb (depth b.rel_path) (depth a.rel_path)
    || (depth a.rel_path == depth b.rel_path
        && texts_leb (a.rel_path_key ∷ a.rel_path ∷ []) (b.rel_path_key ∷ b.rel_path ∷ []))

unfoldable pub string_leb : String → String → Bool
unfolding texts_leb
string_leb a b = texts_leb (codes a ∷ []) (codes b ∷ [])

abbrev pub ids_of : List PlanOperation → List String
ids_of [] = []
ids_of (operation ∷ operations) = operation.op_id ∷ ids_of operations

-- `_parent(path) == directory.rel_path`
unfoldable pub is_child : Text → DirRecord → Bool
unfolding parent_of option_eq text_eq
is_child path directory = parent_of path == some directory.rel_path

-- What the loop reads besides the directory.
pub record CleanupContext : Type 0 where
  pub policy : DeletionPolicy
  pub target : ScanResult
  pub target_dirs : List DirRecord
  pub desired_keys : List Text
  pub removed_keys : List Text
  pub removals : Dict Text PlanOperation

module _ (platform : Platform) (excluded : Text → Bool) (context : CleanupContext) where
  -- A directory that the loop passes over.
  unfoldable pub is_skipped : DirRecord → Bool
  unfolding deletion_eq text_eq
  is_skipped directory =
      context.policy == DeletionPolicy.additive
      || contains context.desired_keys directory.rel_path_key
      || excluded directory.rel_path

  -- One path of `excluded_child`
  unfoldable pub is_excluded_child : DirRecord → Text → Bool
  unfolding is_descendant text_eq
  is_excluded_child directory path =
      not (path == directory.rel_path)
      && is_nonempty path
      && is_descendant platform path directory.rel_path
      && excluded path

  -- One record of `remaining_file`
  unfoldable pub is_remaining_file : DirRecord → FileRecord → Bool
  unfolding is_descendant text_eq
  is_remaining_file directory found =
      is_descendant platform found.rel_path directory.rel_path
      && not (contains context.removed_keys found.rel_path_key)

  -- One record of `remaining_directory`
  unfoldable pub is_remaining_directory : Dict Text PlanOperation → DirRecord → DirRecord → Bool
  unfolding is_child text_eq
  is_remaining_directory cleanups directory child =
      is_child child.rel_path directory
      && not (contains (map (λ entry. entry.0) cleanups) child.rel_path_key)
      && not (contains context.desired_keys child.rel_path_key)

  -- Something is left in the directory.
  unfoldable pub is_occupied : Dict Text PlanOperation → DirRecord → Bool
  unfolding is_excluded_child is_remaining_file is_remaining_directory is_descendant
  is_occupied cleanups directory =
      any (λ found. is_excluded_child directory found.rel_path) context.target.files
      || any (λ found. is_excluded_child directory found.rel_path) context.target.directories
      || any (λ found. is_descendant platform found.rel_path directory.rel_path)
          context.target.unsupported
      || any (is_remaining_file directory) context.target.files
      || any (is_remaining_directory cleanups directory) context.target_dirs

  -- The removals at or below the directory.
  unfoldable pub removals_below : DirRecord → Dict Text PlanOperation → List String
  unfolding is_descendant text_eq
  removals_below directory [] = []
  removals_below directory ((path, operation) ∷ removals) =
      let rest = removals_below directory removals in
      if path == directory.rel_path || is_descendant platform path directory.rel_path
      then operation.op_id ∷ rest
      else rest

  -- `dependencies`: the removals, then the cleanups of its children, each once and in order.
  unfoldable pub cleanup_dependencies : Dict Text PlanOperation → DirRecord → List String
  unfolding sorted distinct string_leb removals_below is_child string_eq
  cleanup_dependencies cleanups directory = sorted string_leb (
      distinct (
        removals_below directory context.removals
        ++ ids_of (
            keep (λ operation. is_child operation.target_rel_path directory) (values_of cleanups))))

  unfoldable pub cleanup_operation : DirRecord → List String → PlanOperation
  unfolding deterministic_operation_id
  cleanup_operation directory dependencies = record {
    op_id =
        deterministic_operation_id platform OperationKind.delete none directory.rel_path none
          OperationReason.directory_cleanup;
    kind = OperationKind.delete;
    source_rel_path = none;
    target_rel_path = directory.rel_path;
    source_expected = none;
    target_expected = some (dir_stat directory);
    intended = none;
    prior_target_rel_path = none;
    prior_target_expected = none;
    metadata = none;
    content_bytes = 0;
    dependencies = dependencies;
    reason = OperationReason.directory_cleanup;
    blocked_reason = none;
  }

  -- The loop, over the directories with the deeper first.
  unfoldable pub cleanup :
      List DirRecord → List PlanOperation → Dict Text PlanOperation → List PlanOperation
  unfolding is_skipped is_occupied cleanup_dependencies cleanup_operation put text_eq
  cleanup [] operations cleanups = operations
  cleanup (directory ∷ directories) operations cleanups =
      let operation = cleanup_operation directory (cleanup_dependencies cleanups directory) in
      elim (is_skipped directory || is_occupied cleanups directory) [
        | true ↦ cleanup directories operations cleanups
        | false ↦
            cleanup directories (operations ++ operation ∷ [])
              (put directory.rel_path_key operation cleanups)
      ]
