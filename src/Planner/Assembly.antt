-- ===== src/Planner/Assembly.antt =====
-- `plan` of namisync/modules/planner.py, from its stages.
use nami_sync.Base.{
  String, Bool, not, ◌||◌, ◌&&◌, List, [], ◌∷◌, ◌++◌, map, ℕ, Option, none, some, Result, ok, ◌>>=◌,
  ◌>>◌, raise_if, if◌then◌else◌, ltb, leb, ◌==◌,
}
use nami_sync.Base.Dict.{Dict}
use nami_sync.Base.Lists.{keep}
use nami_sync.Base.Sorting.{sorted, distinct}
use nami_sync.Models.{VolumeId, volume_eq}
use nami_sync.Models.Records.{FileRecord, DirRecord, ScanResult, is_full_scan}
use nami_sync.Paths.{Text, text_eq, code_eq, path_key}
use nami_sync.Paths.Parts.{depth, texts_leb}
use nami_sync.Planner.Assigning.{validate_assignment}
use nami_sync.Planner.Cleanup.{CleanupContext, cleanup, removal_by_path, deeper_first}
use nami_sync.Planner.Contents.{Content, ContentContext}
use nami_sync.Planner.Directories.{required_directory_paths, shallower, mkdirs}
use nami_sync.Planner.Pairing.{is_nonempty, normalization_pairs}
use nami_sync.Planner.Removals.{removal_operations, removed_file_keys, unsupported_operations}
use nami_sync.Planner.Visiting.{item_leb, visit_items, operations_of, claims_of, moved_of}
use nami_sync.Planner.{PlanError, group_by_key, group_onto, identity_counts, count_identities}
use nami_sync.Planning.{PlanOperation, Plan, calculate_required_bytes, is_dependency_ordered}
use nami_sync.Planning.Options.{
  Platform, SyncOptions, excludes, policy_fingerprint, plan_fingerprint, record_leb, assign_by,
}
use nami_sync.Policies.{
  DestinationAssignment, Assignment, MappingSnapshot, Scope, ScopeKind, plan_scope_eq,
}

abbrev volume_list : Option VolumeId → List VolumeId
volume_list none = []
volume_list (some volume) = volume ∷ []

-- `required_volumes`, the set by its elements
unfoldable pub volumes_of : ScanResult → ScanResult → List VolumeId
unfolding distinct volume_eq
volumes_of source target = distinct (volume_list source.volume_id ++ volume_list target.volume_id)

abbrev larger : ℕ → ℕ → ℕ
larger a b = if leb a b then b else a

-- The order of the directories: by depth, by key and by path.
unfoldable pub directory_leb : DirRecord → DirRecord → Bool
unfolding depth texts_leb code_eq
directory_leb a b =
    ltb (depth a.rel_path) (depth b.rel_path)
    || (depth a.rel_path == depth b.rel_path
        && texts_leb (a.rel_path_key ∷ a.rel_path ∷ []) (b.rel_path_key ∷ b.rel_path ∷ []))

unfoldable pub file_groups : List FileRecord → Dict Text (List FileRecord)
unfolding group_by_key
file_groups = group_by_key (λ found. found.rel_path_key) (λ found. found.rel_path)

unfoldable pub dir_groups : List DirRecord → Dict Text (List DirRecord)
unfolding group_by_key
dir_groups = group_by_key (λ found. found.rel_path_key) (λ found. found.rel_path)

-- `assigned_target_groups`
unfoldable pub item_groups : List DestinationAssignment → Dict Text (List DestinationAssignment)
unfolding group_onto text_eq
item_groups items = group_onto (λ item. item.target_rel_path_key) items []

module _ (platform : Platform) (options : SyncOptions) where
  is_planned : Text → Bool
  unfolding excludes
  is_planned path = not (excludes platform options.filters path)

  -- `source_files` and `target_files`
  unfoldable pub planned_files : List FileRecord → List FileRecord
  unfolding sorted record_leb is_planned
  planned_files files = keep (λ found. is_planned found.rel_path) (sorted record_leb files)

  -- `source_dirs`, without the root and what the filters exclude
  unfoldable pub planned_source_dirs : List DirRecord → List DirRecord
  unfolding sorted directory_leb is_planned
  planned_source_dirs found =
      keep (λ dir. is_nonempty dir.rel_path && is_planned dir.rel_path) (sorted directory_leb found)

-- `target_dirs`, without the root
unfoldable pub planned_target_dirs : List DirRecord → List DirRecord
unfolding sorted directory_leb
planned_target_dirs found = keep (λ dir. is_nonempty dir.rel_path) (sorted directory_leb found)

module _ (platform : Platform) (source target : ScanResult) (correspondence : MappingSnapshot)
    (options : SyncOptions) where
  -- `assignment`
  unfoldable pub planned_assignment : Assignment
  unfolding planned_files assign_by
  planned_assignment =
      assign_by platform options.destination_policy (planned_files platform options source.files)
        target

  -- `required_directory_paths`, in the order of the loop
  unfoldable pub planned_directories : List Text
  unfolding sorted shallower required_directory_paths planned_source_dirs planned_assignment
  planned_directories = sorted (shallower platform) (
      required_directory_paths (planned_source_dirs platform options source.directories)
        planned_assignment.items)

  -- `mkdir_operations` and `created_directories`
  unfoldable pub planned_mkdirs : List PlanOperation × Dict Text PlanOperation
  unfolding mkdirs dir_groups file_groups planned_files planned_source_dirs planned_target_dirs
      planned_directories
  planned_mkdirs =
      mkdirs platform (dir_groups (planned_source_dirs platform options source.directories))
        (dir_groups (planned_target_dirs target.directories))
        (file_groups (planned_files platform options target.files)) planned_directories [] []

  -- What the loop over the assignments reads.
  unfoldable pub content_context : ContentContext
  unfolding file_groups dir_groups item_groups normalization_pairs count_identities planned_files
      planned_target_dirs planned_assignment planned_mkdirs
  content_context =
      let source_files = planned_files platform options source.files in
      let target_files = planned_files platform options target.files in
      let items = planned_assignment.items in
      record {
        source_files_by_key = file_groups source_files;
        target_dirs_by_key = dir_groups (planned_target_dirs target.directories);
        normalizations = normalization_pairs platform items target_files (file_groups target_files);
        created = planned_mkdirs.1;
        assigned_groups = item_groups items;
        granularity =
            larger source.profile.mtime_granularity_ns target.profile.mtime_granularity_ns;
        propagate_source_casing = options.propagate_source_casing;
        moves = record {
          correspondence = correspondence;
          source = source;
          target = target;
          target_files_by_key = file_groups target_files;
          assigned_target_keys = map (λ item. item.target_rel_path_key) items;
          source_identity_counts = identity_counts source_files;
          target_identity_counts = identity_counts target_files;
        };
      }

  -- `removal_operations`
  unfoldable pub planned_removals : List Content → List PlanOperation
  unfolding removal_operations planned_files
  planned_removals contents =
      removal_operations platform options.deletion_policy (claims_of contents) (moved_of contents)
        (planned_files platform options target.files)

  -- What the loop over the target directories reads.
  unfoldable pub cleanup_context : List Content → CleanupContext
  unfolding removal_by_path removed_file_keys path_key planned_files planned_target_dirs
      planned_directories planned_removals
  cleanup_context contents = record {
    policy = options.deletion_policy;
    target = target;
    target_dirs = planned_target_dirs target.directories;
    desired_keys = map (path_key platform.upper) planned_directories;
    removed_keys =
        removed_file_keys options.deletion_policy (claims_of contents) (moved_of contents)
          (planned_files platform options target.files);
    removals = removal_by_path (operations_of contents ++ planned_removals contents) [];
  }

  -- `cleanup_operations`
  unfoldable pub planned_cleanups : List Content → List PlanOperation
  unfolding cleanup cleanup_context sorted deeper_first excludes planned_target_dirs
  planned_cleanups contents =
      cleanup platform (excludes platform options.filters) (cleanup_context contents)
        (sorted deeper_first (planned_target_dirs target.directories)) [] []

  -- `operations`
  unfoldable pub planned_operations : List Content → List PlanOperation
  unfolding planned_mkdirs planned_removals planned_cleanups unsupported_operations excludes
  planned_operations contents =
      planned_mkdirs.0
      ++ operations_of contents
      ++ planned_removals contents
      ++ unsupported_operations platform (excludes platform options.filters)
          (source.unsupported ++ target.unsupported)
      ++ planned_cleanups contents

  -- `placeholder`
  abbrev no_fingerprint : String
  no_fingerprint = "0000000000000000000000000000000000000000000000000000000000000000"

  unfoldable pub placeholder_of : List PlanOperation → Plan
  unfolding planned_assignment calculate_required_bytes policy_fingerprint volumes_of is_full_scan
  placeholder_of operations = record {
    source_root = source.root;
    target_root = target.root;
    source_volume_id = source.volume_id;
    target_volume_id = target.volume_id;
    source_volume_evidence = source.volume_evidence;
    target_volume_evidence = target.volume_evidence;
    source_profile = source.profile;
    target_profile = target.profile;
    source_complete = source.complete && is_full_scan source;
    target_complete = target.complete && is_full_scan target;
    operations = operations;
    assignment = planned_assignment;
    preservation = options.preservation;
    filter_snapshot = options.filters;
    deletion_policy = options.deletion_policy;
    trash_on_update = options.trash_on_update;
    policy_fingerprint = policy_fingerprint platform options;
    worker_count = options.worker_count;
    required_volumes = volumes_of source target;
    required_bytes = calculate_required_bytes operations target.profile options.trash_on_update 0;
    fingerprint = no_fingerprint;
  }

  -- The plan with the operations.
  unfoldable pub plan_of : List PlanOperation → Plan
  unfolding placeholder_of plan_fingerprint
  plan_of operations = record (placeholder_of operations) {
    fingerprint = plan_fingerprint platform (placeholder_of operations);
  }

  -- `plan`, whose last step is the constructor of `Plan`
  unfoldable pub plan : Scope → Result PlanError Plan
  unfolding plan_scope_eq validate_assignment sorted item_leb visit_items content_context
      planned_files planned_assignment planned_operations plan_of is_dependency_ordered
  plan scope = do
    raise_if (not (scope.kind == ScopeKind.everything)) PlanError.scope_not_implemented
    assignments ←
        validate_assignment platform planned_assignment.items
          (planned_files platform options source.files)
    contents ← visit_items platform content_context (sorted item_leb planned_assignment.items)
    raise_if
        (leb options.worker_count 0 || not (is_dependency_ordered [] (planned_operations contents)))
        PlanError.invalid_plan
    ok (plan_of (planned_operations contents))
