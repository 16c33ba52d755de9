-- ===== src/Examples/Plans.antt =====
-- The planner on a small pair of scans.
use native.Mathlib.Decide.{ℕ_discrete}
use nami_sync.Base.{
  ◌≡◌, refl, true, false, String, List, [], ◌∷◌, ◌++◌, map, none, some, Result, ok, err, ◌&&◌,
  if◌then◌else◌, arith,
}
use nami_sync.Examples.Selections.{two_drives}
use nami_sync.Preflight.{ObservedWorld}
use nami_sync.Preflight.Judging.{preflight}
use nami_sync.Preflight.Judging.Blameless.{blames_selection}
use nami_sync.Preflight.Judging.Ready.{fresh_set}
use nami_sync.Selection.{ExecutionSelection, derive_execution_selection}
use nami_sync.Selection.Planned.{plan_is_ready}
use nami_sync.Models.{MetadataSnapshot}
use nami_sync.Models.Records.{FileRecord, DirRecord, ScanResult, ScanScopeKind}
use nami_sync.Paths.{codes, text_eq, check_component}
use nami_sync.Planner.{PlanError}
use nami_sync.Base.Lists.{All, keep}
use nami_sync.Base.Sorting.{sorted}
use nami_sync.Paths.Parts.{parent_of, ancestors_within, ancestors}
use nami_sync.Paths.Parts.Walking.{ancestors_end}
use nami_sync.Planner.Assigned.{
  succeeds, are_valid, is_assignment_of, validate_assignment-is_assignment_of,
}
use nami_sync.Planner.Assigning.{identity_of_item, validate_assignment}
use nami_sync.Planner.Backward.{are_new}
use nami_sync.Planner.Contents.{Content}
use nami_sync.Planner.Covered.{source_of, plan_covers}
use nami_sync.Planner.Segments.{Segment, In, is_for_content}
use nami_sync.Planner.Succeeding.{plan_succeeds}
use nami_sync.Planner.Visiting.{visit_items, item_leb}
use nami_sync.Planner.Assembly.{
  plan, plan_of, planned_assignment, planned_files, planned_operations, content_context,
  file_groups,
}
use nami_sync.Planning.{OperationKind, PlanOperation, Plan, op_ids}
use nami_sync.Planning.Options.{Platform, SyncOptions, DestinationPolicy}
use nami_sync.Policies.{
  DeletionPolicy, DestinationAssignment, MappingSnapshot, empty_mapping, Scope, ScopeKind,
  ScopeValue,
}

abbrev id_by_kind : OperationKind → String
id_by_kind OperationKind.mkdir = "m"
id_by_kind OperationKind.copy = "c"
id_by_kind OperationKind.trash = "t"
id_by_kind kind = "o"

abbrev pub ascii : Platform
ascii = record {
  upper = λ c. c ∷ [];
  nfc = λ text. text;
  fnmatchcase = λ candidate pattern. false;
  hash_intent = λ intent. id_by_kind intent.kind;
  hash_policy = λ payload. "p";
  hash_plan = λ plan. "f";
}

abbrev pub plain : MetadataSnapshot
plain = record { attributes = 32; created_ns = none }

abbrev pub a_file : String → FileRecord
a_file path = record {
  rel_path = codes path;
  rel_path_key = codes path;
  size = 7;
  mtime_ns = 5;
  file_identity = none;
  nlink = 1;
  metadata = plain;
}

abbrev a_directory : String → DirRecord
a_directory path = record {
  rel_path = codes path;
  rel_path_key = codes path;
  mtime_ns = 5;
  metadata = plain;
  file_identity = none;
  nlink = 1;
}

abbrev a_scan : String → List FileRecord → List DirRecord → ScanResult
a_scan root files directories = record {
  root = record { path = codes "C:\\"; root_id = root };
  volume_id = none;
  volume_evidence = none;
  profile = record {
    fs_type = "NTFS";
    mtime_granularity_ns = 100;
    stable_file_identity = true;
    incurs_seek_penalty = none;
    max_path = 260;
    supports_ads = true;
    supports_hardlinks = true;
  };
  files = files;
  directories = directories;
  unsupported = [];
  scope = record { kind = ScanScopeKind.full; selected_paths = [] };
  complete = true;
}

-- The source has `D\A`, the target `B`.
abbrev a_source : ScanResult
a_source = a_scan "s" (a_file "D\\A" ∷ []) (a_directory "D" ∷ [])

abbrev a_target : ScanResult
a_target = a_scan "t" (a_file "B" ∷ []) []

abbrev pub trashing : SyncOptions
trashing = record {
  deletion_policy = DeletionPolicy.trash;
  preservation = record { preserve_ads = false; preserve_created = true; preserve_acl = false };
  filters = record { patterns = [] };
  destination_policy = DestinationPolicy.identity "identity" "1";
  worker_count = 1;
  trash_on_update = true;
  propagate_source_casing = false;
  internal_mirror_authorized = false;
}

abbrev everything : Scope
everything = record { kind = ScopeKind.everything; value = ScopeValue.no_value }

abbrev kinds_of : Result PlanError Plan → List OperationKind
kinds_of (ok planned) = map (λ operation. operation.kind) planned.operations
kinds_of (err e) = []

plan_kinds :
    kinds_of (plan ascii a_source a_target (empty_mapping none none) trashing everything)
    ≡ OperationKind.mkdir ∷ OperationKind.copy ∷ OperationKind.trash ∷ []
unfolding plan text_eq ℕ_discrete check_component
plan_kinds = refl

abbrev the_item : DestinationAssignment
the_item = record {
  source_rel_path = codes "D\\A";
  source_rel_path_key = codes "D\\A";
  target_rel_path = codes "D\\A";
  target_rel_path_key = codes "D\\A";
  group_id = none;
  conflict = none;
}

abbrev unmapped : MappingSnapshot
unmapped = empty_mapping none none

abbrev the_plan : Plan
the_plan = elim (plan ascii a_source a_target unmapped trashing everything) [
  | ok planned ↦ planned
  | err e ↦ plan_of ascii a_source a_target unmapped trashing []
]

the_plan_is : plan ascii a_source a_target unmapped trashing everything ≡ ok the_plan
unfolding plan text_eq ℕ_discrete check_component
the_plan_is = refl

the_items_validate :
    validate_assignment ascii
      (planned_assignment ascii a_source a_target unmapped trashing).items
      (planned_files ascii trashing a_source.files)
    ≡ ok ((identity_of_item the_item, the_item) ∷ [])
unfolding validate_assignment planned_assignment text_eq ℕ_discrete check_component
the_items_validate = refl

plan_succeeds_example :
    (contents : List Content) × (visit_items ascii
        (content_context ascii a_source a_target unmapped trashing)
        (sorted item_leb (planned_assignment ascii a_source a_target unmapped trashing).items)
      ≡ ok contents)
    × (plan ascii a_source a_target unmapped trashing everything ≡ (
        let operations = planned_operations ascii a_source a_target unmapped trashing contents in
        if are_new [] (op_ids operations)
        then ok (plan_of ascii a_source a_target unmapped trashing operations)
        else err PlanError.invalid_plan))
plan_succeeds_example =
    plan_succeeds ascii a_source a_target unmapped trashing everything
      ((identity_of_item the_item, the_item) ∷ []) refl refl the_items_validate

-- The target has a directory `E`, with the file `E\F` in it.
abbrev a_full_target : ScanResult
a_full_target = a_scan "t" (a_file "E\\F" ∷ []) (a_directory "E" ∷ [])

abbrev cleaning_plan : Plan
cleaning_plan = elim (plan ascii a_source a_full_target unmapped trashing everything) [
  | ok planned ↦ planned
  | err e ↦ plan_of ascii a_source a_full_target unmapped trashing []
]

cleaning_kinds :
    map (λ operation. operation.kind) cleaning_plan.operations
    ≡ OperationKind.mkdir ∷ OperationKind.copy ∷ OperationKind.trash ∷ OperationKind.delete ∷ []
unfolding plan text_eq ℕ_discrete check_component
cleaning_kinds = refl

plan_covers_example :
    let content = keep is_for_content the_plan.operations in
    (before after : List PlanOperation) × (the_plan.operations ≡ before ++ content ++ after)
    × All (In Segment.for_directories) before
    × All (In Segment.leftovers) after
    × (map (λ operation. operation.source_rel_path) content
        ≡ map
            (source_of (file_groups (planned_files ascii trashing a_source.files)))
            (sorted item_leb (planned_assignment ascii a_source a_target unmapped trashing).items))
plan_covers_example =
    plan_covers ascii a_source a_target unmapped trashing everything the_plan the_plan_is

validate_assignment-is_assignment_of_example :
    succeeds (validate_assignment ascii (the_item ∷ the_item ∷ []) (a_file "D\\A" ∷ [])) ≡ (
      are_valid ascii (the_item ∷ the_item ∷ [])
      && is_assignment_of (the_item ∷ the_item ∷ []) (a_file "D\\A" ∷ []))
validate_assignment-is_assignment_of_example =
    validate_assignment-is_assignment_of ascii (the_item ∷ the_item ∷ []) (a_file "D\\A" ∷ [])

-- An item assigned twice does not validate.
assigned_twice : is_assignment_of (the_item ∷ the_item ∷ []) (a_file "D\\A" ∷ []) ≡ false
unfolding is_assignment_of text_eq ℕ_discrete
assigned_twice = refl

ancestors_end_example :
    (ancestors_within 9 (codes "a\\b\\c") ≡ ancestors (codes "a\\b\\c"))
    × (ancestors (codes "a\\b\\c") ≡ elim (parent_of (codes "a\\b\\c")) [
      | none ↦ []
      | some parent ↦ parent ∷ ancestors parent
    ])
ancestors_end_example = ancestors_end (codes "a\\b\\c") 9 (omega arith)

ancestors_run : ancestors (codes "a\\b\\c") ≡ codes "a\\b" ∷ codes "a" ∷ []
unfolding ancestors ℕ_discrete
ancestors_run = refl

plan_is_ready_example :
    (result : ExecutionSelection) × (derive_execution_selection ascii.upper the_plan ≡ some result)
    × ((world : ObservedWorld)
        → blames_selection
            (preflight ascii.upper two_drives (fresh_set "r" none the_plan result.selection) world)
          ≡ false)
plan_is_ready_example =
    plan_is_ready ascii a_source a_target unmapped trashing everything the_plan two_drives "r" none
      the_plan_is
