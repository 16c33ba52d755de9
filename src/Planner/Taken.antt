-- ===== src/Planner/Taken.antt =====
-- The files that a plan takes away, and the directories it empties (namisync/modules/planner.py).
use nami_sync.Base.{
  ◌≡◌, refl, Bool, true, false, ok, ◌||◌, ◌&&◌, List, [], ◌∷◌, ◌++◌, contains, arith, ◌==◌, ==_refl,
  ==_sound, Bool-cases, inl, inr,
}
use nami_sync.Base.Lists.{All, All-keep, All-map, any, any-append, any_self}
use nami_sync.Base.Sorting.{sorted, All-sorted}
use nami_sync.Models.Records.{FileRecord, ScanResult, UnsupportedRecord}
use nami_sync.Paths.{Text, text_eq}
use nami_sync.Planner.Assembly.{
  planned_mkdirs, planned_removals, planned_cleanups, planned_operations, planned_files,
  planned_target_dirs, cleanup_context, content_context, planned_assignment, plan_of,
}
use nami_sync.Planner.Cleanup.{deeper_first}
use nami_sync.Planner.Contents.{Content}
use nami_sync.Planner.Covered.{planned_mkdirs-In}
use nami_sync.Planner.Emptied.{Empties, is_cleanup, cleanup-Empties}
use nami_sync.Planner.Inverting.{planned_operations-All}
use nami_sync.Planner.Moved.{Moves, is_moved, moved_of-is_moved, visit_items-Moves, contains_append}
use nami_sync.Planner.Segments.{Segment, In, visit_items-In, removal_operations-All}
use nami_sync.Planner.{blocked_operation}
use nami_sync.Planner.Removals.{
  removal_operations, removals_as, removal, removed_files, removed_file_keys, record_keys,
  is_unclaimed, unsupported_operations, unsupported_as,
}
use nami_sync.Planner.Visiting.{claims_of, moved_of, operations_of, visit_items, item_leb}
use nami_sync.Planning.{OperationKind, OperationReason, PlanOperation}
use nami_sync.Planning.Options.{Platform, SyncOptions, excludes}
use nami_sync.Policies.{DeletionPolicy, MappingSnapshot}

abbrev removes_file : OperationKind → OperationReason → Bool
removes_file OperationKind.trash OperationReason.target_only = true
removes_file OperationKind.delete OperationReason.target_only = true
removes_file kind reason = false

-- The operation removes a file of the key.
abbrev removes : List FileRecord → Text → PlanOperation → Bool
removes files key operation =
    removes_file operation.kind operation.reason
    && any (λ found. found.rel_path == operation.target_rel_path && found.rel_path_key == key) files

-- Some of the content moves a file of the key away, or one of the operations removes one.
abbrev pub is_taken : List FileRecord → List Content → List PlanOperation → Text → Bool
is_taken files contents operations key = is_moved contents key || any (removes files key) operations

-- An operation that some removal or some cleanup is, some operation of all the stages is.
stages_any :
    (test : PlanOperation → Bool) (m c r u d : List PlanOperation)
    → (any test r || any test d) ≡ true
    → any test (m ++ c ++ r ++ u ++ d) ≡ true
stages_any test m c r u d h =
    rw
      (
        any-append test (m ++ c ++ r ++ u) d,
        any-append test (m ++ c ++ r) u,
        any-append test (m ++ c) r,
      )
      (ground (arith, h))

abbrev Listed : List FileRecord → FileRecord → Type 0
Listed files found = (test : FileRecord → Bool) → test found ≡ true → any test files ≡ true

module _ (platform : Platform) (files : List FileRecord) (key : Text) where
  removals_as-removes :
      (kind : OperationKind)
      → removes_file kind OperationReason.target_only ≡ true
      → (kept : List FileRecord) → All (Listed files) kept
      → contains (record_keys kept) key ≡ true
      → any (removes files key) (removals_as platform kind kept) ≡ true
  unfolding removals_as removal
  removals_as-removes kind k [] listed h = h
  removals_as-removes kind k (found ∷ kept) listed h =
      elim (Bool-cases (key == found.rel_path_key)) [
        | inr other ↦
            ground (arith, removals_as-removes kind k kept listed.1 (ground (arith, h, other)))
        | inl same ↦
            let here : any
                  (λ record_. record_.rel_path == found.rel_path && record_.rel_path_key == key)
                  files
                ≡ true =
              listed.0
                (λ record_. record_.rel_path == found.rel_path && record_.rel_path_key == key)
                (rw
                  (
                    ==_sound key found.rel_path_key same,
                    ==_refl found.rel_path,
                    ==_refl found.rel_path_key,
                  )
                  refl) in
            rw (k, here) refl
      ]

  -- A file whose key is noted as removed is one that an operation removes.
  removal_operations-removes :
      (policy : DeletionPolicy) (claimed moved_from : List Text)
      → contains (record_keys (removed_files policy claimed moved_from files)) key ≡ true
      → any (removes files key) (removal_operations platform policy claimed moved_from files) ≡ true
  unfolding removal_operations removed_files
  removal_operations-removes DeletionPolicy.additive claimed moved_from h = absurd (ground arith)
  removal_operations-removes DeletionPolicy.trash claimed moved_from h =
      removals_as-removes OperationKind.trash refl _
        (All-keep (Listed files) (is_unclaimed claimed moved_from) files (any_self files)) h
  removal_operations-removes DeletionPolicy.mirror claimed moved_from h =
      removals_as-removes OperationKind.delete refl _
        (All-keep (Listed files) (is_unclaimed claimed moved_from) files (any_self files)) h

directories_kept :
    (operation : PlanOperation)
    → In Segment.for_directories operation
    → is_cleanup operation ≡ false
directories_kept operation h = ground (arith, h)

content_kept :
    (operation : PlanOperation) → In Segment.for_content operation → is_cleanup operation ≡ false
content_kept operation h = ground (arith, h)

unsupported_as-kept :
    (platform : Platform) (records : List UnsupportedRecord)
    → All (λ operation. is_cleanup operation ≡ false) (unsupported_as platform records)
unfolding unsupported_as blocked_operation
unsupported_as-kept platform [] = tt
unsupported_as-kept platform (found ∷ records) = (refl, unsupported_as-kept platform records)

module _ (platform : Platform) (source target : ScanResult) (correspondence : MappingSnapshot)
    (options : SyncOptions) (contents : List Content) where
  -- The files that the content moves and that the removals remove.
  abbrev pub is_planned_away : List PlanOperation → Text → Bool
  is_planned_away = is_taken (planned_files platform options target.files) contents

  -- The plan's operations that remove a directory empty it.
  abbrev pub PlannedEmpties : List PlanOperation → PlanOperation → Type 0
  PlannedEmpties whole =
      Empties platform (excludes platform options.filters)
        (cleanup_context platform source target correspondence options contents)
        (is_planned_away whole) whole

  removed_keys-taken :
      (whole : List PlanOperation)
      → All Moves contents
      → ((test : PlanOperation → Bool)
          → any test (planned_removals platform source target correspondence options contents)
            ≡ true
          → any test whole ≡ true)
      → (key : Text)
      → contains
          (cleanup_context platform source target correspondence options contents).removed_keys
          key
        ≡ true
      → is_planned_away whole key ≡ true
  unfolding cleanup_context removed_file_keys planned_removals
  removed_keys-taken whole moving grows key h =
      let files = planned_files platform options target.files in
      let removed =
        removed_files options.deletion_policy (claims_of contents) (moved_of contents) files in
      ground (
        arith,
        h,
        contains_append (moved_of contents) (record_keys removed) key,
        moved_of-is_moved contents key moving,
        grows (removes files key),
        removal_operations-removes platform files key options.deletion_policy (claims_of contents)
            (moved_of contents),
      )

  stage_any :
      (test : PlanOperation → Bool)
      → (any test (planned_removals platform source target correspondence options contents)
          || any test (planned_cleanups platform source target correspondence options contents))
        ≡ true
      → any test (planned_operations platform source target correspondence options contents) ≡ true
  unfolding planned_operations
  stage_any test h =
      stages_any test (planned_mkdirs platform source target correspondence options).0
        (operations_of contents)
        (planned_removals platform source target correspondence options contents)
        (unsupported_operations platform (excludes platform options.filters)
          (source.unsupported ++ target.unsupported))
        (planned_cleanups platform source target correspondence options contents) h

  pub planned_cleanups-Empties :
      All Moves contents
      → let whole = planned_operations platform source target correspondence options contents in
        All
          (PlannedEmpties whole)
          (planned_cleanups platform source target correspondence options contents)
  unfolding planned_cleanups cleanup_context
  planned_cleanups-Empties moving =
      let whole = planned_operations platform source target correspondence options contents in
      let dirs = planned_target_dirs target.directories in
      cleanup-Empties platform (excludes platform options.filters)
        (cleanup_context platform source target correspondence options contents)
        (is_planned_away whole)
        (removed_keys-taken whole moving (λ test h. stage_any test (ground (arith, h)))) whole
        (sorted deeper_first dirs) [] [] (All-sorted deeper_first _ dirs (any_self dirs))
        (λ test h. stage_any test (ground (arith, h))) (λ key h. absurd (ground arith)) tt

  -- A plan's operations empty the directories that they remove.
  pub planned_operations-PlannedEmpties :
      visit_items platform
          (content_context platform source target correspondence options)
          (sorted item_leb (planned_assignment platform source target correspondence options).items)
        ≡ ok contents
      → let planned =
          plan_of platform source target correspondence options
            (planned_operations platform source target correspondence options contents) in
        All (PlannedEmpties planned.operations) planned.operations
  unfolding plan_of planned_removals unsupported_operations
  planned_operations-PlannedEmpties looped =
      let whole = planned_operations platform source target correspondence options contents in
      let none_cleaned : (operations : List PlanOperation)
          → All (λ operation. is_cleanup operation ≡ false) operations
          → All (PlannedEmpties whole) operations =
        λ operations.
          All-map _ _ (λ operation no yes. absurd (ground (arith, no, yes))) operations in
      planned_operations-All platform source target correspondence options (PlannedEmpties whole)
        contents
        (none_cleaned _ (
          All-map _ _ directories_kept _
            (planned_mkdirs-In platform source target correspondence options)))
        (none_cleaned _ (
          All-map _ _ content_kept _ (
            visit_items-In platform (content_context platform source target correspondence options)
              _ contents looped)))
        (none_cleaned _ (
          removal_operations-All platform (λ operation. is_cleanup operation ≡ false)
            (λ found. unfold removal in refl) (λ found. unfold removal in refl)
            options.deletion_policy (claims_of contents) (moved_of contents)
            (planned_files platform options target.files)))
        (none_cleaned _ (unsupported_as-kept platform _))
        (planned_cleanups-Empties (
          visit_items-Moves platform (content_context platform source target correspondence options)
            _ contents looped))
