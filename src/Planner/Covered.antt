-- ===== src/Planner/Covered.antt =====
-- Each assignment has one operation in the plan (namisync/modules/planner.py).
use nami_sync.Base.{
  ◌≡◌, refl, Bool, List, [], ◌∷◌, ◌++◌, map, Option, none, some, ok, inl, inr, ltb, arith,
}
use mathlib.Core.List.{append_assoc}
use nami_sync.Base.Dict.{Dict, get}
use nami_sync.Base.Lists.{All, All-append, List-cases, keep, length}
use nami_sync.Base.Sorting.{sorted}
use nami_sync.Models.Records.{FileRecord, ScanResult}
use nami_sync.Paths.{Text, text_eq}
use nami_sync.Planner.Assembly.{
  planned_mkdirs, planned_removals, planned_cleanups, planned_operations, content_context,
  dir_groups, planned_source_dirs, planned_target_dirs, planned_directories, cleanup_context,
  planned_assignment, planned_files, plan_of, plan, file_groups,
}
use nami_sync.Planner.Assigning.{source_identity_eq, identity_of_item}
use nami_sync.Planner.Cleanup.{deeper_first}
use nami_sync.Planner.Contents.{
  Content, ContentContext, matched_content, absent_content, moved_content, copied_content,
}
use nami_sync.Planner.Inverting.{plan-contents}
use nami_sync.Planner.{group_at}
use nami_sync.Planner.Removals.{unsupported_operations}
use nami_sync.Planner.Segments.{
  Segment, In, is_for_content, keep_content, mkdirs-In, visit_items-In, removal_operations-In,
  unsupported_operations-In, cleanup-In,
}
use nami_sync.Planner.Staged.{visit_items-cons}
use nami_sync.Planner.Visiting.{
  with_normalization, content_of, visit_item, visit_items, item_leb, operations_of, claims_of,
  moved_of,
}
use nami_sync.Planning.{PlanOperation, Plan}
use nami_sync.Planning.Options.{Platform, SyncOptions, excludes}
use nami_sync.Policies.{DestinationAssignment, MappingSnapshot, Scope}

abbrev first_path : List FileRecord → Option Text
first_path [] = none
first_path (found ∷ records) = some found.rel_path

-- The path of the first of the records that have the item's source key.
unfoldable pub source_of : Dict Text (List FileRecord) → DestinationAssignment → Option Text
unfolding group_at text_eq
source_of groups item = first_path (group_at item.source_rel_path_key groups)

module _ (platform : Platform) (context : ContentContext) where
  content_of-source :
      (item : DestinationAssignment) (found : FileRecord) (collision : Bool)
      (values : List FileRecord) (mismatch : Bool)
      → (content_of platform context item found collision values mismatch).operation.source_rel_path
        ≡ some found.rel_path
  unfolding content_of absent_content matched_content moved_content copied_content
  content_of-source item found collision values mismatch = ground arith

  visit_item-source :
      (item : DestinationAssignment) (content : Content)
      → visit_item platform context item ≡ ok content
      → content.operation.source_rel_path ≡ source_of context.source_files_by_key item
  unfolding visit_item source_of
  visit_item-source item content e =
      elim (List-cases (group_at item.source_rel_path_key context.source_files_by_key)) [
        | inl missing ↦ ground arith
        | inr (found, others, g) ↦
            let values =
              with_normalization
                (group_at item.target_rel_path_key context.moves.target_files_by_key)
                (get (identity_of_item item) context.normalizations) in
            let same =
              content_of-source item found (ltb 1 (length (found ∷ others))) values.0 values.1 in
            ground (arith, same)
      ]

  visit_items-sources :
      (items : List DestinationAssignment) (contents : List Content)
      → visit_items platform context items ≡ ok contents
      → map (λ operation. operation.source_rel_path) (operations_of contents)
        ≡ map (source_of context.source_files_by_key) items
  unfolding visit_items
  visit_items-sources [] contents e = let is : contents ≡ [] = ground arith in rw is refl
  visit_items-sources (item ∷ items) contents e =
      let (content, rest, is, f, g) = visit_items-cons platform context item items contents e in
      rw is (rw (visit_item-source item content f, visit_items-sources items rest g) refl)

module _ (platform : Platform) (source target : ScanResult) (correspondence : MappingSnapshot)
    (options : SyncOptions) where
  pub planned_mkdirs-In :
      All
        (In Segment.for_directories)
        (planned_mkdirs platform source target correspondence options).0
  unfolding planned_mkdirs
  planned_mkdirs-In =
      mkdirs-In platform (dir_groups (planned_source_dirs platform options source.directories))
        (dir_groups (planned_target_dirs target.directories))
        (file_groups (planned_files platform options target.files))
        (planned_directories platform source target correspondence options) [] [] tt

  planned_removals-In :
      (contents : List Content)
      → All
          (In Segment.leftovers)
          (planned_removals platform source target correspondence options contents)
  unfolding planned_removals
  planned_removals-In contents =
      removal_operations-In platform options.deletion_policy (claims_of contents)
        (moved_of contents) (planned_files platform options target.files)

  planned_cleanups-In :
      (contents : List Content)
      → All
          (In Segment.leftovers)
          (planned_cleanups platform source target correspondence options contents)
  unfolding planned_cleanups
  planned_cleanups-In contents =
      cleanup-In platform (excludes platform options.filters)
        (cleanup_context platform source target correspondence options contents)
        (sorted deeper_first (planned_target_dirs target.directories)) [] [] tt

  leftovers_of : List Content → List PlanOperation
  leftovers_of contents =
      planned_removals platform source target correspondence options contents
      ++ unsupported_operations platform (excludes platform options.filters)
          (source.unsupported ++ target.unsupported)
      ++ planned_cleanups platform source target correspondence options contents

  leftovers_of-In : (contents : List Content) → All (In Segment.leftovers) (leftovers_of contents)
  unfolding leftovers_of
  leftovers_of-In contents =
      All-append (In Segment.leftovers) _ _
        (All-append (In Segment.leftovers) _ _ (planned_removals-In contents) (
          unsupported_operations-In platform (excludes platform options.filters)
            (source.unsupported ++ target.unsupported)))
        (planned_cleanups-In contents)

  planned_operations-split :
      (contents : List Content)
      → planned_operations platform source target correspondence options contents
        ≡ (planned_mkdirs platform source target correspondence options).0
          ++ operations_of contents
          ++ leftovers_of contents
  unfolding planned_operations leftovers_of
  planned_operations-split contents = simp append_assoc

-- A returned plan's operations are the directories that it creates, then its content, then its
-- leftovers: removals, and entries that are not supported. Its content is exactly one operation for
-- each assignment, in the order of the loop, whose source is the first of the files that have the
-- assignment's source key.
pub plan_covers :
    (platform : Platform) (source target : ScanResult) (correspondence : MappingSnapshot)
    (options : SyncOptions) (scope : Scope) (planned : Plan)
    → plan platform source target correspondence options scope ≡ ok planned
    → let content = keep is_for_content planned.operations in
      (before after : List PlanOperation) × (planned.operations ≡ before ++ content ++ after)
      × All (In Segment.for_directories) before
      × All (In Segment.leftovers) after
      × (map (λ operation. operation.source_rel_path) content
          ≡ map (source_of (file_groups (planned_files platform options source.files))) (
              sorted item_leb
                (planned_assignment platform source target correspondence options).items))
unfolding plan_of content_context
plan_covers platform source target correspondence options scope planned e =
    let (_, contents, _, looped, is, _) =
      plan-contents platform source target correspondence options scope planned e in
    let items =
      sorted item_leb (planned_assignment platform source target correspondence options).items in
    let context = content_context platform source target correspondence options in
    let before = (planned_mkdirs platform source target correspondence options).0 in
    let after = leftovers_of platform source target correspondence options contents in
    let b = planned_mkdirs-In platform source target correspondence options in
    let a = leftovers_of-In platform source target correspondence options contents in
    let split : planned.operations ≡ before ++ operations_of contents ++ after =
      rw is (planned_operations-split platform source target correspondence options contents) in
    let same =
      keep_content before (operations_of contents) after b
        (visit_items-In platform context items contents looped) a in
    rw split (
      rw same
        (before, after, refl, b, a, visit_items-sources platform context items contents looped))
