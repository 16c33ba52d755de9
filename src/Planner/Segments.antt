-- ===== src/Planner/Segments.antt =====
-- The segments of a plan: directories, content and leftovers (namisync/modules/planner.py).
use nami_sync.Base.{
  ◌≡◌, refl, Bool, true, false, List, [], ◌∷◌, ◌++◌, ok, inl, inr, Bool, ltb, ◌||◌, arith,
  Bool-cases,
}
use mathlib.Core.List.{append-nil}
use nami_sync.Base.Dict.{Dict, get}
use nami_sync.Base.Lists.{All, All-append, List-cases, keep, length}
use nami_sync.Models.Records.{FileRecord, DirRecord, UnsupportedRecord}
use nami_sync.Paths.{Text, text_eq, path_key}
use nami_sync.Planner.Assigning.{source_identity_eq, identity_of_item}
use nami_sync.Planner.Cleanup.{CleanupContext, cleanup, cleanup_operation, is_skipped, is_occupied}
use nami_sync.Planner.Contents.{
  Content, ContentContext, matched_content, absent_content, match_target, recasing, moved_content,
  copied_content,
}
use nami_sync.Planner.Directories.{mkdirs, mkdir_operation}
use nami_sync.Planner.{group_at, blocked_operation}
use nami_sync.Planner.Removals.{
  removal_operations, removals_as, removed_files, removal, unsupported_operations, unsupported_as,
}
use nami_sync.Planner.Staged.{visit_items-cons}
use nami_sync.Planner.Visiting.{
  with_normalization, content_of, visit_item, visit_items, operations_of,
}
use nami_sync.Planning.{OperationKind, OperationReason, PlanOperation}
use nami_sync.Planning.Options.{Platform}
use nami_sync.Policies.{DestinationAssignment, DeletionPolicy}

-- What an operation is for: a directory that is needed, the content of an assignment, or what
-- the target has besides, with the entries that are not supported.
pub data Segment : Type 0 where
  for_directories for_content leftovers : Segment

abbrev segment_by : OperationKind → OperationReason → Segment
segment_by OperationKind.mkdir reason = Segment.for_directories
segment_by OperationKind.trash reason = Segment.leftovers
segment_by OperationKind.delete reason = Segment.leftovers
segment_by OperationKind.noop OperationReason.unsupported = Segment.leftovers
segment_by kind reason = Segment.for_content

abbrev pub segment : PlanOperation → Segment
segment operation = segment_by operation.kind operation.reason

abbrev pub In : Segment → PlanOperation → Type 0
In part operation = segment operation ≡ part

abbrev is_content : Segment → Bool
is_content Segment.for_content = true
is_content part = false

-- An operation on the content of an assignment.
abbrev pub is_for_content : PlanOperation → Bool
is_for_content operation = is_content (segment operation)

keep_all :
    (operations : List PlanOperation)
    → All (In Segment.for_content) operations
    → keep is_for_content operations ≡ operations
keep_all [] h = refl
keep_all (operation ∷ operations) h = rw (h.0, keep_all operations h.1) refl

keep_none :
    (part : Segment)
    → is_content part ≡ false
    → (operations : List PlanOperation) → All (In part) operations
    → keep is_for_content operations ≡ []
keep_none part p [] h = refl
keep_none part p (operation ∷ operations) h = rw (h.0, p, keep_none part p operations h.1) refl

keep-append :
    (xs ys : List PlanOperation)
    → keep is_for_content (xs ++ ys) ≡ keep is_for_content xs ++ keep is_for_content ys
keep-append [] ys = refl
keep-append (x ∷ xs) ys = ground (arith, keep-append xs ys)

-- Between directories and leftovers, the content is what is kept.
pub keep_content :
    (before content after : List PlanOperation)
    → All (In Segment.for_directories) before
    → All (In Segment.for_content) content
    → All (In Segment.leftovers) after
    → keep is_for_content (before ++ content ++ after) ≡ content
keep_content before content after b c a =
    rw
      (
        keep-append (before ++ content) after,
        keep-append before content,
        keep_none Segment.for_directories refl before b,
        keep_all content c,
        keep_none Segment.leftovers refl after a,
      )
      (append-nil content)

module _ (platform : Platform) where
  mkdir_operation-In :
      (path : Text) (dirs : List DirRecord) (files : List FileRecord) (dependencies : List _)
      → In Segment.for_directories (mkdir_operation platform path dirs files dependencies)
  unfolding mkdir_operation
  mkdir_operation-In path [] files dependencies = refl
  mkdir_operation-In path (d ∷ []) [] dependencies = refl
  mkdir_operation-In path (d ∷ []) (f ∷ files) dependencies = refl
  mkdir_operation-In path (d ∷ e ∷ dirs) files dependencies = refl

  pub mkdirs-In :
      (source_dirs target_dirs : Dict Text (List DirRecord)) (files : Dict Text (List FileRecord))
      (paths : List Text) (operations : List PlanOperation) (created : Dict Text PlanOperation)
      → All (In Segment.for_directories) operations
      → All
          (In Segment.for_directories)
          (mkdirs platform source_dirs target_dirs files paths operations created).0
  unfolding mkdirs
  mkdirs-In source_dirs target_dirs files [] operations created h = h
  mkdirs-In source_dirs target_dirs files (path ∷ paths) operations created h =
      elim (List-cases (group_at (path_key platform.upper path) target_dirs)) [
        | inr (found, rest, e) ↦
            rw (e, mkdirs) (mkdirs-In source_dirs target_dirs files paths operations created h)
        | inl e ↦
            rw (e, mkdirs)
              (mkdirs-In source_dirs target_dirs files paths _ _ (
                All-append (In Segment.for_directories) operations (_ ∷ []) h
                  (mkdir_operation-In path _ _ _, tt)))
      ]

  content_of-In :
      (context : ContentContext) (item : DestinationAssignment) (found : FileRecord)
      (collision : Bool) (values : List FileRecord) (mismatch : Bool)
      → In Segment.for_content
          (content_of platform context item found collision values mismatch).operation
  unfolding content_of absent_content matched_content moved_content copied_content match_target
      recasing
  content_of-In context item found collision values mismatch = ground arith

  visit_item-In :
      (context : ContentContext) (item : DestinationAssignment) (content : Content)
      → visit_item platform context item ≡ ok content
      → In Segment.for_content content.operation
  unfolding visit_item
  visit_item-In context item content e =
      elim (List-cases (group_at item.source_rel_path_key context.source_files_by_key)) [
        | inl missing ↦ ground arith
        | inr (found, others, g) ↦
            let values =
              with_normalization
                (group_at item.target_rel_path_key context.moves.target_files_by_key)
                (get (identity_of_item item) context.normalizations) in
            let is : content
                ≡ content_of platform context item found (ltb 1 (length (found ∷ others))) values.0
                    values.1 =
              ground arith in
            rw is
              (content_of-In context item found (ltb 1 (length (found ∷ others))) values.0 values.1)
      ]

  pub visit_items-In :
      (context : ContentContext) (items : List DestinationAssignment) (contents : List Content)
      → visit_items platform context items ≡ ok contents
      → All (In Segment.for_content) (operations_of contents)
  unfolding visit_items
  visit_items-In context [] contents e = let is : contents ≡ [] = ground arith in rw is tt
  visit_items-In context (item ∷ items) contents e =
      let (content, rest, is, f, g) = visit_items-cons platform context item items contents e in
      rw is (visit_item-In context item content f, visit_items-In context items rest g)

  removals_as-All :
      (P : PlanOperation → Type 0) (kind : OperationKind)
      → ((found : FileRecord) → P (removal platform kind found))
      → (files : List FileRecord) → All P (removals_as platform kind files)
  unfolding removals_as
  removals_as-All P kind f [] = tt
  removals_as-All P kind f (found ∷ files) = (f found, removals_as-All P kind f files)

  -- What holds of a removal of any file, to the trash and for good, holds of those of the policy.
  pub removal_operations-All :
      (P : PlanOperation → Type 0)
      → ((found : FileRecord) → P (removal platform OperationKind.trash found))
      → ((found : FileRecord) → P (removal platform OperationKind.delete found))
      → (policy : DeletionPolicy) (claimed moved_from : List Text) (files : List FileRecord)
      → All P (removal_operations platform policy claimed moved_from files)
  unfolding removal_operations removed_files
  removal_operations-All P t d DeletionPolicy.trash claimed moved_from files =
      removals_as-All P OperationKind.trash t _
  removal_operations-All P t d DeletionPolicy.mirror claimed moved_from files =
      removals_as-All P OperationKind.delete d _
  removal_operations-All P t d DeletionPolicy.additive claimed moved_from files =
      removals_as-All P OperationKind.delete d []

  pub removal_operations-In :
      (policy : DeletionPolicy) (claimed moved_from : List Text) (files : List FileRecord)
      → All (In Segment.leftovers) (removal_operations platform policy claimed moved_from files)
  unfolding removal
  removal_operations-In =
      removal_operations-All (In Segment.leftovers) (λ found. refl) (λ found. refl)

  unsupported_as-In :
      (records : List UnsupportedRecord)
      → All (In Segment.leftovers) (unsupported_as platform records)
  unfolding unsupported_as blocked_operation
  unsupported_as-In [] = tt
  unsupported_as-In (found ∷ records) = (refl, unsupported_as-In records)

  pub unsupported_operations-In :
      (excluded : Text → Bool) (records : List UnsupportedRecord)
      → All (In Segment.leftovers) (unsupported_operations platform excluded records)
  unfolding unsupported_operations
  unsupported_operations-In excluded records = unsupported_as-In _

  pub cleanup-In :
      (excluded : Text → Bool) (context : CleanupContext) (dirs : List DirRecord)
      (operations : List PlanOperation) (cleanups : Dict Text PlanOperation)
      → All (In Segment.leftovers) operations
      → All (In Segment.leftovers) (cleanup platform excluded context dirs operations cleanups)
  unfolding cleanup cleanup_operation
  cleanup-In excluded context [] operations cleanups h = h
  cleanup-In excluded context (directory ∷ dirs) operations cleanups h =
      elim (Bool-cases (
        is_skipped platform excluded context directory
        || is_occupied platform excluded context cleanups directory)) [
          | inl skipped ↦
              rw (skipped, cleanup) (cleanup-In excluded context dirs operations cleanups h)
          | inr kept ↦
              rw (kept, cleanup)
                (cleanup-In excluded context dirs _ _
                  (All-append (In Segment.leftovers) operations (_ ∷ []) h (refl, tt)))
        ]
