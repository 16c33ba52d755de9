-- ===== src/Planner/Succeeding.antt =====
-- `plan` ends in a plan (namisync/modules/planner.py).
use nami_sync.Base.{
  ◌≡◌, refl, true, false, ◌||◌, String, string_eq, List, [], ◌∷◌, ◌++◌, ok, err, if◌then◌else◌, leb,
  contains, arith,
}
use nami_sync.Base.Dict.{Dict, get}
use nami_sync.Base.Lists.{All, All-map}
use nami_sync.Models.Records.{FileRecord, ScanResult, UnsupportedRecord}
use nami_sync.Planner.Assembly.{
  cleanup_context, file_groups, dir_groups, planned_source_dirs, planned_target_dirs,
  planned_directories, planned_mkdirs, planned_removals, planned_cleanups, planned_operations,
  content_context, planned_assignment, planned_files, plan_of, plan,
}
use nami_sync.Planner.Backward.{
  Known, Within, Known-Within, IsBackward, IsBackward-Known, IsBackward-append, are_new,
  is_dependency_ordered-are_new, Holds,
}
use nami_sync.Planner.Contents.{Content}
use nami_sync.Planner.Emptying.{removal_by_path-Entries, cleanup-IsBackward}
use nami_sync.Planner.Removals.{
  removal_operations, removals_as, removal, unsupported_operations, unsupported_as,
}
use nami_sync.Planner.{PlanError, blocked_operation}
use nami_sync.Planner.Cleanup.{deeper_first}
use nami_sync.Planner.Sources.{visit_items_succeeds}
use nami_sync.Planner.Assigning.{SourceIdentity, validate_assignment}
use nami_sync.Base.Sorting.{sorted}
use nami_sync.Paths.{text_eq}
use nami_sync.Planner.Staged.{mkdirs-IsBackward, visit_items-Known, op_ids-append}
use nami_sync.Planner.Visiting.{visit_items, item_leb, operations_of}
use nami_sync.Planning.{OperationKind, PlanOperation, op_ids}
use nami_sync.Planning.Options.{Platform, SyncOptions, excludes}
use nami_sync.Policies.{Scope, ScopeKind, plan_scope_eq, DestinationAssignment, MappingSnapshot}

removals_as-Known :
    (platform : Platform) (known : List String) (kind : OperationKind) (files : List FileRecord)
    → All (λ operation. Known known operation.dependencies) (removals_as platform kind files)
unfolding removals_as removal
removals_as-Known platform known kind [] = tt
removals_as-Known platform known kind (found ∷ files) =
    (tt, removals_as-Known platform known kind files)

unsupported_as-Known :
    (platform : Platform) (known : List String) (records : List UnsupportedRecord)
    → All (λ operation. Known known operation.dependencies) (unsupported_as platform records)
unfolding unsupported_as blocked_operation
unsupported_as-Known platform known [] = tt
unsupported_as-Known platform known (found ∷ records) =
    (tt, unsupported_as-Known platform known records)

contains-concat :
    (xs ys : List String) (id : String)
    → contains (xs ++ ys) id ≡ (contains xs id || contains ys id)
contains-concat [] ys id = refl
contains-concat (x ∷ xs) ys id = ground (arith, contains-concat xs ys id)

Known-self : (ids : List String) → Known ids ids
Known-self [] = tt
Known-self (id ∷ ids) =
    (ground arith, Known-Within ids (id ∷ ids) (λ other h. ground arith) ids (Known-self ids))

Within-middle :
    (a b c d : List PlanOperation) → Within (op_ids (b ++ c)) (op_ids (a ++ b ++ c ++ d))
Within-middle a b c d id h =
    let in_parts : (contains (op_ids b) id || contains (op_ids c) id) ≡ true =
      rw (← contains-concat, ← op_ids-append) h in
    rw
      (
        op_ids-append, op_ids-append, op_ids-append, contains-concat, contains-concat,
        contains-concat,
      )
      (ground arith)

-- Nothing is held by an empty dictionary.
Holds-nil : (ids : List String) → Holds [] ids
unfolding get
Holds-nil ids key operation e = absurd (ground arith)

-- Stages that depend on what stands before them, one after another.
joined-IsBackward :
    (mk content gone odd empty : List PlanOperation)
    → IsBackward [] mk
    → All (λ operation. Known (op_ids mk) operation.dependencies) content
    → ((known : List String) → All (λ operation. Known known operation.dependencies) gone)
    → ((known : List String) → All (λ operation. Known known operation.dependencies) odd)
    → ((known : List String) → Known known (op_ids (content ++ gone)) → IsBackward known empty)
    → IsBackward [] (mk ++ content ++ gone ++ odd ++ empty)
joined-IsBackward mk content gone odd empty m c g o e =
    IsBackward-append [] (mk ++ content ++ gone ++ odd) empty
      (IsBackward-append [] (mk ++ content ++ gone) odd
        (IsBackward-append [] (mk ++ content) gone
          (IsBackward-append [] mk content m (λ wider w v. IsBackward-Known wider content (
            All-map _ _ (λ operation. Known-Within (op_ids mk) wider v operation.dependencies)
              content c)))
          (λ wider w v. IsBackward-Known wider gone (g wider)))
        (λ wider w v. IsBackward-Known wider odd (o wider)))
      (λ wider w v. e wider (
        Known-Within (op_ids (content ++ gone)) wider
          (λ id h. v id (Within-middle mk content gone odd id h)) (op_ids (content ++ gone))
          (Known-self (op_ids (content ++ gone)))))

module _ (platform : Platform) (source target : ScanResult) (correspondence : MappingSnapshot)
    (options : SyncOptions) where
  planned_mkdirs-IsBackward :
      let made = planned_mkdirs platform source target correspondence options in
      IsBackward [] made.0 × Holds made.1 (op_ids made.0)
  unfolding planned_mkdirs
  planned_mkdirs-IsBackward =
      mkdirs-IsBackward platform
        (dir_groups (planned_source_dirs platform options source.directories))
        (dir_groups (planned_target_dirs target.directories))
        (file_groups (planned_files platform options target.files))
        (planned_directories platform source target correspondence options) [] [] tt (Holds-nil [])

  planned_removals-Known :
      (contents : List Content) (known : List String)
      → All
          (λ operation. Known known operation.dependencies)
          (planned_removals platform source target correspondence options contents)
  unfolding planned_removals removal_operations
  planned_removals-Known contents known = removals_as-Known platform known _ _

  unsupported_operations-Known :
      (records : List UnsupportedRecord) (known : List String)
      → All
          (λ operation. Known known operation.dependencies)
          (unsupported_operations platform (excludes platform options.filters) records)
  unfolding unsupported_operations
  unsupported_operations-Known records known = unsupported_as-Known platform known _

  planned_cleanups-IsBackward :
      (contents : List Content) (known : List String)
      → Known known (
          op_ids (
            operations_of contents
            ++ planned_removals platform source target correspondence options contents))
      → IsBackward known (planned_cleanups platform source target correspondence options contents)
  unfolding planned_cleanups cleanup_context
  planned_cleanups-IsBackward contents known h =
      cleanup-IsBackward platform (excludes platform options.filters)
        (cleanup_context platform source target correspondence options contents) known
        (sorted deeper_first (planned_target_dirs target.directories)) [] []
        (removal_by_path-Entries known _ [] h tt) tt (λ wider w v. tt)

  -- The operations of a plan depend on operations before them.
  planned_operations-IsBackward :
      (items : List DestinationAssignment) (contents : List Content)
      → visit_items platform (content_context platform source target correspondence options) items
        ≡ ok contents
      → IsBackward [] (planned_operations platform source target correspondence options contents)
  unfolding planned_operations content_context
  planned_operations-IsBackward items contents looped =
      let (made, held) = planned_mkdirs-IsBackward in
      joined-IsBackward _ (operations_of contents) _ _ _ made
        (visit_items-Known platform _ _ items contents held looped)
        (planned_removals-Known contents) (unsupported_operations-Known _)
        (planned_cleanups-IsBackward contents)

  content_context-files :
      (content_context platform source target correspondence options).source_files_by_key
      ≡ file_groups (planned_files platform options source.files)
  unfolding content_context
  content_context-files = refl

  -- When the scope is everything, the options allow a worker and the assignment validates, the loop
  -- over the assignments ends, and `plan` ends in the plan of the stages' operations unless two of
  -- their ids are the same, which is the one way in which it is invalid.
  pub plan_succeeds :
      (scope : Scope) (collected : Dict SourceIdentity DestinationAssignment)
      → scope.kind ≡ ScopeKind.everything
      → leb options.worker_count 0 ≡ false
      → validate_assignment platform
          (planned_assignment platform source target correspondence options).items
          (planned_files platform options source.files)
        ≡ ok collected
      → (contents : List Content) × (visit_items platform
            (content_context platform source target correspondence options)
            (sorted item_leb
              (planned_assignment platform source target correspondence options).items)
          ≡ ok contents)
        × (plan platform source target correspondence options scope ≡ (
            let operations =
              planned_operations platform source target correspondence options contents in
            if are_new [] (op_ids operations)
            then ok (plan_of platform source target correspondence options operations)
            else err PlanError.invalid_plan))
  unfolding plan
  plan_succeeds scope collected s w v =
      let context = content_context platform source target correspondence options in
      let items = (planned_assignment platform source target correspondence options).items in
      let (contents, looped) =
        visit_items_succeeds platform context (planned_files platform options source.files) items
          collected content_context-files v in
      let ordered =
        is_dependency_ordered-are_new [] _
          (planned_operations-IsBackward (sorted item_leb items) contents looped) in
      (contents, looped, ground (arith, s, w, v, looped, ordered))
