-- ===== src/Planner/Inverting.antt =====
-- What a plan that is returned was made of (namisync/modules/planner.py).
use nami_sync.Base.{
  ◌≡◌, true, not, ◌||◌, List, [], ◌++◌, ok, Result-cases, Bool-cases, inl, inr, leb, arith,
}
use nami_sync.Base.Dict.{Dict}
use nami_sync.Base.Lists.{All, All-append}
use nami_sync.Planner.Removals.{unsupported_operations}
use nami_sync.Base.Sorting.{sorted}
use nami_sync.Models.Records.{ScanResult}
use nami_sync.Planner.Assembly.{
  planned_mkdirs, planned_removals, planned_cleanups, planned_operations, content_context,
  planned_assignment, planned_files, plan_of, plan,
}
use nami_sync.Planner.Assigning.{SourceIdentity, validate_assignment}
use nami_sync.Planner.Contents.{Content}
use nami_sync.Planner.Visiting.{operations_of, visit_items, item_leb}
use nami_sync.Planning.{PlanOperation, Plan, is_dependency_ordered}
use nami_sync.Planning.Options.{Platform, SyncOptions, excludes}
use nami_sync.Policies.{DestinationAssignment, MappingSnapshot, Scope, plan_scope_eq}

module _ (platform : Platform) (source target : ScanResult) (correspondence : MappingSnapshot)
    (options : SyncOptions) where
  -- What holds of the operations of each stage holds of the plan's, and of what `plan_of` has.
  pub planned_operations-All :
      (P : PlanOperation → Type 0) (contents : List Content)
      → All P (planned_mkdirs platform source target correspondence options).0
      → All P (operations_of contents)
      → All P (planned_removals platform source target correspondence options contents)
      → All P (
          unsupported_operations platform
            (excludes platform options.filters)
            (source.unsupported ++ target.unsupported))
      → All P (planned_cleanups platform source target correspondence options contents)
      → All P
          (plan_of platform source target correspondence options
            (planned_operations platform source target correspondence options contents)).operations
  unfolding plan_of planned_operations
  planned_operations-All P contents m c r u d =
      All-append P _ _ (All-append P _ _ (All-append P _ _ (All-append P _ _ m c) r) u) d

module _ (platform : Platform) (source target : ScanResult) (correspondence : MappingSnapshot)
    (options : SyncOptions) (scope : Scope) (planned : Plan)
    (returned : plan platform source target correspondence options scope ≡ ok planned) where
  -- The assignment validated, the loop over it ended, and the plan has the stages' operations.
  pub plan-contents :
      (collected : Dict SourceIdentity DestinationAssignment) × (contents : List Content)
      × (validate_assignment platform
            (planned_assignment platform source target correspondence options).items
            (planned_files platform options source.files)
          ≡ ok collected)
      × (visit_items platform (content_context platform source target correspondence options) (
            sorted item_leb
              (planned_assignment platform source target correspondence options).items)
          ≡ ok contents)
      × (planned
          ≡ plan_of platform source target correspondence options
              (planned_operations platform source target correspondence options contents))
      × (is_dependency_ordered [] planned.operations ≡ true)
  unfolding plan plan_of
  plan-contents =
      let context = content_context platform source target correspondence options in
      let items = (planned_assignment platform source target correspondence options).items in
      elim (Result-cases
        (validate_assignment platform items (planned_files platform options source.files))) [
          | inr (why, v) ↦ absurd (ground (arith, returned))
          | inl (collected, v) ↦
              elim (Result-cases (visit_items platform context (sorted item_leb items))) [
                | inr (why, l) ↦ absurd (ground (arith, returned))
                | inl (contents, l) ↦
                    elim (Bool-cases (
                      leb options.worker_count 0
                      || not (
                          is_dependency_ordered [] (
                            planned_operations platform source target correspondence options
                              contents)))) [
                                | inl invalid ↦ absurd (ground (arith, returned))
                                | inr valid ↦ (
                                  collected,
                                  contents,
                                  v,
                                  l,
                                  ground (arith, returned),
                                  ground (arith, returned),
                                )
                              ]
              ]
        ]
