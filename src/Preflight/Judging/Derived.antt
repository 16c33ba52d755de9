-- ===== src/Preflight/Judging/Derived.antt =====
-- What preflight finds on a selection that was derived for the plan
-- (namisync/modules/preflight.py with namisync/workflows/selection.py).
use nami_sync.Base.{
  Option, ◌≡◌, refl, sym, ◌∙◌, true, false, String, List, [], ◌∷◌, ◌++◌, ℕ, some, contains,
  string_eq, if◌then◌else◌, arith,
}
use mathlib.Core.Option.{some-injective}
use nami_sync.Base.Dict.{get}
use nami_sync.Base.Lists.{any, All, All-zip₂}
use nami_sync.Paths.{Text}
use nami_sync.Planning.{
  Plan, PlanOperation, is_dependency_ordered, quarantined_operation_ids, calculate_required_bytes,
}
use nami_sync.Selection.{ExecutionSelection, derive_execution_selection}
use nami_sync.Selection.Closed.{derive_execution_selection_safe, dependencies-Known}
use nami_sync.Execution.{Commitment, ExecutionSet, remaining}
use nami_sync.Preflight.{OsPath, paths_overlap}
use nami_sync.Preflight.{subject_eq, ObservedWorld, RefusalCode, refuse_if, general}
use nami_sync.Preflight.Judging.{
  overlapping, resolved, root_refusals, drift_refusals, scan_refusals, blocked_refusals,
  dependency_refusals, trash_refusals, space_refusals, source_refusals, target_refusals,
  prior_refusals, operation_refusals, all_operation_refusals, is_dependency_lost, uses_trash,
  all_parent_refusals, preflight,
}
use nami_sync.Preflight.Judging.Blameless.{
  both_blameless, either_blameless, root_blameless, overlap_blameless, drift_blameless,
  trash_blameless, space_blameless, source_blameless, target_blameless, prior_blameless,
  parents_blameless, blames_selection,
}
use nami_sync.Preflight.Judging.Ready.{IsReady, fresh_set, remaining-IsReady}

dependencies_blameless :
    (xset : ExecutionSet) (operation : PlanOperation) (dependencies : List String)
    → All
        (λ dependency.
          (contains xset.selection dependency ≡ true)
          × (is_dependency_lost xset dependency ≡ false))
        dependencies
    → blames_selection (dependency_refusals xset operation dependencies) ≡ false
unfolding dependency_refusals
dependencies_blameless xset operation [] a = refl
dependencies_blameless xset operation (dependency ∷ dependencies) a =
    rw (a.0.0) (rw (a.0.1) (dependencies_blameless xset operation dependencies a.1))

scan_blameless :
    (quarantined : List String) (xset : ExecutionSet) (operation : PlanOperation)
    → IsReady quarantined xset operation
    → blames_selection (scan_refusals xset.plan operation) ≡ false
unfolding scan_refusals
scan_blameless quarantined xset operation (s, d) = ground (arith, s.sure)

blocked_blameless :
    (quarantined : List String) (xset : ExecutionSet) (operation : PlanOperation)
    → IsReady quarantined xset operation
    → blames_selection (blocked_refusals quarantined operation) ≡ false
unfolding blocked_refusals
blocked_blameless quarantined xset operation (s, d) = rw (s.unblocked) (rw (s.uncontested) refl)

operation_blameless :
    (upper : ℕ → Text) (xset : ExecutionSet) (world : ObservedWorld) (quarantined : List String)
    (operation : PlanOperation)
    → IsReady quarantined xset operation
    → blames_selection (operation_refusals upper xset world quarantined operation) ≡ false
unfolding operation_refusals
operation_blameless upper xset world quarantined operation ready =
    let scan = scan_refusals xset.plan operation in
    let blocked = blocked_refusals quarantined operation in
    let lost = dependency_refusals xset operation operation.dependencies in
    let source = source_refusals upper xset.plan world operation in
    let target =
      target_refusals upper xset.plan world operation operation.target_rel_path
        operation.target_expected in
    let prior = prior_refusals upper xset.plan world operation in
    let closed : blames_selection lost ≡ false =
      dependencies_blameless xset operation operation.dependencies
        (All-zip₂ _ _ _ (λ dependency c l. (c, l)) operation.dependencies ready.0.closed ready.1) in
    both_blameless (scan ++ blocked ++ lost ++ source ++ target) prior
      (both_blameless (scan ++ blocked ++ lost ++ source) target
        (both_blameless (scan ++ blocked ++ lost) source
          (both_blameless (scan ++ blocked) lost
            (both_blameless scan blocked (scan_blameless quarantined xset operation ready)
              (blocked_blameless quarantined xset operation ready))
            closed)
          (source_blameless upper xset.plan world operation))
        (target_blameless upper xset.plan world operation operation.target_rel_path
          operation.target_expected))
      (prior_blameless upper xset.plan world operation)

operations_blameless :
    (upper : ℕ → Text) (xset : ExecutionSet) (world : ObservedWorld) (quarantined : List String)
    (operations : List PlanOperation)
    → All (IsReady quarantined xset) operations
    → blames_selection (all_operation_refusals upper xset world quarantined operations) ≡ false
unfolding all_operation_refusals
operations_blameless upper xset world quarantined [] a = refl
operations_blameless upper xset world quarantined (operation ∷ operations) (ready, a) =
    both_blameless (operation_refusals upper xset world quarantined operation)
      (all_operation_refusals upper xset world quarantined operations)
      (operation_blameless upper xset world quarantined operation ready)
      (operations_blameless upper xset world quarantined operations a)

-- For every dependency-ordered plan and whatever is observed of the world: preflight of the fresh
-- execution set with the derived selection finds no refusal that blames the selection. That is,
-- none of an incomplete scan, a blocked or contested operation, a dependency outside the selection
-- or an unavailable one.
pub preflight-blames_selection :
    (upper : ℕ → Text) (os : OsPath) (run_id : String) (commitment : Option Commitment)
    (plan : Plan) (world : ObservedWorld) (result : ExecutionSelection)
    → is_dependency_ordered [] plan.operations ≡ true
    → derive_execution_selection upper plan ≡ some result
    → blames_selection
        (preflight upper os (fresh_set run_id commitment plan result.selection) world)
      ≡ false
unfolding preflight
preflight-blames_selection upper os run_id commitment plan world result ordered derived =
    let xset = fresh_set run_id commitment plan result.selection in
    let operations = remaining xset in
    let quarantined = quarantined_operation_ids upper plan.operations in
    let source = get plan.source_root.root_id world.roots in
    let target = get plan.target_root.root_id world.roots in
    let r₁ = root_refusals plan.source_volume_id source in
    let r₂ = root_refusals plan.target_volume_id target in
    let overlaps = overlapping (paths_overlap os) (resolved source) (resolved target) in
    let r₃ = refuse_if overlaps (general RefusalCode.roots_overlap) in
    let r₄ = drift_refusals plan world in
    let r₅ = all_operation_refusals upper xset world quarantined operations in
    let r₆ = all_parent_refusals upper plan world operations world.paths in
    let required = calculate_required_bytes operations plan.target_profile plan.trash_on_update 0 in
    let r₇ = space_refusals world.free_space world.reclaimable_temp_bytes required in
    let needs_trash = any (uses_trash plan) operations in
    let r₈ = if needs_trash then trash_refusals world.trash else [] in
    let (derived', found, safe) = derive_execution_selection_safe upper plan ordered in
    let it : derived' ≡ result = some-injective derived' result (sym found ∙ derived) in
    let ready : All (IsReady quarantined xset) operations =
      remaining-IsReady quarantined run_id commitment plan result.selection (rw⁻¹ it safe)
        (dependencies-Known [] plan.operations ordered) in
    both_blameless (r₁ ++ r₂ ++ r₃ ++ r₄ ++ r₅ ++ r₆ ++ r₇) r₈
      (both_blameless (r₁ ++ r₂ ++ r₃ ++ r₄ ++ r₅ ++ r₆) r₇
        (both_blameless (r₁ ++ r₂ ++ r₃ ++ r₄ ++ r₅) r₆
          (both_blameless (r₁ ++ r₂ ++ r₃ ++ r₄) r₅
            (both_blameless (r₁ ++ r₂ ++ r₃) r₄
              (both_blameless (r₁ ++ r₂) r₃
                (both_blameless r₁ r₂ (root_blameless plan.source_volume_id source)
                  (root_blameless plan.target_volume_id target))
                (overlap_blameless overlaps))
              (drift_blameless plan world))
            (operations_blameless upper xset world quarantined operations ready))
          (parents_blameless upper plan world operations world.paths))
        (space_blameless world.free_space world.reclaimable_temp_bytes required))
      (either_blameless needs_trash (trash_refusals world.trash) [] (trash_blameless world.trash)
        refl)
