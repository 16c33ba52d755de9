-- ===== src/Preflight/Judging/Cleared.antt =====
-- What holds when preflight refuses nothing (namisync/modules/preflight.py).
use nami_sync.Base.{
  ◌≡◌, refl, Bool, true, false, not, ◌&&◌, ◌||◌, String, List, [], ◌∷◌, ◌++◌, ℕ, ◌+◌, Option, none,
  some, ◌==◌, contains, string_eq, option_eq, leb, if◌then◌else◌, arith,
}
use nami_sync.Base.Dict.{get}
use nami_sync.Base.Lists.{any, All}
use nami_sync.Models.{FileStat, entry_kind_eq, metadata_eq, identity_eq}
use nami_sync.Paths.{Text}
use nami_sync.Planning.{
  Plan, PlanOperation, is_blocked, is_some, quarantined_operation_ids, calculate_required_bytes,
}
use nami_sync.Execution.{ExecutionSet, remaining}
use nami_sync.Preflight.{OsPath, paths_overlap}
use nami_sync.Preflight.{
  Subject, subject_eq, StatObservation, ObservedWorld, RefusalCode, Refusal, refuse_if, general,
  is_farther, stat_refusals, compare_stats, judge_stat,
}
use nami_sync.Preflight.Judging.{
  overlapping, resolved, subject_at, root_refusals, drift_refusals, scan_refusals, blocked_refusals,
  dependency_refusals, trash_refusals, space_refusals, source_refusals, target_refusals,
  prior_refusals, operation_refusals, all_operation_refusals, all_parent_refusals, preflight,
  uses_trash,
}

append_nil : (xs ys : List Refusal) → xs ++ ys ≡ [] → (xs ≡ []) × (ys ≡ [])
append_nil [] ys h = (refl, h)
append_nil (x ∷ xs) ys h = ground arith

-- An observed stat agrees with the expected one, times up to the granularity; an identity counts if
-- one was recorded.
abbrev pub agrees : ℕ → Option FileStat → Option FileStat → Bool
agrees granularity_ns none none = true
agrees granularity_ns (some expected) (some actual) =
    actual.kind == expected.kind
    && (not (is_some expected.file_identity) || actual.file_identity == expected.file_identity)
    && leb actual.size expected.size
    && leb expected.size actual.size
    && not (is_farther granularity_ns actual.mtime_ns expected.mtime_ns)
    && actual.metadata == expected.metadata
    && leb actual.nlink expected.nlink
    && leb expected.nlink actual.nlink
agrees granularity_ns _ _ = false

-- The place was observed, inside its root, with a stat that agrees.
abbrev pub is_as_expected : ℕ → Option FileStat → Option StatObservation → Bool
is_as_expected granularity_ns expected none = false
is_as_expected granularity_ns expected (some observation) =
    not (is_some observation.error)
    && observation.contained
    && observation.representable
    && agrees granularity_ns expected observation.stat

compare_nil :
    (operation : PlanOperation) (subject : Subject) (granularity_ns : ℕ)
    (expected actual : FileStat)
    → compare_stats operation subject granularity_ns expected actual ≡ []
    → agrees granularity_ns (some expected) (some actual) ≡ true
unfolding compare_stats
compare_nil operation subject granularity_ns expected actual h = ground arith

judge_nil :
    (operation : PlanOperation) (subject : Subject) (source_subject : Bool) (granularity_ns : ℕ)
    (expected actual : Option FileStat)
    → judge_stat operation subject source_subject granularity_ns expected actual ≡ []
    → agrees granularity_ns expected actual ≡ true
judge_nil operation subject source_subject granularity_ns none none h = refl
judge_nil operation subject source_subject granularity_ns none (some actual) h = ground arith
judge_nil operation subject source_subject granularity_ns (some expected) none h = ground arith
judge_nil operation subject source_subject granularity_ns (some expected) (some actual) h =
    compare_nil operation subject granularity_ns expected actual h

stat_nil :
    (operation : PlanOperation) (subject : Subject) (observation : Option StatObservation)
    (expected : Option FileStat) (source_subject : Bool) (granularity_ns : ℕ)
    → stat_refusals operation subject observation expected source_subject granularity_ns ≡ []
    → is_as_expected granularity_ns expected observation ≡ true
unfolding stat_refusals
stat_nil operation subject none expected source_subject granularity_ns h = ground arith
stat_nil operation subject (some observation) expected source_subject granularity_ns h =
    ground
      (arith, judge_nil operation subject source_subject granularity_ns expected observation.stat)

target_nil :
    (upper : ℕ → Text) (plan : Plan) (world : ObservedWorld) (operation : PlanOperation)
    (path : Text) (expected : Option FileStat)
    → target_refusals upper plan world operation path expected ≡ []
    → is_as_expected plan.target_profile.mtime_granularity_ns expected
        (get (subject_at upper plan.target_root.root_id path) world.stats)
      ≡ true
unfolding target_refusals
target_nil upper plan world operation path expected h =
    stat_nil operation (subject_at upper plan.target_root.root_id path)
      (get (subject_at upper plan.target_root.root_id path) world.stats) expected false
      plan.target_profile.mtime_granularity_ns h

dependencies_nil :
    (xset : ExecutionSet) (operation : PlanOperation) (dependencies : List String)
    → dependency_refusals xset operation dependencies ≡ []
    → All (λ dependency. contains xset.selection dependency ≡ true) dependencies
unfolding dependency_refusals
dependencies_nil xset operation [] h = tt
dependencies_nil xset operation (dependency ∷ dependencies) h = (
  ground arith,
  dependencies_nil xset operation dependencies
      ((append_nil _ (dependency_refusals xset operation dependencies) h).1),
)

-- What a verdict without refusals says of an operation.
pub record IsCleared (upper : ℕ → Text) (xset : ExecutionSet) (world : ObservedWorld)
    (operation : PlanOperation) : Type 0 where
  pub unblocked : is_blocked operation ≡ false
  pub uncontested :
      contains (quarantined_operation_ids upper xset.plan.operations) operation.op_id ≡ false
  pub closed : All (λ dependency. contains xset.selection dependency ≡ true) operation.dependencies
  pub target_seen :
      is_as_expected xset.plan.target_profile.mtime_granularity_ns operation.target_expected
        (get (subject_at upper xset.plan.target_root.root_id operation.target_rel_path) world.stats)
      ≡ true

blocked_nil :
    (quarantined : List String) (operation : PlanOperation)
    → blocked_refusals quarantined operation ≡ []
    → (is_blocked operation ≡ false) × (contains quarantined operation.op_id ≡ false)
unfolding blocked_refusals
blocked_nil quarantined operation h = ground arith

operation_refusals-IsCleared :
    (upper : ℕ → Text) (xset : ExecutionSet) (world : ObservedWorld) (operation : PlanOperation)
    → operation_refusals upper xset world
        (quarantined_operation_ids upper xset.plan.operations)
        operation
      ≡ []
    → IsCleared upper xset world operation
unfolding operation_refusals
operation_refusals-IsCleared upper xset world operation h =
    let quarantined = quarantined_operation_ids upper xset.plan.operations in
    let scan = scan_refusals xset.plan operation in
    let blocked = blocked_refusals quarantined operation in
    let lost = dependency_refusals xset operation operation.dependencies in
    let source = source_refusals upper xset.plan world operation in
    let target =
      target_refusals upper xset.plan world operation operation.target_rel_path
        operation.target_expected in
    let prior = prior_refusals upper xset.plan world operation in
    let (h₅, _) = append_nil (scan ++ blocked ++ lost ++ source ++ target) prior h in
    let (h₄, seen) = append_nil (scan ++ blocked ++ lost ++ source) target h₅ in
    let (h₃, _) = append_nil (scan ++ blocked ++ lost) source h₄ in
    let (h₂, known) = append_nil (scan ++ blocked) lost h₃ in
    let (_, free) = append_nil scan blocked h₂ in
    record {
      unblocked = (blocked_nil quarantined operation free).0;
      uncontested = (blocked_nil quarantined operation free).1;
      closed = dependencies_nil xset operation operation.dependencies known;
      target_seen =
          target_nil upper xset.plan world operation operation.target_rel_path
            operation.target_expected seen;
    }

all_operation_refusals-IsCleared :
    (upper : ℕ → Text) (xset : ExecutionSet) (world : ObservedWorld)
    (operations : List PlanOperation)
    → all_operation_refusals upper xset world
        (quarantined_operation_ids upper xset.plan.operations)
        operations
      ≡ []
    → All (IsCleared upper xset world) operations
unfolding all_operation_refusals
all_operation_refusals-IsCleared upper xset world [] h = tt
all_operation_refusals-IsCleared upper xset world (operation ∷ operations) h =
    let quarantined = quarantined_operation_ids upper xset.plan.operations in
    let (one, rest) =
      append_nil (operation_refusals upper xset world quarantined operation)
        (all_operation_refusals upper xset world quarantined operations) h in
    (
      operation_refusals-IsCleared upper xset world operation one,
      all_operation_refusals-IsCleared upper xset world operations rest,
    )

-- There is room: free and reclaimable bytes are at least what is required.
abbrev pub has_room : Option ℕ → ℕ → ℕ → Bool
has_room none reclaimable required = false
has_room (some free) reclaimable required = leb required (free + reclaimable)

space_nil :
    (free : Option ℕ) (reclaimable required : ℕ)
    → space_refusals free reclaimable required ≡ []
    → has_room free reclaimable required ≡ true
unfolding space_refusals
space_nil free reclaimable required h = ground arith

-- If preflight refuses nothing, then each remaining operation is unblocked and uncontested, each of
-- its dependencies is selected, and its target was observed inside its root as the plan expects it;
-- and the target has room for the bytes that the remaining operations require.
pub preflight-IsCleared :
    (upper : ℕ → Text) (os : OsPath) (xset : ExecutionSet) (world : ObservedWorld)
    → preflight upper os xset world ≡ []
    → All (IsCleared upper xset world) (remaining xset)
      × (has_room world.free_space world.reclaimable_temp_bytes (
            calculate_required_bytes
              (remaining xset)
              xset.plan.target_profile
              xset.plan.trash_on_update
              0)
          ≡ true)
unfolding preflight
preflight-IsCleared upper os xset world h =
    let plan = xset.plan in
    let operations = remaining xset in
    let quarantined = quarantined_operation_ids upper plan.operations in
    let source = get plan.source_root.root_id world.roots in
    let target = get plan.target_root.root_id world.roots in
    let r₁ = root_refusals plan.source_volume_id source in
    let r₂ = root_refusals plan.target_volume_id target in
    let overlaps = overlapping (paths_overlap os) (resolved source) (resolved target) in
    let r₃ = refuse_if overlaps (general RefusalCode.roots_overlap) in
    let r₄ = drift_refusals plan world in
    let r₅ = all_operation_refusals upper xset world quarantined operations in
    let r₆ = all_parent_refusals upper plan world operations world.paths in
    let required = calculate_required_bytes operations plan.target_profile plan.trash_on_update 0 in
    let r₇ = space_refusals world.free_space world.reclaimable_temp_bytes required in
    let needs_trash = any (uses_trash plan) operations in
    let r₈ = if needs_trash then trash_refusals world.trash else [] in
    let (h₇, _) = append_nil (r₁ ++ r₂ ++ r₃ ++ r₄ ++ r₅ ++ r₆ ++ r₇) r₈ h in
    let (h₆, room) = append_nil (r₁ ++ r₂ ++ r₃ ++ r₄ ++ r₅ ++ r₆) r₇ h₇ in
    let (h₅, _) = append_nil (r₁ ++ r₂ ++ r₃ ++ r₄ ++ r₅) r₆ h₆ in
    let (_, cleared) = append_nil (r₁ ++ r₂ ++ r₃ ++ r₄) r₅ h₅ in
    (
      all_operation_refusals-IsCleared upper xset world operations cleared,
      space_nil world.free_space world.reclaimable_temp_bytes required room,
    )
