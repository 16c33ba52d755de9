-- ===== src/Selection.antt =====
-- The safe subset of a reviewed plan (namisync/workflows/selection.py).
pub mod Rounds
pub mod Safe
pub mod Keyed
pub mod Closed
pub mod Justified
pub mod Accounting
pub mod Planned
use nami_sync.Planning.{Plan}
use nami_sync.Base.{
  ◌≡◌, Bool, true, false, not, ◌||◌, ◌&&◌, String, List, [], ◌∷◌, ◌++◌, ℕ, zero, suc, Option, none,
  some, if◌then◌else◌, Eq, ◌==◌, contains, string_eq,
}
use nami_sync.Base.Lists.{length, keep, any, all}
use nami_sync.Base.Dict.{Dict, get, put}
use nami_sync.Evidence.{Outcome}
use nami_sync.Paths.{Text}
use nami_sync.Planning.{
  PlanOperation, OperationKind, kind_eq, BlockedReason, is_blocked, is_some,
  quarantined_operation_ids,
}

pub data ExclusionReason : Type 0 where
  blocked_correspondence blocked_dependency incomplete_scan : ExclusionReason

-- The text of a reason: the value of a `BlockedReason` or of an `ExclusionReason`, which differ.
pub data Reason : Type 0 where
  blocked : BlockedReason → Reason
  excluded : ExclusionReason → Reason

pub data Detail : Type 0 where
  nothing : Detail
  sides_incomplete : List String → Detail
  dependencies_excluded : List String → Detail

pub record OperationExclusion : Type 0 where
  pub op_id : String
  pub outcome : Outcome
  pub reason : Reason
  pub detail : Detail

-- A set of ids by its elements, in plan order.
pub record ExecutionSelection : Type 0 where
  pub selection : List String
  pub exclusions : List OperationExclusion

abbrev pub Exclusions : Type 0
Exclusions = Dict String OperationExclusion

-- `op_id in exclusions`
abbrev pub is_excluded : String → Exclusions → Bool
is_excluded op_id exclusions = is_some (get op_id exclusions)

-- `_INCOMPLETE_SCAN_UNSAFE`
abbrev pub incomplete_scan_unsafe : List OperationKind
incomplete_scan_unsafe =
    OperationKind.move ∷ OperationKind.move_update ∷ OperationKind.trash ∷ OperationKind.delete ∷ []

abbrev pub exclude : PlanOperation → Outcome → Reason → Detail → Exclusions → Exclusions
exclude operation outcome reason detail =
    put operation.op_id
      (record { op_id = operation.op_id; outcome = outcome; reason = reason; detail = detail })

-- `for operation in plan.operations`
unfoldable pub for_each :
    (PlanOperation → Exclusions → Exclusions) → List PlanOperation → Exclusions → Exclusions
for_each body [] exclusions = exclusions
for_each body (operation ∷ operations) exclusions =
    for_each body operations (body operation exclusions)

-- The body of the first loop.
unfoldable pub exclude_blocked : PlanOperation → Exclusions → Exclusions
exclude_blocked operation exclusions = elim operation.blocked_reason [
  | none ↦ exclusions
  | some reason ↦
      exclude operation Outcome.blocked (Reason.blocked reason) Detail.nothing exclusions
]

-- The body of the second loop.
unfoldable pub exclude_quarantined : List String → PlanOperation → Exclusions → Exclusions
exclude_quarantined quarantined operation exclusions =
    if contains quarantined operation.op_id
    then exclude operation Outcome.deferred (Reason.excluded ExclusionReason.blocked_correspondence)
        Detail.nothing exclusions
    else exclusions

-- `incomplete_sides`
abbrev pub sides : Plan → List String
sides plan =
    (if plan.source_complete then [] else "source" ∷ [])
    ++ (if plan.target_complete then [] else "target" ∷ [])

-- The body of the third loop, which runs if a side is incomplete.
unfoldable pub exclude_unsafe : List String → PlanOperation → Exclusions → Exclusions
unfolding kind_eq
exclude_unsafe incomplete operation exclusions =
    if not (is_excluded operation.op_id exclusions)
      && contains incomplete_scan_unsafe operation.kind
    then exclude operation Outcome.deferred (Reason.excluded ExclusionReason.incomplete_scan)
        (Detail.sides_incomplete incomplete) exclusions
    else exclusions

abbrev pub dependencies_in : Exclusions → List String → List String
dependencies_in exclusions = keep (λ dependency. is_excluded dependency exclusions)

abbrev is_incomplete_scan : Reason → Bool
is_incomplete_scan (Reason.excluded ExclusionReason.incomplete_scan) = true
is_incomplete_scan _ = false

abbrev has_incomplete_scan : Option OperationExclusion → Bool
has_incomplete_scan none = true
has_incomplete_scan (some exclusion) = is_incomplete_scan exclusion.reason

-- `reason`, from the exclusions of the excluded dependencies.
abbrev propagated_reason : List String → Exclusions → ExclusionReason
propagated_reason excluded_dependencies exclusions =
    if all (λ dependency. has_incomplete_scan (get dependency exclusions)) excluded_dependencies
    then ExclusionReason.incomplete_scan
    else ExclusionReason.blocked_dependency

-- The operation is not excluded, and one of its dependencies is.
abbrev pub is_forced : PlanOperation → Exclusions → Bool
is_forced operation exclusions =
    not (is_excluded operation.op_id exclusions)
    && any (λ dependency. is_excluded dependency exclusions) operation.dependencies

unfoldable pub propagate_one : PlanOperation → Exclusions → Exclusions
propagate_one operation exclusions =
    let excluded_dependencies = dependencies_in exclusions operation.dependencies in
    if is_forced operation exclusions
    then exclude operation Outcome.deferred
        (Reason.excluded (propagated_reason excluded_dependencies exclusions))
        (Detail.dependencies_excluded excluded_dependencies) exclusions
    else exclusions

-- One round of the `while` loop: the exclusions, and `changed`.
unfoldable pub propagate : List PlanOperation → Exclusions → Bool → Exclusions × Bool
propagate [] exclusions changed = (exclusions, changed)
propagate (operation ∷ operations) exclusions changed =
    propagate operations (propagate_one operation exclusions)
      (changed || is_forced operation exclusions)

-- The `while` loop, on fuel; `none` means that the fuel ran out.
unfoldable pub settle : ℕ → List PlanOperation → Exclusions → Option Exclusions
settle zero operations exclusions = none
settle (suc fuel) operations exclusions =
    let (exclusions', changed) = propagate operations exclusions false in
    let again = settle fuel operations exclusions' in if changed then again else some exclusions'

abbrev pub selected_ids : List PlanOperation → Exclusions → List String
selected_ids [] exclusions = []
selected_ids (operation ∷ operations) exclusions =
    let rest = selected_ids operations exclusions in
    if is_excluded operation.op_id exclusions then rest else operation.op_id ∷ rest

abbrev pub explain : Option OperationExclusion → List OperationExclusion
explain none = []
explain (some exclusion) = exclusion ∷ []

abbrev pub explained : List PlanOperation → Exclusions → List OperationExclusion
explained [] exclusions = []
explained (operation ∷ operations) exclusions =
    explain (get operation.op_id exclusions) ++ explained operations exclusions

module _ (upper : ℕ → Text) where
  -- The exclusions before the `while` loop.
  unfoldable pub first_exclusions : Plan → Exclusions
  first_exclusions plan =
      let quarantined = quarantined_operation_ids upper plan.operations in
      let found =
        for_each (exclude_quarantined quarantined) plan.operations
          (for_each exclude_blocked plan.operations []) in
      elim (sides plan) [
        | [] ↦ found
        | side ∷ others ↦ for_each (exclude_unsafe (side ∷ others)) plan.operations found
      ]

  -- `derive_execution_selection`
  unfoldable pub derive_execution_selection : Plan → Option ExecutionSelection
  derive_execution_selection plan =
      elim (settle (suc (length plan.operations)) plan.operations (first_exclusions plan)) [
        | none ↦ none
        | some exclusions ↦ some (record {
          selection = selected_ids plan.operations exclusions;
          exclusions = explained plan.operations exclusions;
        })
      ]
