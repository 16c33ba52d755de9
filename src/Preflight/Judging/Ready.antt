-- ===== src/Preflight/Judging/Ready.antt =====
-- The operations that remain of a derived selection are ready to run, as far as the plan tells
-- (namisync/core/execution.py with namisync/workflows/selection.py).
use nami_sync.Base.{
  Option, ◌≡◌, refl, sym, ◌∙◌, ap, true, false, String, List, [], ◌∷◌, ◌==◌, ==_sound, contains,
  string_eq, arith, Bool-cases, Option-cases, inl, inr,
}
use nami_sync.Base.Dict.{get-nil}
use nami_sync.Base.Lists.{All, All-map, All-zip₂, All-keep_both, keep}
use nami_sync.Evidence.{Outcome}
use nami_sync.Planning.{Plan, PlanOperation, is_blocked, op_ids}
use nami_sync.Selection.Safe.{is_incomplete}
use nami_sync.Selection.Closed.{IsSelectable, Known}
use nami_sync.Execution.{Commitment, ExecutionSet, remaining, is_remaining}
use nami_sync.Preflight.{subject_eq}
use nami_sync.Preflight.Judging.{is_dependency_lost, operation_by_id, finds_blocked}

-- The operation may be run as far as the selection is concerned.
abbrev pub IsReady : List String → ExecutionSet → PlanOperation → Type 0
IsReady quarantined xset operation =
    IsSelectable quarantined (is_incomplete xset.plan) xset.selection operation
    × All (λ dependency. is_dependency_lost xset dependency ≡ false) operation.dependencies

selected_of :
    (selection : List String) (o : PlanOperation)
    → is_remaining selection [] o ≡ true
    → contains selection o.op_id ≡ true
selected_of selection o h = ground arith

-- A selected dependency is found in the plan unblocked, and it remains.
finds_unblocked :
    (selection : List String) (dependency : String) (operations : List PlanOperation)
    → contains selection dependency ≡ true
    → All (λ o. contains selection o.op_id ≡ true → is_blocked o ≡ false) operations
    → finds_blocked (operation_by_id dependency operations) ≡ false
unfolding operation_by_id
finds_unblocked selection dependency [] s a = refl
finds_unblocked selection dependency (operation ∷ operations) s a =
    elim (Option-cases (operation_by_id dependency operations)) [
      | inr (later, h) ↦
          rw (h, operation_by_id)
            (sym (ap finds_blocked h) ∙ finds_unblocked selection dependency operations s a.1)
      | inl h ↦ elim (Bool-cases (dependency == operation.op_id)) [
        | inr other ↦ rw (h, operation_by_id) (rw other refl)
        | inl same ↦
            rw (h, operation_by_id)
              (rw same (a.0 (rw⁻¹ (==_sound dependency operation.op_id same) s)))
      ]
    ]

contains-remaining :
    (selection : List String) (dependency : String) (operations : List PlanOperation)
    → contains selection dependency ≡ true
    → contains (op_ids operations) dependency ≡ true
    → contains (op_ids (keep (is_remaining selection []) operations)) dependency ≡ true
contains-remaining selection dependency [] s h = h
contains-remaining selection dependency (operation ∷ operations) s h =
    elim (Bool-cases (dependency == operation.op_id)) [
      | inl same ↦
          let chosen : contains selection operation.op_id ≡ true =
            rw⁻¹ (==_sound dependency operation.op_id same) s in
          let stays : is_remaining selection [] operation ≡ true =
            ground (arith, get-nil {V = Outcome} operation.op_id) in
          rw stays (ground arith)
      | inr other ↦
          ground (arith, contains-remaining selection dependency operations s (ground arith))
    ]

-- A fresh execution set over a selection of the plan.
abbrev pub fresh_set : String → Option Commitment → Plan → List String → ExecutionSet
fresh_set run_id commitment plan selection = record {
  plan = plan;
  selection = selection;
  run_id = run_id;
  status = [];
  commitment = commitment;
}

not_lost :
    (run_id : String) (commitment : Option Commitment) (plan : Plan) (selection : List String)
    (dependency : String)
    → All (λ o. contains selection o.op_id ≡ true → is_blocked o ≡ false) plan.operations
    → contains selection dependency ≡ true
    → Known [] (op_ids plan.operations) dependency
    → is_dependency_lost (fresh_set run_id commitment plan selection) dependency ≡ false
unfolding remaining
not_lost run_id commitment plan selection dependency free s known = ground (
  arith,
  get-nil {V = Outcome} dependency,
  finds_unblocked selection dependency plan.operations s free,
  contains-remaining selection dependency plan.operations s known,
)

-- Every operation that remains of a fresh, derived selection is ready.
pub remaining-IsReady :
    (quarantined : List String) (run_id : String) (commitment : Option Commitment) (plan : Plan)
    (selection : List String)
    → All
        (λ o.
          contains selection o.op_id ≡ true
          → IsSelectable quarantined (is_incomplete plan) selection o)
        plan.operations
    → All (λ o. All (Known [] (op_ids plan.operations)) o.dependencies) plan.operations
    → All
        (IsReady quarantined (fresh_set run_id commitment plan selection))
        (remaining (fresh_set run_id commitment plan selection))
unfolding remaining
remaining-IsReady quarantined run_id commitment plan selection safe known =
    let free =
      All-map _ (λ o. contains selection o.op_id ≡ true → is_blocked o ≡ false)
        (λ o s c. (s c).unblocked) plan.operations safe in
    let both =
      All-zip₂ _ _
        (λ o.
          (contains selection o.op_id ≡ true
            → IsSelectable quarantined (is_incomplete plan) selection o)
          × All (Known [] (op_ids plan.operations)) o.dependencies)
        (λ o s k. (s, k)) plan.operations safe known in
    All-map _ (IsReady quarantined (fresh_set run_id commitment plan selection))
      (λ o ((s, k), stays).
        let chosen = s (selected_of selection o stays) in
        (
          chosen,
          All-zip₂ _ _
              (λ dependency.
                is_dependency_lost (fresh_set run_id commitment plan selection) dependency ≡ false)
              (λ dependency c n. not_lost run_id commitment plan selection dependency free c n)
              o.dependencies chosen.closed k,
        ))
      (keep (is_remaining selection []) plan.operations)
      (All-keep_both _ (is_remaining selection []) plan.operations both)
