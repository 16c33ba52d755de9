-- ===== src/Selection/Accounting.antt =====
-- Nothing is withheld without a reason that the selection shows (namisync/workflows/selection.py).
use nami_sync.Planning.{Plan}
use mathlib.Core.Option.{some-injective, none-ne-some}
use nami_sync.Base.{
  ◌≡◌, sym, ◌∙◌, Bool, true, not, ◌||◌, ◌&&◌, String, List, [], ◌∷◌, ℕ, some, ◌==◌, contains,
  string_eq, arith, Bool-cases, inl, inr,
}
use nami_sync.Base.Lists.{All, All-map, any, any_mono, any_self}
use nami_sync.Base.Dict.{get-nil}
use nami_sync.Paths.{Text}
use nami_sync.Planning.{PlanOperation, is_blocked, op_ids}
use nami_sync.Selection.{
  OperationExclusion, Exclusions, ExecutionSelection, is_excluded, selected_ids, explained,
  first_exclusions, derive_execution_selection,
}
use nami_sync.Selection.Safe.{is_unsafe, is_incomplete, quarantined}
use nami_sync.Selection.Closed.{derive_final, selected-not_excluded, known-selected}
use nami_sync.Selection.Keyed.{
  Keyed, Keyed-exclude, keeps-settle, keeps-first_exclusions, withheld, withheld-is_excluded,
  is_excluded-withheld,
}
use nami_sync.Selection.Justified.{
  is_justified, Justified, Justified-settle, first_exclusions-Justified,
}

-- A reason to withhold an operation, by what the selection shows.
abbrev pub has_cause : List String → Bool → List OperationExclusion → PlanOperation → Bool
has_cause quarantined incomplete exclusions operation =
    is_blocked operation
    || contains quarantined operation.op_id
    || (incomplete && is_unsafe operation)
    || any (λ dependency. withheld dependency exclusions) operation.dependencies

any-op_ids :
    (test : PlanOperation → Bool) (id : String) (operations : List PlanOperation)
    → any (λ operation. operation.op_id == id && test operation) operations ≡ true
    → contains (op_ids operations) id ≡ true
any-op_ids test id [] h = cc
any-op_ids test id (operation ∷ operations) h = ground (arith, any-op_ids test id operations)

selected_or_excluded :
    (operations : List PlanOperation) (final : Exclusions) (id : String)
    → Keyed final
    → contains (op_ids operations) id ≡ true
    → contains (selected_ids operations final) id ≡ not (withheld id (explained operations final))
selected_or_excluded operations final id k c = elim (Bool-cases (is_excluded id final)) [
  | inl excluded ↦ ground (
    arith,
    is_excluded-withheld operations final id k c excluded,
    selected-not_excluded operations final id,
  )
  | inr free ↦
      ground (
        arith,
        withheld-is_excluded operations final id k,
        known-selected operations final id c free,
      )
]

module _ (quarantined : List String) (incomplete : Bool) (operations : List PlanOperation)
    (final : Exclusions) where
  is_justified-has_cause :
      Keyed final
      → Justified quarantined incomplete operations final
      → (operation : PlanOperation) → is_justified quarantined incomplete final operation ≡ true
      → has_cause quarantined incomplete (explained operations final) operation ≡ true
  is_justified-has_cause k j operation h = ground (
    arith,
    any_mono (λ dependency. is_excluded dependency final)
        (λ dependency. withheld dependency (explained operations final))
        (λ dependency e.
          is_excluded-withheld operations final dependency k
            (any-op_ids _ dependency operations (j dependency e)) e)
        operation.dependencies,
  )

  accounted :
      Keyed final
      → Justified quarantined incomplete operations final
      → (operation : PlanOperation) → contains (op_ids operations) operation.op_id ≡ true
      → (contains (selected_ids operations final) operation.op_id
          ≡ not (withheld operation.op_id (explained operations final)))
        × (withheld operation.op_id (explained operations final) ≡ true
            → any
                (λ o.
                  o.op_id == operation.op_id
                  && has_cause quarantined incomplete (explained operations final) o)
                operations
              ≡ true)
  accounted k j operation c = (
    selected_or_excluded operations final operation.op_id k c,
    λ w.
        any_mono _ _ (λ o h. ground (arith, is_justified-has_cause k j o)) operations
          (j operation.op_id (withheld-is_excluded operations final operation.op_id k w)),
  )

op_ids_self :
    (operations : List PlanOperation)
    → All (λ operation. contains (op_ids operations) operation.op_id ≡ true) operations
op_ids_self [] = tt
op_ids_self (operation ∷ operations) =
    (ground arith, All-map _ _ (λ later h. ground arith) operations (op_ids_self operations))

-- In any derived selection, each operation of the plan is either selected or among the
-- exclusions, never both; and one that is excluded is blocked, or overlaps a blocked
-- correspondence, or is a move, trash or delete over an incomplete scan, or depends on an
-- operation that is excluded.
pub derive_execution_selection_accounts :
    (upper : ℕ → Text) (plan : Plan) (result : ExecutionSelection)
    → derive_execution_selection upper plan ≡ some result
    → All
        (λ operation.
          (contains result.selection operation.op_id
            ≡ not (withheld operation.op_id result.exclusions))
          × (withheld operation.op_id result.exclusions ≡ true
              → any
                  (λ o.
                    o.op_id == operation.op_id
                    && has_cause (quarantined upper plan) (is_incomplete plan) result.exclusions o)
                  plan.operations
                ≡ true))
        plan.operations
derive_execution_selection_accounts upper plan result h =
    let (final, found, settled, _, _) = derive_final upper plan in
    let same = some-injective _ result (sym found ∙ h) in
    let keyed : Keyed final =
      keeps-settle Keyed Keyed-exclude _ plan.operations (first_exclusions upper plan) final
        (keeps-first_exclusions Keyed Keyed-exclude upper plan
          (λ id exclusion e. absurd (none-ne-some exclusion (sym (get-nil id) ∙ e))))
        settled in
    let justified =
      Justified-settle (quarantined upper plan) (is_incomplete plan) plan.operations _
        plan.operations (first_exclusions upper plan) final (any_self plan.operations)
        (first_exclusions-Justified upper plan) settled in
    rw (← same) (
      All-map _ _
        (accounted (quarantined upper plan) (is_incomplete plan) plan.operations final keyed
          justified)
        plan.operations (op_ids_self plan.operations))
