-- ===== src/Selection/Closed.antt =====
-- A derived selection exists, is safe and is closed under dependencies
-- (namisync/workflows/selection.py).
use nami_sync.Planning.{Plan}
use mathlib.Core.Bool.{false≢true}
use nami_sync.Base.{
  ◌≡◌, refl, sym, ◌∙◌, Bool, true, false, not, ◌||◌, String, List, [], ◌∷◌, ℕ, suc, some, contains,
  string_eq, arith,
}
use nami_sync.Base.Lists.{length, All, All-map, All-zip₂, All-zip₃, any}
use nami_sync.Paths.{Text}
use nami_sync.Planning.{PlanOperation, is_blocked, op_ids, is_dependency_ordered}
use nami_sync.Selection.{
  Exclusions, ExecutionSelection, is_excluded, is_forced, settle, selected_ids, explained,
  first_exclusions, derive_execution_selection,
}
use nami_sync.Selection.Rounds.{Extends, settle_total, open_count-le-length}
use nami_sync.Selection.Safe.{
  IsForcedOut, is_unsafe, is_incomplete, quarantined, first_exclusions-All,
}

pub selected-not_excluded :
    (operations : List PlanOperation) (exclusions : Exclusions) (id : String)
    → contains (selected_ids operations exclusions) id ≡ true
    → is_excluded id exclusions ≡ false
selected-not_excluded [] exclusions id h = cc
selected-not_excluded (operation ∷ operations) exclusions id h =
    ground (arith, selected-not_excluded operations exclusions id)

pub known-selected :
    (operations : List PlanOperation) (exclusions : Exclusions) (id : String)
    → contains (op_ids operations) id ≡ true
    → is_excluded id exclusions ≡ false
    → contains (selected_ids operations exclusions) id ≡ true
known-selected [] exclusions id h e = cc
known-selected (operation ∷ operations) exclusions id h e =
    ground (arith, known-selected operations exclusions id)

abbrev pub Known : List String → List String → String → Type 0
Known known ids dependency = (contains known dependency || contains ids dependency) ≡ true

All-Known :
    (known ids dependencies : List String)
    → any (λ dependency. not (contains known dependency)) dependencies ≡ false
    → All (Known known ids) dependencies
All-Known known ids [] h = tt
All-Known known ids (dependency ∷ dependencies) h =
    (ground arith, All-Known known ids dependencies (ground arith))

shift-Known :
    (known ids : List String) (id dependency : String)
    → Known (id ∷ known) ids dependency
    → Known known (id ∷ ids) dependency
shift-Known known ids id dependency h = ground arith

-- In a dependency-ordered plan, every dependency is an operation of the plan.
pub dependencies-Known :
    (known : List String) (operations : List PlanOperation)
    → is_dependency_ordered known operations ≡ true
    → All (λ operation. All (Known known (op_ids operations)) operation.dependencies) operations
unfolding is_dependency_ordered
dependencies-Known known [] h = tt
dependencies-Known known (operation ∷ operations) h = (
  All-Known known (op_ids (operation ∷ operations)) operation.dependencies (ground arith),
  All-map _ _
      (λ later.
        All-map _ _ (shift-Known known (op_ids operations) operation.op_id) later.dependencies)
      operations (dependencies-Known (operation.op_id ∷ known) operations (ground arith)),
)

none_excluded :
    (exclusions : Exclusions) (dependencies : List String)
    → any (λ dependency. is_excluded dependency exclusions) dependencies ≡ false
    → All (λ dependency. is_excluded dependency exclusions ≡ false) dependencies
none_excluded exclusions [] h = tt
none_excluded exclusions (dependency ∷ dependencies) h =
    (ground arith, none_excluded exclusions dependencies (ground arith))

-- What a selected operation satisfies.
pub record IsSelectable (quarantined : List String) (incomplete : Bool) (selection : List String)
    (operation : PlanOperation) : Type 0 where
  pub unblocked : is_blocked operation ≡ false
  pub uncontested : contains quarantined operation.op_id ≡ false
  pub sure : incomplete ≡ true → is_unsafe operation ≡ false
  pub closed : All (λ dependency. contains selection dependency ≡ true) operation.dependencies

not_true : (a b : Bool) → (a ≡ true → b ≡ true) → b ≡ false → a ≡ false
not_true true b f e = absurd (false≢true (sym e ∙ f refl))
not_true false b f e = refl

module _ (upper : ℕ → Text) (plan : Plan) where
  -- The derivation ends with a selection, for any plan.
  pub derive_final :
      (final : Exclusions) × (derive_execution_selection upper plan
        ≡ some (record {
          selection = selected_ids plan.operations final;
          exclusions = explained plan.operations final;
        }))
      × (settle (suc (length plan.operations)) plan.operations (first_exclusions upper plan)
          ≡ some final)
      × Extends (first_exclusions upper plan) final
      × All (λ operation. is_forced operation final ≡ false) plan.operations
  unfolding derive_execution_selection
  derive_final =
      let (final, found, grows, stable) =
        settle_total (suc (length plan.operations)) plan.operations (first_exclusions upper plan)
          (omega (arith, open_count-le-length plan.operations (first_exclusions upper plan))) in
      (final, rw (found, derive_execution_selection), found, grows, stable)

selectable :
    (quarantined : List String) (incomplete : Bool) (operations : List PlanOperation)
    (first final : Exclusions) (operation : PlanOperation)
    → Extends first final
    → IsForcedOut quarantined incomplete first operation
    → is_forced operation final ≡ false
    → All (Known [] (op_ids operations)) operation.dependencies
    → contains (selected_ids operations final) operation.op_id ≡ true
    → IsSelectable quarantined incomplete (selected_ids operations final) operation
selectable quarantined incomplete operations first final operation grows forced stable known s =
    let free = selected-not_excluded operations final operation.op_id s in
    record {
      unblocked = not_true _ _ (λ t. grows operation.op_id (forced.blocked t)) free;
      uncontested = not_true _ _ (λ t. grows operation.op_id (forced.corresponding t)) free;
      sure = λ i. not_true _ _ (λ t. grows operation.op_id (forced.unsafe i t)) free;
      closed =
          All-zip₂ _ _ _ (λ dependency k e. known-selected operations final dependency k e)
            operation.dependencies known
            (none_excluded final operation.dependencies (ground arith));
    }

-- For every dependency-ordered plan the derivation ends with a selection, in which no operation is
-- blocked or overlaps a blocked correspondence, none is a move, trash or delete if a side's scan is
-- incomplete, and with each operation every dependency of it is selected.
pub derive_execution_selection_safe :
    (upper : ℕ → Text) (plan : Plan)
    → is_dependency_ordered [] plan.operations ≡ true
    → (result : ExecutionSelection) × (derive_execution_selection upper plan ≡ some result)
      × All
          (λ operation.
            contains result.selection operation.op_id ≡ true
            → IsSelectable (quarantined upper plan) (is_incomplete plan) result.selection operation)
          plan.operations
derive_execution_selection_safe upper plan ordered =
    let (final, found, _, grows, stable) = derive_final upper plan in
    (
      record {
        selection = selected_ids plan.operations final;
        exclusions = explained plan.operations final;
      },
      found,
      All-zip₃ _ _ _ _
          (λ operation f s k.
            selectable (quarantined upper plan) (is_incomplete plan) plan.operations
              (first_exclusions upper plan) final operation grows f s k)
          plan.operations (first_exclusions-All upper plan) stable
          (dependencies-Known [] plan.operations ordered),
    )
