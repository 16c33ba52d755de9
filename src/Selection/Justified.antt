-- ===== src/Selection/Justified.antt =====
-- Each step of the derivation of a selection withholds an operation for a reason
-- (namisync/workflows/selection.py).
use nami_sync.Planning.{Plan}
use mathlib.Core.Path.{subst}
use mathlib.Core.Option.{some-injective}
use mathlib.Core.Bool.{false≢true}
use nami_sync.Base.{
  ◌≡◌, Bool, true, false, not, ◌||◌, ◌&&◌, String, List, [], ◌∷◌, ℕ, zero, suc, some, ◌==◌,
  contains, string_eq, arith, Bool-cases, inl, inr, Option-cases,
}
use nami_sync.Base.Lists.{All, any, any_mono, any_self, List-cases}
use nami_sync.Base.Dict.{get-nil}
use nami_sync.Paths.{Text}
use nami_sync.Planning.{PlanOperation, is_blocked}
use nami_sync.Selection.{
  Exclusions, is_excluded, is_forced, propagate_one, propagate, settle, for_each, exclude_blocked,
  exclude_quarantined, exclude_unsafe, sides, first_exclusions,
}
use nami_sync.Selection.Rounds.{Extends, is_excluded-put, is_excluded-propagate_one}
use nami_sync.Selection.Safe.{is_unsafe, is_incomplete, quarantined}

-- A reason to withhold an operation, given what else is withheld.
abbrev pub is_justified : List String → Bool → Exclusions → PlanOperation → Bool
is_justified quarantined incomplete exclusions operation =
    is_blocked operation
    || contains quarantined operation.op_id
    || (incomplete && is_unsafe operation)
    || any (λ dependency. is_excluded dependency exclusions) operation.dependencies

module _ (quarantined : List String) (incomplete : Bool)
    (plan_operations : List PlanOperation) where
  -- Each id withheld is that of an operation with such a reason.
  abbrev pub Justified : Exclusions → Type 0
  Justified exclusions =
      (id : String)
      → is_excluded id exclusions ≡ true
      → any
          (λ operation.
            operation.op_id == id && is_justified quarantined incomplete exclusions operation)
          plan_operations
        ≡ true

  abbrev InPlan : PlanOperation → Type 0
  InPlan operation =
      (test : PlanOperation → Bool) → test operation ≡ true → any test plan_operations ≡ true

  any-Extends :
      (before after : Exclusions) (dependencies : List String)
      → Extends before after
      → any (λ dependency. is_excluded dependency before) dependencies ≡ true
      → any (λ dependency. is_excluded dependency after) dependencies ≡ true
  any-Extends before after dependencies grows h = any_mono _ _ grows dependencies h

  is_justified-Extends :
      (before after : Exclusions) (operation : PlanOperation)
      → Extends before after
      → is_justified quarantined incomplete before operation ≡ true
      → is_justified quarantined incomplete after operation ≡ true
  is_justified-Extends before after operation grows h =
      ground (arith, any-Extends before after operation.dependencies grows)

  -- One more exclusion, of an operation of the plan that has a reason.
  Justified-one :
      (before after : Exclusions) (operation : PlanOperation) (excludes : Bool)
      → InPlan operation
      → (excludes ≡ true → is_justified quarantined incomplete before operation ≡ true)
      → ((id : String)
          → is_excluded id after ≡ (is_excluded id before || (excludes && id == operation.op_id)))
      → Justified before
      → Justified after
  Justified-one before after operation excludes in_plan reason step j id h =
      let grows : Extends before after = λ i e. rw (step, e) in
      elim (Bool-cases (is_excluded id before)) [
        | inl old ↦
            any_mono _ _ (λ o k. ground (arith, is_justified-Extends before after o grows))
              plan_operations (j id old)
        | inr new ↦
            in_plan _ (ground (arith, step id, is_justified-Extends before after operation grows))
      ]

  module _ (body : PlanOperation → Exclusions → Exclusions) where
    Justified-for_each :
        ((operation : PlanOperation) (exclusions : Exclusions)
          → InPlan operation
          → Justified exclusions
          → Justified (body operation exclusions))
        → (operations : List PlanOperation) (exclusions : Exclusions) → All InPlan operations
        → Justified exclusions
        → Justified (for_each body operations exclusions)
    unfolding for_each
    Justified-for_each keeps [] exclusions i j = j
    Justified-for_each keeps (operation ∷ operations) exclusions i j =
        Justified-for_each keeps operations (body operation exclusions) i.1
          (keeps operation exclusions i.0 j)

  Justified-exclude_blocked :
      (operation : PlanOperation) (exclusions : Exclusions)
      → InPlan operation
      → Justified exclusions
      → Justified (exclude_blocked operation exclusions)
  unfolding exclude_blocked
  Justified-exclude_blocked operation exclusions i j =
      Justified-one exclusions (exclude_blocked operation exclusions) operation
        (is_blocked operation) i (λ e. rw e)
        (λ id. elim (Option-cases operation.blocked_reason) [
          | inl free ↦ rw (free, exclude_blocked) (ground arith)
          | inr (reason, blocked) ↦
              rw (blocked, exclude_blocked) (rw is_excluded-put (ground arith))
        ])
        j

  Justified-exclude_quarantined :
      (operation : PlanOperation) (exclusions : Exclusions)
      → InPlan operation
      → Justified exclusions
      → Justified (exclude_quarantined quarantined operation exclusions)
  unfolding exclude_quarantined
  Justified-exclude_quarantined operation exclusions i j =
      Justified-one exclusions (exclude_quarantined quarantined operation exclusions) operation
        (contains quarantined operation.op_id) i (λ e. ground arith)
        (λ id. elim (Bool-cases (contains quarantined operation.op_id)) [
          | inl found ↦ rw (found, exclude_quarantined) (rw is_excluded-put (ground arith))
          | inr free ↦ rw (free, exclude_quarantined) (ground arith)
        ])
        j

  Justified-exclude_unsafe :
      (names : List String) (operation : PlanOperation) (exclusions : Exclusions)
      → incomplete ≡ true
      → InPlan operation
      → Justified exclusions
      → Justified (exclude_unsafe names operation exclusions)
  unfolding exclude_unsafe
  Justified-exclude_unsafe names operation exclusions partial i j =
      let excludes = not (is_excluded operation.op_id exclusions) && is_unsafe operation in
      Justified-one exclusions (exclude_unsafe names operation exclusions) operation excludes i
        (λ e. ground arith)
        (λ id. elim (Bool-cases excludes) [
          | inl found ↦ rw (found, exclude_unsafe) (rw is_excluded-put (ground arith))
          | inr free ↦ rw (free, exclude_unsafe) (ground arith)
        ])
        j

  Justified-propagate_one :
      (operation : PlanOperation) (exclusions : Exclusions)
      → InPlan operation
      → Justified exclusions
      → Justified (propagate_one operation exclusions)
  Justified-propagate_one operation exclusions i j =
      Justified-one exclusions (propagate_one operation exclusions) operation
        (is_forced operation exclusions) i (λ e. ground arith)
        (λ id. is_excluded-propagate_one id operation exclusions) j

  Justified-propagate :
      (operations : List PlanOperation) (exclusions : Exclusions) (changed : Bool)
      → All InPlan operations
      → Justified exclusions
      → Justified (propagate operations exclusions changed).0
  unfolding propagate
  Justified-propagate [] exclusions changed i j = j
  Justified-propagate (operation ∷ operations) exclusions changed i j =
      Justified-propagate operations (propagate_one operation exclusions)
        (changed || is_forced operation exclusions) i.1
        (Justified-propagate_one operation exclusions i.0 j)

  pub Justified-settle :
      (fuel : ℕ) (operations : List PlanOperation) (exclusions final : Exclusions)
      → All InPlan operations
      → Justified exclusions
      → settle fuel operations exclusions ≡ some final
      → Justified final
  unfolding settle
  Justified-settle zero operations exclusions final i j h = cc
  Justified-settle (suc fuel) operations exclusions final i j h =
      let next = (propagate operations exclusions false).0 in
      let kept : Justified next = Justified-propagate operations exclusions false i j in
      elim (Bool-cases (propagate operations exclusions false).1) [
        | inl changed ↦
            Justified-settle fuel operations next final i kept (rw (changed, settle) at h)
        | inr unchanged ↦
            subst Justified (some-injective next final (rw (unchanged, settle) at h)) kept
      ]

module _ (upper : ℕ → Text) (plan : Plan) where
  pub first_exclusions-Justified :
      Justified
        (quarantined upper plan)
        (is_incomplete plan)
        plan.operations
        (first_exclusions upper plan)
  unfolding first_exclusions
  first_exclusions-Justified =
      let within : All (InPlan (quarantined upper plan) (is_incomplete plan) plan.operations)
          plan.operations =
        any_self plan.operations in
      let on_blocked =
        Justified-for_each (quarantined upper plan) (is_incomplete plan) plan.operations
          exclude_blocked
          (Justified-exclude_blocked (quarantined upper plan) (is_incomplete plan) plan.operations)
          plan.operations [] within (λ id h. absurd (false≢true (rw get-nil at h))) in
      let on_quarantined =
        Justified-for_each (quarantined upper plan) (is_incomplete plan) plan.operations
          (exclude_quarantined (quarantined upper plan))
          (Justified-exclude_quarantined (quarantined upper plan) (is_incomplete plan)
            plan.operations)
          plan.operations (for_each exclude_blocked plan.operations []) within on_blocked in
      elim (List-cases (sides plan)) [
        | inl whole ↦ rw (whole, first_exclusions) on_quarantined
        | inr (side, others, partial) ↦
            rw (partial, first_exclusions)
              (Justified-for_each (quarantined upper plan) (is_incomplete plan) plan.operations
                (exclude_unsafe (side ∷ others))
                (λ operation exclusions.
                  Justified-exclude_unsafe (quarantined upper plan) (is_incomplete plan)
                    plan.operations (side ∷ others) operation exclusions (ground arith))
                plan.operations _ within on_quarantined)
      ]
