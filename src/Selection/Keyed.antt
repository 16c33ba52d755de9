-- ===== src/Selection/Keyed.antt =====
-- The dictionary of exclusions files each under its own id (namisync/workflows/selection.py).
use nami_sync.Planning.{Plan}
use mathlib.Core.Path.{subst}
use mathlib.Core.Option.{some-injective}
use nami_sync.Base.{
  ◌≡◌, Bool, true, false, ◌||◌, String, List, [], ◌∷◌, ℕ, zero, suc, some, if◌then◌else◌, ◌==◌,
  contains, string_eq, arith, Bool-cases, inl, inr, Option-cases,
}
use nami_sync.Base.Lists.{any, List-cases}
use nami_sync.Base.Dict.{get, get-put}
use nami_sync.Evidence.{Outcome}
use nami_sync.Paths.{Text}
use nami_sync.Planning.{PlanOperation, op_ids, quarantined_operation_ids}
use nami_sync.Selection.{
  OperationExclusion, Reason, Detail, Exclusions, is_excluded, is_forced, exclude, propagate_one,
  propagate, settle, for_each, exclude_blocked, exclude_quarantined, exclude_unsafe, sides, explain,
  explained, first_exclusions,
}

-- What each assignment to `exclusions` keeps holds when the derivation ends.
module _ (P : Exclusions → Type 0)
    (assigns : (operation : PlanOperation) (outcome : Outcome) (reason : Reason) (detail : Detail)
        (exclusions : Exclusions)
      → P exclusions
      → P (exclude operation outcome reason detail exclusions)) where
  keeps-for_each :
      (body : PlanOperation → Exclusions → Exclusions)
      → ((operation : PlanOperation) (exclusions : Exclusions)
          → P exclusions
          → P (body operation exclusions))
      → (operations : List PlanOperation) (exclusions : Exclusions) → P exclusions
      → P (for_each body operations exclusions)
  unfolding for_each
  keeps-for_each body keeps [] exclusions p = p
  keeps-for_each body keeps (operation ∷ operations) exclusions p =
      keeps-for_each body keeps operations (body operation exclusions)
        (keeps operation exclusions p)

  keeps_if :
      (test : Bool) (operation : PlanOperation) (outcome : Outcome) (reason : Reason)
      (detail : Detail) (exclusions : Exclusions)
      → P exclusions
      → P (if test then exclude operation outcome reason detail exclusions else exclusions)
  keeps_if true operation outcome reason detail exclusions p =
      assigns operation outcome reason detail exclusions p
  keeps_if false operation outcome reason detail exclusions p = p

  keeps-exclude_blocked :
      (operation : PlanOperation) (exclusions : Exclusions)
      → P exclusions
      → P (exclude_blocked operation exclusions)
  unfolding exclude_blocked
  keeps-exclude_blocked operation exclusions p = elim (Option-cases operation.blocked_reason) [
    | inl free ↦ rw (free, exclude_blocked) p
    | inr (reason, blocked) ↦ rw (blocked, exclude_blocked) (assigns operation _ _ _ exclusions p)
  ]

  keeps-exclude_quarantined :
      (quarantined : List String) (operation : PlanOperation) (exclusions : Exclusions)
      → P exclusions
      → P (exclude_quarantined quarantined operation exclusions)
  unfolding exclude_quarantined
  keeps-exclude_quarantined quarantined operation exclusions p =
      keeps_if _ operation _ _ _ exclusions p

  keeps-exclude_unsafe :
      (incomplete : List String) (operation : PlanOperation) (exclusions : Exclusions)
      → P exclusions
      → P (exclude_unsafe incomplete operation exclusions)
  unfolding exclude_unsafe
  keeps-exclude_unsafe incomplete operation exclusions p = keeps_if _ operation _ _ _ exclusions p

  keeps-propagate :
      (operations : List PlanOperation) (exclusions : Exclusions) (changed : Bool)
      → P exclusions
      → P (propagate operations exclusions changed).0
  unfolding propagate propagate_one
  keeps-propagate [] exclusions changed p = p
  keeps-propagate (operation ∷ operations) exclusions changed p =
      keeps-propagate operations (propagate_one operation exclusions)
        (changed || is_forced operation exclusions)
        (keeps_if (is_forced operation exclusions) operation _ _ _ exclusions p)

  pub keeps-settle :
      (fuel : ℕ) (operations : List PlanOperation) (exclusions final : Exclusions)
      → P exclusions
      → settle fuel operations exclusions ≡ some final
      → P final
  unfolding settle
  keeps-settle zero operations exclusions final p h = cc
  keeps-settle (suc fuel) operations exclusions final p h =
      let next = (propagate operations exclusions false).0 in
      let kept : P next = keeps-propagate operations exclusions false p in
      elim (Bool-cases (propagate operations exclusions false).1) [
        | inl changed ↦ keeps-settle fuel operations next final kept (rw (changed, settle) at h)
        | inr unchanged ↦ subst P (some-injective next final (rw (unchanged, settle) at h)) kept
      ]

  pub keeps-first_exclusions :
      (upper : ℕ → Text) (plan : Plan) → P [] → P (first_exclusions upper plan)
  unfolding first_exclusions
  keeps-first_exclusions upper plan p =
      let on_blocked = keeps-for_each exclude_blocked keeps-exclude_blocked plan.operations [] p in
      let quarantined = quarantined_operation_ids upper plan.operations in
      let on_quarantined =
        keeps-for_each (exclude_quarantined quarantined) (keeps-exclude_quarantined quarantined)
          plan.operations _ on_blocked in
      elim (List-cases (sides plan)) [
        | inl whole ↦ rw (whole, first_exclusions) on_quarantined
        | inr (side, others, partial) ↦
            rw (partial, first_exclusions)
              (keeps-for_each (exclude_unsafe (side ∷ others))
                (keeps-exclude_unsafe (side ∷ others)) plan.operations _ on_quarantined)
      ]

abbrev pub Keyed : Exclusions → Type 0
Keyed exclusions =
    (id : String) (exclusion : OperationExclusion)
    → get id exclusions ≡ some exclusion
    → exclusion.op_id ≡ id

pub Keyed-exclude :
    (operation : PlanOperation) (outcome : Outcome) (reason : Reason) (detail : Detail)
    (exclusions : Exclusions)
    → Keyed exclusions
    → Keyed (exclude operation outcome reason detail exclusions)
Keyed-exclude operation outcome reason detail exclusions k id exclusion h = ground (
  arith,
  get-put id operation.op_id
      (record { op_id = operation.op_id; outcome = outcome; reason = reason; detail = detail })
      exclusions,
  k id exclusion,
)

-- `id` is among the exclusions of a selection.
abbrev pub withheld : String → List OperationExclusion → Bool
withheld id = any (λ exclusion. exclusion.op_id == id)

pub withheld-is_excluded :
    (operations : List PlanOperation) (exclusions : Exclusions) (id : String)
    → Keyed exclusions
    → withheld id (explained operations exclusions) ≡ true
    → is_excluded id exclusions ≡ true
withheld-is_excluded [] exclusions id k h = cc
withheld-is_excluded (operation ∷ operations) exclusions id k h =
    elim (Option-cases (get operation.op_id exclusions)) [
      | inl free ↦ withheld-is_excluded operations exclusions id k (rw (free, explain) at h)
      | inr (exclusion, found) ↦ ground (
        arith,
        k operation.op_id exclusion found,
        withheld-is_excluded operations exclusions id k,
      )
    ]

pub is_excluded-withheld :
    (operations : List PlanOperation) (exclusions : Exclusions) (id : String)
    → Keyed exclusions
    → contains (op_ids operations) id ≡ true
    → is_excluded id exclusions ≡ true
    → withheld id (explained operations exclusions) ≡ true
is_excluded-withheld [] exclusions id k c h = cc
is_excluded-withheld (operation ∷ operations) exclusions id k c h =
    elim (Option-cases (get operation.op_id exclusions)) [
      | inl free ↦
          rw (free, explain) (ground (arith, is_excluded-withheld operations exclusions id k))
      | inr (exclusion, found) ↦
          rw (found, explain)
            (ground (
              arith,
              k operation.op_id exclusion found,
              is_excluded-withheld operations exclusions id k,
            ))
    ]
