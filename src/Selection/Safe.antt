-- ===== src/Selection/Safe.antt =====
-- What is selected is safe (namisync/workflows/selection.py).
use nami_sync.Planning.{Plan}
use mathlib.Core.Bool.{false≢true, true≢false}
use nami_sync.Base.{
  Option-cases, sym, ◌∙◌, ◌≡◌, Bool, true, false, not, ◌||◌, ◌&&◌, String, List, [], ◌∷◌, ℕ,
  contains, string_eq, arith, Bool-cases, inl, inr, ◌⊎◌,
}
use nami_sync.Base.Lists.{All, All-map, All-zip₃, All-every, List-cases}
use nami_sync.Paths.{Text}
use nami_sync.Planning.{PlanOperation, kind_eq, is_blocked, quarantined_operation_ids}
use nami_sync.Selection.{
  Exclusions, is_excluded, for_each, exclude_blocked, exclude_quarantined, exclude_unsafe, sides,
  incomplete_scan_unsafe, first_exclusions,
}
use nami_sync.Selection.Rounds.{Extends, is_excluded-put}

abbrev Body : Type 0
Body = PlanOperation → Exclusions → Exclusions

-- A loop whose body only adds exclusions only adds exclusions.
Extends-for_each :
    (body : Body)
    → ((operation : PlanOperation) (exclusions : Exclusions)
        → Extends exclusions (body operation exclusions))
    → (operations : List PlanOperation) (exclusions : Exclusions)
    → Extends exclusions (for_each body operations exclusions)
unfolding for_each
Extends-for_each body grows [] exclusions id h = h
Extends-for_each body grows (operation ∷ operations) exclusions id h =
    Extends-for_each body grows operations (body operation exclusions) id
      (grows operation exclusions id h)

abbrev IsExcludedIf : (PlanOperation → Bool) → Exclusions → PlanOperation → Type 0
IsExcludedIf test exclusions operation =
    test operation ≡ true → is_excluded operation.op_id exclusions ≡ true

-- If its body excludes the operations that pass a test, the loop excludes them all.
for_each_excludes :
    (test : PlanOperation → Bool) (body : Body)
    → ((operation : PlanOperation) (exclusions : Exclusions)
        → Extends exclusions (body operation exclusions))
    → ((operation : PlanOperation) (exclusions : Exclusions)
        → IsExcludedIf test (body operation exclusions) operation)
    → (operations : List PlanOperation) (exclusions : Exclusions)
    → All (IsExcludedIf test (for_each body operations exclusions)) operations
unfolding for_each
for_each_excludes test body grows hits [] exclusions = tt
for_each_excludes test body grows hits (operation ∷ operations) exclusions = (
  λ t.
      Extends-for_each body grows operations (body operation exclusions) operation.op_id
        (hits operation exclusions t),
  for_each_excludes test body grows hits operations (body operation exclusions),
)

Extends-exclude_blocked :
    (operation : PlanOperation) (exclusions : Exclusions)
    → Extends exclusions (exclude_blocked operation exclusions)
unfolding exclude_blocked
Extends-exclude_blocked operation exclusions id h = elim (Option-cases operation.blocked_reason) [
  | inl free ↦ rw (free, exclude_blocked) h
  | inr (reason, blocked) ↦ rw (blocked, exclude_blocked) (rw is_excluded-put (ground arith))
]

exclude_blocked_hits :
    (operation : PlanOperation) (exclusions : Exclusions)
    → IsExcludedIf is_blocked (exclude_blocked operation exclusions) operation
unfolding exclude_blocked
exclude_blocked_hits operation exclusions t = elim (Option-cases operation.blocked_reason) [
  | inl free ↦ absurd (false≢true (rw free at t))
  | inr (reason, blocked) ↦ rw (blocked, exclude_blocked) (rw is_excluded-put (ground arith))
]

Extends-exclude_quarantined :
    (quarantined : List String) (operation : PlanOperation) (exclusions : Exclusions)
    → Extends exclusions (exclude_quarantined quarantined operation exclusions)
unfolding exclude_quarantined
Extends-exclude_quarantined quarantined operation exclusions id h =
    elim (Bool-cases (contains quarantined operation.op_id)) [
      | inl found ↦ rw (found, exclude_quarantined) (rw is_excluded-put (ground arith))
      | inr free ↦ rw (free, exclude_quarantined) h
    ]

exclude_quarantined_hits :
    (quarantined : List String) (operation : PlanOperation) (exclusions : Exclusions)
    → IsExcludedIf
        (λ operation. contains quarantined operation.op_id)
        (exclude_quarantined quarantined operation exclusions)
        operation
unfolding exclude_quarantined
exclude_quarantined_hits quarantined operation exclusions found =
    rw (found, exclude_quarantined) (rw is_excluded-put (ground arith))

abbrev pub is_unsafe : PlanOperation → Bool
is_unsafe operation = contains incomplete_scan_unsafe operation.kind

Extends-exclude_unsafe :
    (incomplete : List String) (operation : PlanOperation) (exclusions : Exclusions)
    → Extends exclusions (exclude_unsafe incomplete operation exclusions)
unfolding exclude_unsafe
Extends-exclude_unsafe incomplete operation exclusions id h =
    elim (Bool-cases (not (is_excluded operation.op_id exclusions) && is_unsafe operation)) [
      | inl found ↦ rw (found, exclude_unsafe) (rw is_excluded-put (ground arith))
      | inr free ↦ rw (free, exclude_unsafe) h
    ]

exclude_unsafe_hits :
    (incomplete : List String) (operation : PlanOperation) (exclusions : Exclusions)
    → IsExcludedIf is_unsafe (exclude_unsafe incomplete operation exclusions) operation
unfolding exclude_unsafe
exclude_unsafe_hits incomplete operation exclusions t =
    elim (Bool-cases (not (is_excluded operation.op_id exclusions) && is_unsafe operation)) [
      | inl found ↦ rw (found, exclude_unsafe) (rw is_excluded-put (ground arith))
      | inr free ↦ rw (free, exclude_unsafe) (ground arith)
    ]

-- What holds of the operations of a plan once every forced exclusion is found.
pub record IsForcedOut (quarantined : List String) (incomplete : Bool) (exclusions : Exclusions)
    (operation : PlanOperation) : Type 0 where
  pub blocked : is_blocked operation ≡ true → is_excluded operation.op_id exclusions ≡ true
  pub corresponding :
      contains quarantined operation.op_id ≡ true → is_excluded operation.op_id exclusions ≡ true
  pub unsafe :
      incomplete ≡ true → is_unsafe operation ≡ true → is_excluded operation.op_id exclusions ≡ true

abbrev pub is_incomplete : Plan → Bool
is_incomplete plan = not plan.source_complete || not plan.target_complete

module _ (upper : ℕ → Text) (plan : Plan) where
  abbrev pub quarantined : List String
  quarantined = quarantined_operation_ids upper plan.operations

  abbrev found : Exclusions
  found =
      for_each (exclude_quarantined quarantined) plan.operations
        (for_each exclude_blocked plan.operations [])

  first_exclusions-found :
      (first_exclusions upper plan ≡ found) × (is_incomplete plan ≡ false)
      ⊎ (incomplete : List String) × (first_exclusions upper plan
          ≡ for_each (exclude_unsafe incomplete) plan.operations found)
  unfolding first_exclusions
  first_exclusions-found = elim (List-cases (sides plan)) [
    | inl whole ↦ inl (rw (whole, first_exclusions), ground arith)
    | inr (side, others, partial) ↦ inr (side ∷ others, rw (partial, first_exclusions))
  ]

  Extends-found : Extends found (first_exclusions upper plan)
  Extends-found = elim first_exclusions-found [
    | inl (same, _) ↦ rw same (λ id h. h)
    | inr (incomplete, more) ↦ rw more (
        Extends-for_each (exclude_unsafe incomplete) (Extends-exclude_unsafe incomplete)
          plan.operations found)
  ]

  unsafe-All :
      All
        (λ operation.
          is_incomplete plan ≡ true
          → IsExcludedIf is_unsafe (first_exclusions upper plan) operation)
        plan.operations
  unsafe-All = elim first_exclusions-found [
    | inl (_, complete) ↦
        All-every _ (λ operation i. absurd (true≢false (sym i ∙ complete))) plan.operations
    | inr (incomplete, more) ↦ rw more (
        All-map
          (IsExcludedIf is_unsafe (for_each (exclude_unsafe incomplete) plan.operations found)) _
          (λ operation h i. h) plan.operations
          (for_each_excludes is_unsafe (exclude_unsafe incomplete)
            (Extends-exclude_unsafe incomplete) (exclude_unsafe_hits incomplete) plan.operations
            found))
  ]

  -- The three loops exclude each operation that they test for.
  pub first_exclusions-All :
      All
        (IsForcedOut quarantined (is_incomplete plan) (first_exclusions upper plan))
        plan.operations
  first_exclusions-All =
      let blocked = for_each exclude_blocked plan.operations [] in
      let grows =
        Extends-for_each (exclude_quarantined quarantined) (Extends-exclude_quarantined quarantined)
          plan.operations blocked in
      All-zip₃ _ _ _ _
        (λ operation b q u. record {
          blocked = λ t. Extends-found operation.op_id (grows operation.op_id (b t));
          corresponding = λ t. Extends-found operation.op_id (q t);
          unsafe = λ i t. u i t;
        })
        plan.operations
        (for_each_excludes is_blocked exclude_blocked Extends-exclude_blocked exclude_blocked_hits
          plan.operations [])
        (for_each_excludes (λ operation. contains quarantined operation.op_id)
          (exclude_quarantined quarantined) (Extends-exclude_quarantined quarantined)
          (exclude_quarantined_hits quarantined) plan.operations blocked)
        unsafe-All
