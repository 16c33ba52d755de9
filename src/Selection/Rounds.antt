-- ===== src/Selection/Rounds.antt =====
-- The propagation loop of the selection ends, at a fixed point (namisync/workflows/selection.py).
use mathlib.Core.Bool.{true≢false}
use nami_sync.Base.{
  sym, ◌∙◌, ◌≡◌, refl, Bool, true, false, ◌||◌, ◌&&◌, String, List, [], ◌∷◌, ℕ, zero, suc, ◌≤◌, ◌<◌,
  some, if◌then◌else◌, ◌==◌, string_eq, arith, Bool-cases, inl, inr,
}
use nami_sync.Base.Lists.{length, All}
use nami_sync.Base.Dict.{put, get-put}
use nami_sync.Planning.{PlanOperation}
use nami_sync.Selection.{
  OperationExclusion, Exclusions, is_excluded, is_forced, propagate_one, propagate, settle,
}

-- The operations that are not excluded.
pub open_count : List PlanOperation → Exclusions → ℕ
open_count [] exclusions = 0
open_count (operation ∷ operations) exclusions =
    let rest = open_count operations exclusions in
    if is_excluded operation.op_id exclusions then rest else suc rest

-- Excluding only grows.
abbrev pub Extends : Exclusions → Exclusions → Type 0
Extends before after = (id : String) → is_excluded id before ≡ true → is_excluded id after ≡ true

pub is_excluded-put :
    (id key : String) (exclusion : OperationExclusion) (exclusions : Exclusions)
    → is_excluded id (put key exclusion exclusions) ≡ (id == key || is_excluded id exclusions)
is_excluded-put id key exclusion exclusions = rw get-put (ground arith)

pub is_excluded-propagate_one :
    (id : String) (operation : PlanOperation) (exclusions : Exclusions)
    → is_excluded id (propagate_one operation exclusions)
      ≡ (is_excluded id exclusions || (is_forced operation exclusions && id == operation.op_id))
unfolding propagate_one
is_excluded-propagate_one id operation exclusions =
    elim (Bool-cases (is_forced operation exclusions)) [
      | inl forced ↦ rw (forced, is_excluded-put) (ground arith)
      | inr free ↦ rw free (ground arith)
    ]

Extends-propagate_one :
    (operation : PlanOperation) (exclusions : Exclusions)
    → Extends exclusions (propagate_one operation exclusions)
Extends-propagate_one operation exclusions id h = rw (is_excluded-propagate_one, h)

pub Extends-propagate :
    (operations : List PlanOperation) (exclusions : Exclusions) (changed : Bool)
    → Extends exclusions (propagate operations exclusions changed).0
unfolding propagate
Extends-propagate [] exclusions changed id h = h
Extends-propagate (operation ∷ operations) exclusions changed id h =
    Extends-propagate operations (propagate_one operation exclusions)
      (changed || is_forced operation exclusions) id
      (Extends-propagate_one operation exclusions id h)

propagate_changed :
    (operations : List PlanOperation) (exclusions : Exclusions)
    → (propagate operations exclusions true).1 ≡ true
unfolding propagate
propagate_changed [] exclusions = refl
propagate_changed (operation ∷ operations) exclusions =
    propagate_changed operations (propagate_one operation exclusions)

open_count-Extends :
    (operations : List PlanOperation) (before after : Exclusions)
    → Extends before after
    → open_count operations after ≤ open_count operations before
unfolding open_count
open_count-Extends [] before after h = omega arith
open_count-Extends (operation ∷ operations) before after h =
    ground (arith, h operation.op_id, open_count-Extends operations before after h)

propagate_one_free :
    (operation : PlanOperation) (exclusions : Exclusions)
    → is_forced operation exclusions ≡ false
    → propagate_one operation exclusions ≡ exclusions
unfolding propagate_one
propagate_one_free operation exclusions h = rw h

-- A round that changes something leaves fewer operations open.
propagate-open_count :
    (operations : List PlanOperation) (exclusions : Exclusions)
    → (propagate operations exclusions false).1 ≡ true
    → open_count operations (propagate operations exclusions false).0
      < open_count operations exclusions
unfolding propagate open_count
propagate-open_count [] exclusions h = cc
propagate-open_count (operation ∷ operations) exclusions h =
    elim (Bool-cases (is_forced operation exclusions)) [
      | inl forced ↦
          let after = (propagate operations (propagate_one operation exclusions) true).0 in
          let grows : Extends exclusions after = λ id e.
            Extends-propagate operations (propagate_one operation exclusions) true id
              (Extends-propagate_one operation exclusions id e) in
          let own : is_excluded operation.op_id after ≡ true =
            Extends-propagate operations (propagate_one operation exclusions) true operation.op_id
              (rw (is_excluded-propagate_one, forced) (ground arith)) in
          rw (forced, propagate)
            (rw own (ground (arith, open_count-Extends operations exclusions after grows)))
      | inr free ↦
          rw (free, propagate, propagate_one_free operation exclusions free)
            (ground (
              arith,
              Extends-propagate operations exclusions false operation.op_id,
              propagate-open_count operations exclusions
                  (rw (free, propagate, propagate_one_free operation exclusions free) at h),
            ))
    ]

-- A round that changes nothing returns what it was given, and forces no operation.
propagate_stable :
    (operations : List PlanOperation) (exclusions : Exclusions)
    → (propagate operations exclusions false).1 ≡ false
    → ((propagate operations exclusions false).0 ≡ exclusions)
      × All (λ operation. is_forced operation exclusions ≡ false) operations
unfolding propagate
propagate_stable [] exclusions h = (refl, tt)
propagate_stable (operation ∷ operations) exclusions h =
    elim (Bool-cases (is_forced operation exclusions)) [
      | inl forced ↦ absurd (
          true≢false (
            sym (propagate_changed operations (propagate_one operation exclusions))
            ∙ rw (forced, propagate) at h))
      | inr free ↦
          let (same, all) =
            propagate_stable operations exclusions
              (rw (free, propagate, propagate_one_free operation exclusions free) at h) in
          rw (free, propagate, propagate_one_free operation exclusions free) (same, (refl, all))
    ]

pub settle_total :
    (fuel : ℕ) (operations : List PlanOperation) (exclusions : Exclusions)
    → open_count operations exclusions < fuel
    → (final : Exclusions) × (settle fuel operations exclusions ≡ some final)
      × Extends exclusions final
      × All (λ operation. is_forced operation final ≡ false) operations
unfolding settle
settle_total zero operations exclusions h = elim h [ ]
settle_total (suc fuel) operations exclusions h =
    let next = (propagate operations exclusions false).0 in
    elim (Bool-cases (propagate operations exclusions false).1) [
      | inl changed ↦
          let (final, found, grows, stable) =
            settle_total fuel operations next
              (omega (arith, propagate-open_count operations exclusions changed)) in
          (
            final,
            rw (changed, settle) found,
            λ id e. grows id (Extends-propagate operations exclusions false id e),
            stable,
          )
      | inr unchanged ↦
          let (same, stable) = propagate_stable operations exclusions unchanged in
          (
            next,
            rw (unchanged, settle),
            λ id e. Extends-propagate operations exclusions false id e,
            rw same stable,
          )
    ]

pub open_count-le-length :
    (operations : List PlanOperation) (exclusions : Exclusions)
    → open_count operations exclusions ≤ length operations
unfolding open_count
open_count-le-length [] exclusions = omega arith
open_count-le-length (operation ∷ operations) exclusions =
    ground (arith, open_count-le-length operations exclusions)
