-- ===== src/Verifier/Resumed.antt =====
-- A verifier run that is paused and run again over the same selection (namisync/modules/verifier.py,
-- with the continuation of namisync/core/integrity.py).
use nami_sync.Base.{
  String, has_repeats, contains, ◌==◌, ==_sound, arith, string_eq, ◌≡◌, refl, ap, List, [], ◌∷◌,
  ◌++◌, Bool, true, false, Bool-cases, inl, inr, Result, ok, err, ◌>>=◌,
}
use mathlib.Core.List.{append_assoc}
use nami_sync.Evidence.{RecordingStatus}
use nami_sync.Base.Lists.{All, All-keep, keep}
use nami_sync.Integrity.{
  item_ids, is_pending, make_selection, IntegritySelectionItem, IntegritySelection, pending,
}
use nami_sync.Integrity.Vocabulary.{IntegrityMode, IntegrityOutcome}
use nami_sync.Session.{Exn}
use nami_sync.Verifier.{Stop, pause_requested}
use nami_sync.Verifier.Processing.{VerifierContext}
use nami_sync.Verifier.Running.{Met, run_integrity}
use nami_sync.Verifier.Settled.{run_integrity_settles}
use nami_sync.Verifier.Settling.{AreDistinct, outcome_ids}

abbrev pub is_paused : Result Stop RecordingStatus → Bool
is_paused (err pause_requested) = true
is_paused _ = false

-- The runs, each with what it meets, until one of them is not paused: the outcomes that they emit,
-- and the selection that they leave.
unfoldable pub run_again :
    VerifierContext
    → IntegrityMode
    → List (IntegritySelectionItem → Met)
    → IntegritySelection
    → Result Exn (List IntegrityOutcome × IntegritySelection)
unfolding run_integrity
run_again context mode [] selection = ok ([], selection)
run_again context mode (meets ∷ runs) selection =
    run_integrity context mode meets selection >>= λ (after, ending). elim (is_paused ending) [
      | false ↦ ok (after.emitted, after.selection)
      | true ↦ run_again context mode runs after.selection >>= λ (outcomes, final).
          ok (after.emitted ++ outcomes, final)
    ]

outcome_ids-append₂ :
    (first second : List IntegrityOutcome)
    → outcome_ids (first ++ second) ≡ outcome_ids first ++ outcome_ids second
outcome_ids-append₂ [] second = refl
outcome_ids-append₂ (outcome ∷ first) second =
    ap (λ ids. outcome.item_id ∷ ids) (outcome_ids-append₂ first second)

contains-AreDistinct :
    (id : String) (items : List IntegritySelectionItem)
    → contains (item_ids items) id ≡ false
    → All (λ other. (other.item_id == id) ≡ false) items
contains-AreDistinct id [] h = tt
contains-AreDistinct id (item ∷ items) h =
    (ground (arith, ==_sound item.item_id id), contains-AreDistinct id items (ground arith))

has_repeats-AreDistinct :
    (items : List IntegritySelectionItem) → has_repeats (item_ids items) ≡ false → AreDistinct items
unfolding has_repeats
has_repeats-AreDistinct [] h = tt
has_repeats-AreDistinct (item ∷ items) h = (
  contains-AreDistinct item.item_id items (ground arith),
  has_repeats-AreDistinct items (ground arith),
)

keep-AreDistinct :
    (test : IntegritySelectionItem → Bool) (items : List IntegritySelectionItem)
    → AreDistinct items
    → AreDistinct (keep test items)
keep-AreDistinct test [] h = tt
keep-AreDistinct test (item ∷ items) h = elim (Bool-cases (test item)) [
  | inl stays ↦ rw stays (All-keep _ test items h.0, keep-AreDistinct test items h.1)
  | inr goes ↦ rw goes (keep-AreDistinct test items h.1)
]

-- A selection that its constructor accepts has items of distinct ids.
make_selection-AreDistinct :
    (selection : IntegritySelection)
    → make_selection selection ≡ ok selection
    → AreDistinct (pending selection)
unfolding make_selection pending
make_selection-AreDistinct selection h =
    keep-AreDistinct (is_pending selection.completed_bytes) selection.items
      (has_repeats-AreDistinct selection.items (ground arith))

runs_settle :
    (context : VerifierContext) (mode : IntegrityMode) (runs : List (IntegritySelectionItem → Met))
    (selection : IntegritySelection)
    → AreDistinct (pending selection)
    → (outcomes : List IntegrityOutcome) × (final : IntegritySelection) × (run_again context mode
          runs selection
        ≡ ok (outcomes, final))
      × (outcome_ids outcomes ++ item_ids (pending final) ≡ item_ids (pending selection))
unfolding run_again
runs_settle context mode [] selection d = ([], selection, refl, refl)
runs_settle context mode (meets ∷ runs) selection d =
    let (after, ending, ran, accounted, left, apart) =
      run_integrity_settles context mode meets selection d in
    elim (Bool-cases (is_paused ending)) [
      | inr ends ↦
          (after.emitted, after.selection, rw (ran, run_again) (rw (ends, ◌>>=◌) refl), accounted)
      | inl paused ↦
          let (outcomes, final, again, all) = runs_settle context mode runs after.selection apart in
          (
            after.emitted ++ outcomes,
            final,
            rw (ran, run_again) (rw (paused, ◌>>=◌) (rw again refl)),
            rw (outcome_ids-append₂, append_assoc, all) accounted,
          )
    ]

-- However often a run over a selection that its constructor accepts is paused and run again, it
-- raises no `ValueError`, and the outcomes of all the runs together are one for each item that was
-- pending and is not any more, in the order of the items: none is emitted twice, and none is lost.
pub run_again_settles :
    (context : VerifierContext) (mode : IntegrityMode) (runs : List (IntegritySelectionItem → Met))
    (selection : IntegritySelection)
    → make_selection selection ≡ ok selection
    → (outcomes : List IntegrityOutcome) × (final : IntegritySelection) × (run_again context mode
          runs selection
        ≡ ok (outcomes, final))
      × (outcome_ids outcomes ++ item_ids (pending final) ≡ item_ids (pending selection))
run_again_settles context mode runs selection made =
    runs_settle context mode runs selection (make_selection-AreDistinct selection made)
