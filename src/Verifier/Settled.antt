-- ===== src/Verifier/Settled.antt =====
-- Every item that a run of the verifier does not leave pending has its outcome
-- (namisync/modules/verifier.py).
use nami_sync.Base.{
  ◌≡◌, refl, sym, ◌∙◌, String, List, [], ◌∷◌, ◌++◌, ℕ, Option, none, some, Result, ok, err,
  Result-cases, Option-cases, inl, inr, arith,
}
use mathlib.Core.List.{append-nil}
use nami_sync.Evidence.{RecordingStatus}
use nami_sync.Integrity.{item_ids, IntegritySelectionItem, IntegritySelection, pending}
use nami_sync.Integrity.Vocabulary.{IntegrityMode}
use nami_sync.Verifier.Running.{
  Progressed, Met, noted, process_all, canceled_item, cancel_all, end_run, run_integrity,
}
use nami_sync.Verifier.Settling.{
  IsOf, process_item-IsOf, AreDistinct, outcome_ids, outcome_ids-append, emit_and_complete_ok,
}
use nami_sync.Verifier.{Stop, ProcessedItem, outcome_with, pause_requested, canceled}
use nami_sync.Verifier.Processing.{VerifierContext, process_item}

IsOf-ok :
    (item : IntegritySelectionItem) (result : Result Stop ProcessedItem) (processed : ProcessedItem)
    → IsOf item result
    → result ≡ ok processed
    → processed.outcome.item_id ≡ item.item_id
IsOf-ok item (ok other) processed i e = ground arith
IsOf-ok item (err stop) processed i e = absurd (ground arith)

pending-noted :
    (size : ℕ) (progressed : Progressed)
    → pending (noted size progressed).selection ≡ pending progressed.selection
unfolding pending
pending-noted size progressed = refl

-- What a loop that ended by itself leaves pending: nothing.
abbrev left_pending : Option Stop → Progressed → List IntegritySelectionItem
left_pending none after = []
left_pending (some stop) after = pending after.selection

module _ (context : VerifierContext) (mode : IntegrityMode)
    (meets : IntegritySelectionItem → Met) where
  process_all-settles :
      (items : List IntegritySelectionItem) (progressed : Progressed)
      → pending progressed.selection ≡ items
      → AreDistinct items
      → (after : Progressed) × (stop : Option Stop) × (process_all context mode meets items
            progressed
          ≡ ok (after, stop))
        × (outcome_ids after.emitted ++ item_ids (pending after.selection)
            ≡ outcome_ids progressed.emitted ++ item_ids items)
        × (pending after.selection ≡ left_pending stop after)
        × AreDistinct (pending after.selection)
  unfolding process_all
  process_all-settles [] progressed p d = (progressed, none, refl, rw p refl, p, rw p tt)
  process_all-settles (item ∷ items) progressed p d = elim (Option-cases (meets item).checkpoint) [
    | inr (stop, c) ↦ (progressed, some stop, rw (c, process_all) refl, rw p refl, refl, rw p d)
    | inl c ↦ elim (Result-cases (process_item context mode item (meets item).reading).1) [
      | inr (stop, r) ↦ (
        noted (process_item context mode item (meets item).reading).0 progressed,
        some stop,
        rw (c, r, process_all) refl,
        rw (pending-noted, p) refl,
        refl,
        rw (pending-noted, p) d,
      )
      | inl (processed, r) ↦
          let own =
            IsOf-ok item _ processed (process_item-IsOf context mode item (meets item).reading) r in
          let size = (process_item context mode item (meets item).reading).0 in
          let (next, completed, left, out) =
            emit_and_complete_ok item items processed (noted size progressed) own
              (pending-noted size progressed ∙ p) d in
          let (after, stop, ran, accounted, leaves, distinct) =
            process_all-settles items next left d.1 in
          (
            after,
            stop,
            rw (c, r, completed, process_all) ran,
            accounted
                ∙ rw out (
                    outcome_ids-append progressed.emitted processed.outcome (item_ids items)
                    ∙ rw own refl),
            leaves,
            distinct,
          )
    ]
  ]

cancel_all_settles :
    (items : List IntegritySelectionItem) (progressed : Progressed)
    → pending progressed.selection ≡ items
    → AreDistinct items
    → (after : Progressed) × (cancel_all items progressed ≡ ok after)
      × (outcome_ids after.emitted ≡ outcome_ids progressed.emitted ++ item_ids items)
      × (pending after.selection ≡ [])
unfolding cancel_all
cancel_all_settles [] progressed p d = (progressed, refl, sym (append-nil _), p)
cancel_all_settles (item ∷ items) progressed p d =
    let (next, completed, left, out) =
      emit_and_complete_ok item items (canceled_item item) progressed
        (unfold canceled_item outcome_with in refl) p d in
    let (after, ran, accounted, empty) = cancel_all_settles items next left d.1 in
    (
      after,
      rw (completed, cancel_all) ran,
      accounted
          ∙ rw out (
              outcome_ids-append progressed.emitted (canceled_item item).outcome (item_ids items)
              ∙ unfold canceled_item outcome_with in refl),
      empty,
    )

-- What a run leaves pending: nothing, unless it was paused.
abbrev pub left_by : Result Stop RecordingStatus → Progressed → List IntegritySelectionItem
left_by (err pause_requested) after = pending after.selection
left_by ending after = []

end_run_settles :
    (ids : List String) (progressed : Progressed) (stop : Option Stop)
    → outcome_ids progressed.emitted ++ item_ids (pending progressed.selection) ≡ ids
    → pending progressed.selection ≡ left_pending stop progressed
    → AreDistinct (pending progressed.selection)
    → (after : Progressed) × (ending : Result Stop RecordingStatus) × (end_run progressed stop
        ≡ ok (after, ending))
      × (outcome_ids after.emitted ++ item_ids (pending after.selection) ≡ ids)
      × (pending after.selection ≡ left_by ending after)
      × AreDistinct (pending after.selection)
unfolding end_run
end_run_settles ids progressed none a l d = (progressed, _, refl, a, l, d)
end_run_settles ids progressed (some pause_requested) a l d =
    (progressed, err pause_requested, refl, a, refl, d)
end_run_settles ids progressed (some canceled) a l d =
    let (after, ran, accounted, empty) =
      cancel_all_settles (pending progressed.selection) progressed refl d in
    (after, err canceled, rw ran refl, rw (empty, append-nil) (accounted ∙ a), empty, rw empty tt)

-- A run over items with distinct ids raises no `ValueError`, whatever the reads, the recorder and
-- the checkpoints come to: it emits one outcome for each item that it does not leave pending, in the
-- order of the items, it leaves items pending only when it is paused, and their ids are distinct.
pub run_integrity_settles :
    (context : VerifierContext) (mode : IntegrityMode) (meets : IntegritySelectionItem → Met)
    (selection : IntegritySelection)
    → AreDistinct (pending selection)
    → (after : Progressed) × (ending : Result Stop RecordingStatus) × (run_integrity context mode
          meets selection
        ≡ ok (after, ending))
      × (outcome_ids after.emitted ++ item_ids (pending after.selection)
          ≡ item_ids (pending selection))
      × (pending after.selection ≡ left_by ending after)
      × AreDistinct (pending after.selection)
unfolding run_integrity
run_integrity_settles context mode meets selection d =
    let (progressed, stop, ran, accounted, leaves, distinct) =
      process_all-settles context mode meets (pending selection)
        (record { selection = selection; emitted = [] }) refl d in
    let (after, ending, ended, all, left, apart) =
      end_run_settles (item_ids (pending selection)) progressed stop accounted leaves distinct in
    (after, ending, rw ran ended, all, left, apart)
