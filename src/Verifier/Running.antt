-- ===== src/Verifier/Running.antt =====
-- `_run` of namisync/modules/verifier.py: the loop over the pending items, and what a pause or a
-- cancellation leaves.
use nami_sync.Base.{
  Bool, true, false, List, [], ◌∷◌, ◌++◌, ℕ, Option, none, some, Result, ok, err, ◌>>=◌,
  if◌then◌else◌, pos, ◌+◌,
}
use nami_sync.Base.Lists.{any}
use nami_sync.Evidence.{RecordingStatus}
use nami_sync.Integrity.{IntegritySelectionItem, IntegritySelection, pending, mark_completed}
use nami_sync.Integrity.Vocabulary.{
  IntegrityResult, IntegrityMode, IntegrityReason, IntegrityOutcome,
}
use nami_sync.Session.{Exn}
use nami_sync.Verifier.{Stop, Reading, ProcessedItem, outcome_with, pause_requested, canceled}
use nami_sync.Verifier.Processing.{VerifierContext, process_item}

-- The selection with its continuation, and the outcomes emitted.
pub record Progressed : Type 0 where
  pub selection : IntegritySelection
  pub emitted : List IntegrityOutcome

-- `_emit_and_complete`
unfoldable pub emit_and_complete : ProcessedItem → Progressed → Result Exn Progressed
unfolding mark_completed
emit_and_complete processed progressed = do
  selection ←
      mark_completed processed.outcome.item_id (pos processed.bytes_read) progressed.selection
  ok (record { selection = selection; emitted = progressed.emitted ++ processed.outcome ∷ [] })

-- `note_bytes_processed`, of a size that is not negative
abbrev pub noted : ℕ → Progressed → Progressed
noted size progressed = record progressed {
  selection = record progressed.selection {
    processed_bytes = progressed.selection.processed_bytes + size;
  };
}

-- What the run meets at an item: what its checkpoint raises, and what reading the file comes to.
pub record Met : Type 0 where
  pub checkpoint : Option Stop
  pub reading : Reading

-- The loop over the items that were pending when it began.
unfoldable pub process_all :
    VerifierContext
    → IntegrityMode
    → (IntegritySelectionItem → Met)
    → List IntegritySelectionItem
    → Progressed
    → Result Exn (Progressed × Option Stop)
unfolding process_item emit_and_complete
process_all context mode meets [] progressed = ok (progressed, none)
process_all context mode meets (item ∷ items) progressed = elim (meets item).checkpoint [
  | some stop ↦ ok (progressed, some stop)
  | none ↦
      let (size, result) = process_item context mode item (meets item).reading in
      elim result [
        | err stop ↦ ok (noted size progressed, some stop)
        | ok processed ↦
            emit_and_complete processed (noted size progressed)
            >>= process_all context mode meets items
      ]
]

unfoldable pub canceled_item : IntegritySelectionItem → ProcessedItem
unfolding outcome_with
canceled_item item = record {
  outcome =
      outcome_with item IntegrityResult.canceled (some IntegrityReason.canceled) none none
        RecordingStatus.ok none;
  bytes_read = 0;
}

-- What a cancellation does with the items that are still pending.
unfoldable pub cancel_all : List IntegritySelectionItem → Progressed → Result Exn Progressed
unfolding canceled_item emit_and_complete
cancel_all [] progressed = ok progressed
cancel_all (item ∷ items) progressed =
    emit_and_complete (canceled_item item) progressed >>= cancel_all items

abbrev is_degraded : IntegrityOutcome → Bool
is_degraded outcome = elim outcome.recording [
  | RecordingStatus.ok ↦ false
  | RecordingStatus.degraded ↦ true
]

-- What follows the loop: the recording status, or the `except` clause of what unwound it.
unfoldable pub end_run :
    Progressed → Option Stop → Result Exn (Progressed × Result Stop RecordingStatus)
unfolding cancel_all pending
end_run progressed none = ok (
  progressed,
  ok (if any is_degraded progressed.emitted then RecordingStatus.degraded else RecordingStatus.ok),
)
end_run progressed (some pause_requested) = ok (progressed, err pause_requested)
end_run progressed (some canceled) =
    cancel_all (pending progressed.selection) progressed >>= λ settled. ok (settled, err canceled)

-- `_run`: what it leaves, and the recording status that it returns or what it raises.
unfoldable pub run_integrity :
    VerifierContext
    → IntegrityMode
    → (IntegritySelectionItem → Met)
    → IntegritySelection
    → Result Exn (Progressed × Result Stop RecordingStatus)
unfolding process_all end_run pending
run_integrity context mode meets selection = do
  looped ←
      process_all context mode meets (pending selection)
        (record { selection = selection; emitted = [] })
  end_run looped.0 looped.1
