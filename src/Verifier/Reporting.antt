-- ===== src/Verifier/Reporting.antt =====
-- `_ProgressReporter` of namisync/modules/verifier.py: when a run emits its progress, and what it
-- says. Times are what the monotonic clock returned.
use nami_sync.Base.{
  Bool, true, false, not, ◌&&◌, String, List, [], ◌∷◌, ◌++◌, ℕ, ◌+◌, Option, none, some, Result, ok,
  ◌>>=◌, if◌then◌else◌, ltb, pos,
}
use nami_sync.Base.Lists.{length}
use nami_sync.Events.{Progress, make_progress}
use nami_sync.Integrity.{
  IntegritySelectionItem, IntegritySelection, pending, completed_count, note_bytes_processed,
  mark_completed,
}
use nami_sync.Integrity.Vocabulary.{InventoryState}
use nami_sync.Session.{Exn}

-- The size that the inventory has of an item that is present.
abbrev pub expected_size : IntegritySelectionItem → ℕ
expected_size item = elim item.expected_state [
  | InventoryState.present ↦ elim item.expected_stat [ none ↦ 0 | some stat ↦ stat.size ]
  | _ ↦ 0
]

abbrev pub expected_bytes : List IntegritySelectionItem → ℕ
expected_bytes [] = 0
expected_bytes (item ∷ items) = expected_size item + expected_bytes items

-- The reporter with the selection that it reads, and the progress that it has emitted.
pub record ProgressReporter : Type 0 where
  pub selection : IntegritySelection
  pub last_emitted_at : Option ℕ
  pub bytes_total : ℕ
  pub emitted : List Progress

abbrev pub is_recent : ℕ → ℕ → Option ℕ → Bool
is_recent interval now none = false
is_recent interval now (some last) = ltb now (last + interval)

abbrev pub snapshot_of : Option String → ProgressReporter → Progress
snapshot_of current_path reporter = record {
  items_done = pos (completed_count reporter.selection);
  items_total = some (pos (length reporter.selection.items));
  bytes_done = pos reporter.selection.processed_bytes;
  bytes_total = some (pos reporter.bytes_total);
  current_path = current_path;
}

-- What a run does with the selection and tells the reporter: a chunk was read; an item is
-- complete, by the loop or by a cancellation; the cancellation has completed the last item.
pub data Call : Type 0 where
  chunk_read : ℕ → String → Call
  completed : String → ℕ → String → Call
  canceled : String → Call
  all_canceled : Call

-- What the calls do with the selection alone.
unfoldable pub advance : Call → IntegritySelection → Result Exn IntegritySelection
unfolding note_bytes_processed mark_completed
advance (chunk_read size path) selection = note_bytes_processed (pos size) selection
advance (completed item_id bytes_read path) selection =
    mark_completed item_id (pos bytes_read) selection
advance (canceled item_id) selection = mark_completed item_id (pos 0) selection
advance all_canceled selection = ok selection

unfoldable pub advance_all : List (ℕ × Call) → IntegritySelection → Result Exn IntegritySelection
unfolding advance
advance_all [] selection = ok selection
advance_all ((now, call) ∷ calls) selection = advance call selection >>= advance_all calls

module _ (interval : ℕ) where
  -- `emit`
  unfoldable pub emit_progress :
      ℕ → Option String → Bool → ProgressReporter → Result Exn ProgressReporter
  unfolding make_progress
  emit_progress now current_path force reporter =
      if not force && is_recent interval now reporter.last_emitted_at then ok reporter else (do
        body ← make_progress (snapshot_of current_path reporter)
        ok (record reporter {
          last_emitted_at = some now;
          emitted = reporter.emitted ++ body ∷ [];
        }))

  -- `__init__`
  unfoldable pub start_reporter : ℕ → IntegritySelection → Result Exn ProgressReporter
  unfolding emit_progress pending
  start_reporter now selection = emit_progress now none true (record {
    selection = selection;
    last_emitted_at = none;
    bytes_total = selection.processed_bytes + expected_bytes (pending selection);
    emitted = [];
  })

  -- `bytes_processed`
  unfoldable pub bytes_processed : ℕ → ℕ → String → ProgressReporter → Result Exn ProgressReporter
  unfolding emit_progress note_bytes_processed
  bytes_processed now size current_path reporter = do
    selection ← note_bytes_processed (pos size) reporter.selection
    emit_progress now (some current_path) false (record reporter {
      selection = selection;
      bytes_total =
          if ltb reporter.bytes_total selection.processed_bytes
          then selection.processed_bytes
          else reporter.bytes_total;
    })

  -- `item_completed`
  abbrev pub item_completed : ℕ → String → ProgressReporter → Result Exn ProgressReporter
  item_completed now current_path = emit_progress now (some current_path) true

  -- The reporter at a call.
  unfoldable pub report : ℕ → Call → ProgressReporter → Result Exn ProgressReporter
  unfolding bytes_processed emit_progress mark_completed
  report now (chunk_read size path) reporter = bytes_processed now size path reporter
  report now (completed item_id bytes_read path) reporter = do
    selection ← mark_completed item_id (pos bytes_read) reporter.selection
    item_completed now path (record reporter { selection = selection })
  report now (canceled item_id) reporter = do
    selection ← mark_completed item_id (pos 0) reporter.selection
    ok (record reporter { selection = selection })
  report now all_canceled reporter = emit_progress now none true reporter

  unfoldable pub report_all : List (ℕ × Call) → ProgressReporter → Result Exn ProgressReporter
  unfolding report
  report_all [] reporter = ok reporter
  report_all ((now, call) ∷ calls) reporter = report now call reporter >>= report_all calls
