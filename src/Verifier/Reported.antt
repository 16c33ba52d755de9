-- ===== src/Verifier/Reported.antt =====
-- A verifier's progress can always be reported (namisync/modules/verifier.py).
use nami_sync.Base.{
  ◌≡◌, refl, ◌>>=◌, ◌&&◌, ◌++◌, none, some, Bool, true, false, not, String, List, [], ◌∷◌, ℕ, ◌+◌,
  ◌≤◌, Option, Result, ok, ◌==◌, string_eq, pos, arith, Bool-cases, inl, inr, Result-cases, ltb,
  if◌then◌else◌,
}
use nami_sync.Base.Lists.{any, keep, length, length-keep}
use nami_sync.Events.{make_progress}
use nami_sync.Session.{Exn}
use nami_sync.Integrity.{
  IntegritySelectionItem, IntegritySelection, pending, completed_count, note_bytes_processed,
  mark_completed,
}
use nami_sync.Integrity.Completing.{mark_completed-eq, mark_completed_once}
use nami_sync.Verifier.Reporting.{
  ProgressReporter, Call, snapshot_of, is_recent, expected_bytes, chunk_read, completed, canceled,
  all_canceled, advance, advance_all, emit_progress, start_reporter, bytes_processed, report,
  report_all,
}

-- No more items are completed or pending than there are.
abbrev pub IsCounted : IntegritySelection → Type 0
IsCounted selection =
    completed_count selection + length (pending selection) ≤ length selection.items

-- The counts of a report are within its totals.
record IsWithin (reporter : ProgressReporter) : Type 0 where
  counted : IsCounted reporter.selection
  total : reporter.selection.processed_bytes ≤ reporter.bytes_total

length-keep_hit :
    (test : IntegritySelectionItem → Bool) (items : List IntegritySelectionItem)
    → any test items ≡ true
    → length (keep (λ item. not (test item)) items) + 1 ≤ length items
length-keep_hit test [] h = absurd (ground arith)
length-keep_hit test (item ∷ items) h =
    ground (arith, length-keep (λ item. not (test item)) items, length-keep_hit test items)

-- Completing an item counts it once.
mark_completed-IsCounted :
    (item_id : String) (n : ℕ) (selection after : IntegritySelection)
    → mark_completed item_id (pos n) selection ≡ ok after
    → IsCounted selection
    → IsCounted after × (after.processed_bytes ≡ selection.processed_bytes)
mark_completed-IsCounted item_id n selection after h counted =
    let (waits, left, more, again) =
      mark_completed_once item_id (pos n) (pos n) selection after h in
    let (fresh, known, is) = mark_completed-eq item_id (pos n) selection after h in
    let fewer = length-keep_hit (λ item. item.item_id == item_id) (pending selection) waits in
    (rw (left, more) (rw is (omega arith)), rw is refl)

make_progress-snapshot_of :
    (path : Option String) (reporter : ProgressReporter)
    → IsWithin reporter
    → make_progress (snapshot_of path reporter) ≡ ok (snapshot_of path reporter)
unfolding make_progress
make_progress-snapshot_of path reporter within =
    let counted = within.counted in let total = within.total in ground arith

module _ (interval : ℕ) where
  -- A report is accepted, and it leaves the selection as it is.
  abbrev Accepts : Result Exn ProgressReporter → IntegritySelection → Type 0
  Accepts answer selection =
      (after : ProgressReporter) × (answer ≡ ok after)
      × (after.selection ≡ selection)
      × IsWithin after

  emit_progress-Accepts :
      (now : ℕ) (path : Option String) (force : Bool) (reporter : ProgressReporter)
      → IsWithin reporter
      → Accepts (emit_progress interval now path force reporter) reporter.selection
  unfolding emit_progress
  emit_progress-Accepts now path force reporter within =
      elim (Bool-cases (not force && is_recent interval now reporter.last_emitted_at)) [
        | inl quiet ↦ (reporter, rw quiet refl, refl, within)
        | inr due ↦ (
          record reporter {
            last_emitted_at = some now;
            emitted = reporter.emitted ++ snapshot_of path reporter ∷ [];
          },
          rw due (rw (make_progress-snapshot_of path reporter within) refl),
          refl,
          record { counted = within.counted; total = within.total },
        )
      ]

  report-Accepts :
      (now : ℕ) (call : Call) (reporter : ProgressReporter) (selection : IntegritySelection)
      → IsWithin reporter
      → advance call reporter.selection ≡ ok selection
      → Accepts (report interval now call reporter) selection
  unfolding report advance note_bytes_processed bytes_processed pending
  report-Accepts now (chunk_read size path) reporter selection within h =
      let noted = record reporter.selection {
        processed_bytes = reporter.selection.processed_bytes + size;
      } in
      let total =
        if ltb reporter.bytes_total noted.processed_bytes
        then noted.processed_bytes
        else reporter.bytes_total in
      let same : noted ≡ selection = ground arith in
      let grown : IsWithin (record reporter { selection = noted; bytes_total = total }) = record {
        counted = within.counted;
        total = ground arith;
      } in
      rw (← same) (
        emit_progress-Accepts now (some path) false
          (record reporter { selection = noted; bytes_total = total }) grown)
  report-Accepts now (completed item_id bytes_read path) reporter selection within h =
      let (counted, same) =
        mark_completed-IsCounted item_id bytes_read reporter.selection selection h within.counted in
      let marked : IsWithin (record reporter { selection = selection }) = record {
        counted = counted;
        total = rw same within.total;
      } in
      rw h (
        emit_progress-Accepts now (some path) true (record reporter { selection = selection })
          marked)
  report-Accepts now (canceled item_id) reporter selection within h =
      let (counted, same) =
        mark_completed-IsCounted item_id 0 reporter.selection selection h within.counted in
      (
        record reporter { selection = selection },
        rw h refl,
        refl,
        record { counted = counted; total = rw same within.total },
      )
  report-Accepts now all_canceled reporter selection within h =
      let same : reporter.selection ≡ selection = ground arith in
      rw (← same) (emit_progress-Accepts now none true reporter within)

  report_all-Accepts :
      (calls : List (ℕ × Call)) (reporter : ProgressReporter) (selection : IntegritySelection)
      → IsWithin reporter
      → advance_all calls reporter.selection ≡ ok selection
      → Accepts (report_all interval calls reporter) selection
  unfolding report_all advance_all
  report_all-Accepts [] reporter selection within h = (reporter, refl, ground arith, within)
  report_all-Accepts ((now, call) ∷ calls) reporter selection within h =
      elim (Result-cases (advance call reporter.selection)) [
        | inr (e, refused) ↦ absurd (ground arith)
        | inl (next, moved) ↦
            let (after, reported, same, within_after) =
              report-Accepts now call reporter next within moved in
            rw reported
              (report_all-Accepts calls after selection within_after (rw same (rw moved at h)))
      ]

-- Whatever a run reads and completes, the constructor of `Progress` refuses none of its reports: if
-- the selection has no more items completed or pending than it has items and accepts what the run
-- does with it, then the reporter starts, reports every call and leaves the selection that the
-- calls alone would leave, with no more items completed or pending than it has.
pub report_all_accepts :
    (interval started : ℕ) (calls : List (ℕ × Call)) (selection final : IntegritySelection)
    → IsCounted selection
    → advance_all calls selection ≡ ok final
    → (after : ProgressReporter) × (start_reporter interval started selection
          >>= report_all interval calls
        ≡ ok after)
      × (after.selection ≡ final)
      × IsCounted final
unfolding start_reporter
report_all_accepts interval started calls selection final counted h =
    let fresh : ProgressReporter = record {
      selection = selection;
      last_emitted_at = none;
      bytes_total = selection.processed_bytes + expected_bytes (pending selection);
      emitted = [];
    } in
    let (ready, begun, same, within) =
      emit_progress-Accepts interval started none true fresh
        (record { counted = counted; total = omega arith }) in
    let (after, reported, left, ends) =
      report_all-Accepts interval calls ready final within (rw same h) in
    (after, rw begun reported, left, rw left at ends.counted)
