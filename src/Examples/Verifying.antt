-- ===== src/Examples/Verifying.antt =====
-- The verifier on concrete reads (namisync/modules/verifier.py).
use native.Mathlib.Decide.{ℕ_discrete}
use nami_sync.Base.{
  if◌then◌else◌, ◌==◌, ◌≡◌, refl, String, string_eq, List, [], ◌∷◌, ◌++◌, ℕ, none, some, Result, ok,
  err, pos, ◌>>=◌, arith,
}
use nami_sync.Base.Dict.{get, put}
use nami_sync.Evidence.{Provenance, RecordingStatus}
use nami_sync.Examples.Plans.{ascii}
use nami_sync.Integrity.{
  make_selection, item_ids, IntegritySelectionItem, IntegritySelection, pending,
}
use nami_sync.Integrity.Vocabulary.{
  InventoryState, IntegrityResult, IntegrityOutcome, IntegrityMode, RecordDisposition, ReadStrategy,
}
use nami_sync.Models.{FileStat, EntryKind}
use nami_sync.Paths.{codes, text_eq, check_component}
use nami_sync.Verifier.{Stop, Stream, Reading, ProcessedItem, outcome_with}
use nami_sync.Verifier.Processing.{VerifierContext, process_item}
use nami_sync.Verifier.Attesting.{Confirms, process_item-Confirms}
use nami_sync.Verifier.Reported.{IsCounted, report_all_accepts}
use nami_sync.Verifier.Reporting.{
  ProgressReporter, Call, chunk_read, completed, start_reporter, report_all, advance_all,
}
use nami_sync.Verifier.Resumed.{run_again, run_again_settles}
use nami_sync.Verifier.Running.{Progressed, Met, run_integrity}
use nami_sync.Verifier.Settled.{left_by, run_integrity_settles}
use nami_sync.Verifier.Settling.{AreDistinct, outcome_ids}

abbrev padding : List ℕ
padding =
    0 ∷ 0 ∷ 0 ∷ 0 ∷ 0 ∷ 0 ∷ 0 ∷ 0 ∷ 0 ∷ 0 ∷ 0 ∷ 0 ∷ 0 ∷ 0 ∷ 0 ∷ 0 ∷ 0 ∷ 0 ∷ 0 ∷ 0 ∷ 0 ∷ 0 ∷ 0 ∷ 0
    ∷ 0 ∷ 0 ∷ 0 ∷ 0 ∷ 0 ∷ 0 ∷ []

-- A digest that repeats two bytes and pads them.
abbrev checking : VerifierContext
checking = record {
  upper = ascii.upper;
  sha256 = λ bytes. bytes ++ padding;
  now = record { instant = 9; utc_offset = some (pos 0) };
  record_integrity = λ command. ok RecordDisposition.applied;
}

abbrev two_bytes : FileStat
two_bytes = record {
  kind = EntryKind.file;
  size = 2;
  mtime_ns = 5;
  file_identity = none;
  nlink = 1;
  metadata = record { attributes = 32; created_ns = none };
}

abbrev attested : String → IntegritySelectionItem
attested id = record {
  item_id = id;
  row_id = id;
  location_id = id;
  root = "r";
  rel_path_key = codes "A";
  display_path = codes "A";
  expected_state = InventoryState.present;
  expected_stat = some two_bytes;
  baseline = some (record {
    content = record {
      digest = 7 ∷ 8 ∷ padding;
      size = 2;
      provenance = Provenance.copy_attested;
      observed_at = record { instant = 1; utc_offset = some (pos 0) };
    };
    subject = two_bytes;
  });
  scope_token = "s";
  reappeared_at = none;
}

abbrev bytes_of : List ℕ → Reading
bytes_of bytes =
    Reading.opened ReadStrategy.windows_unbuffered (ok two_bytes)
      (Stream.chunk none bytes (Stream.ended (ok two_bytes))) none

abbrev from_ok : Result Stop ProcessedItem → ProcessedItem
from_ok (ok processed) = processed
from_ok (err stop) = record {
  outcome =
      outcome_with (attested "1") IntegrityResult.error none none none RecordingStatus.ok none;
  bytes_read = 0;
}

abbrev read_back : ProcessedItem
read_back =
    from_ok (process_item checking IntegrityMode.verify (attested "1") (bytes_of (7 ∷ 8 ∷ []))).1

read_back_is :
    (process_item checking IntegrityMode.verify (attested "1") (bytes_of (7 ∷ 8 ∷ []))).1
    ≡ ok read_back
unfolding process_item ℕ_discrete text_eq check_component
read_back_is = refl

read_back_verified : read_back.outcome.result ≡ IntegrityResult.verified
unfolding process_item ℕ_discrete text_eq check_component
read_back_verified = refl

process_item-Confirms_example : Confirms checking (attested "1") (bytes_of (7 ∷ 8 ∷ []))
process_item-Confirms_example =
    process_item-Confirms checking IntegrityMode.verify (attested "1") (bytes_of (7 ∷ 8 ∷ []))
      read_back read_back_is read_back_verified

-- Other bytes are a mismatch.
other_bytes :
    (from_ok
      (process_item checking IntegrityMode.verify
        (attested "1")
        (bytes_of (7 ∷ 9 ∷ []))).1).outcome.result
    ≡ IntegrityResult.mismatched
unfolding process_item ℕ_discrete text_eq check_component
other_bytes = refl

abbrev rows : IntegritySelection
rows = record {
  items = attested "1" ∷ attested "2" ∷ attested "3" ∷ [];
  completed_bytes = ("2", 2) ∷ [];
  processed_bytes = 2;
}

abbrev met : IntegritySelectionItem → Met
met item = record { checkpoint = none; reading = bytes_of (7 ∷ 8 ∷ []) }

rows-AreDistinct : AreDistinct (pending rows)
unfolding pending string_eq get
rows-AreDistinct = ((refl, tt), (tt, tt))

run_integrity_settles_example :
    (after : Progressed) × (ending : Result Stop RecordingStatus) × (run_integrity checking
        IntegrityMode.verify met rows
      ≡ ok (after, ending))
    × (outcome_ids after.emitted ++ item_ids (pending after.selection) ≡ item_ids (pending rows))
    × (pending after.selection ≡ left_by ending after)
    × AreDistinct (pending after.selection)
run_integrity_settles_example =
    run_integrity_settles checking IntegrityMode.verify met rows rows-AreDistinct

-- The first item grows while it is read.
abbrev growing : List (ℕ × Call)
growing = (1, chunk_read 9 "A") ∷ (5, chunk_read 4 "A") ∷ (6, completed "1" 13 "A") ∷ []

abbrev rows_after : IntegritySelection
rows_after = record rows { completed_bytes = ("2", 2) ∷ ("1", 13) ∷ []; processed_bytes = 15 }

rows-IsCounted : IsCounted rows
unfolding pending string_eq get
rows-IsCounted = ground arith

growing_advances : advance_all growing rows ≡ ok rows_after
unfolding advance_all string_eq get put
growing_advances = refl

report_all_accepts_example :
    (after : ProgressReporter) × (start_reporter 3 0 rows >>= report_all 3 growing ≡ ok after)
    × (after.selection ≡ rows_after)
    × IsCounted rows_after
report_all_accepts_example =
    report_all_accepts 3 0 growing rows rows_after rows-IsCounted growing_advances

-- The first run is paused at its second item.
abbrev interrupted : IntegritySelectionItem → Met
interrupted item =
    if item.item_id == "3"
    then record { checkpoint = some Stop.pause_requested; reading = bytes_of (7 ∷ 8 ∷ []) }
    else met item

rows_made : make_selection rows ≡ ok rows
unfolding make_selection ℕ_discrete text_eq
rows_made = refl

run_again_settles_example :
    (outcomes : List IntegrityOutcome) × (final : IntegritySelection) × (run_again checking
        IntegrityMode.verify
        (interrupted ∷ met ∷ [])
        rows
      ≡ ok (outcomes, final))
    × (outcome_ids outcomes ++ item_ids (pending final) ≡ item_ids (pending rows))
run_again_settles_example =
    run_again_settles checking IntegrityMode.verify (interrupted ∷ met ∷ []) rows rows_made
