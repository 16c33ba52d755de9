-- ===== src/Verifier.antt =====
-- The exceptions, the reads, the comparisons and the outcomes of the verifier
-- (namisync/modules/verifier.py). What the reader, the recorder, the clock and the checkpoints
-- answer is an argument.
pub mod Processing
pub mod Running
pub mod Attesting
pub mod Settling
pub mod Settled
pub mod Resumed
pub mod Reporting
pub mod Reported
use nami_sync.Base.{
  Bool, true, false, not, ◌||◌, ◌&&◌, String, List, [], ◌∷◌, ◌++◌, ℕ, ◌+◌, Option, none, some,
  Result, ok, err, ◌>>=◌, ◌>>◌, raise_if, if◌then◌else◌, Eq, ◌==◌, option_eq,
}
use nami_sync.Base.Lists.{length}
use nami_sync.Evidence.{Datetime, Provenance, RecordingStatus}
use nami_sync.Integrity.{IntegritySelectionItem}
use nami_sync.Integrity.Vocabulary.{
  InventoryState, IntegrityResult, IntegrityMode, IntegrityReason, ReadStrategy, RecordDisposition,
  ContentEvidence, make_content, Attestation, IntegrityRecordCommand, make_command, IntegrityDetail,
  IntegrityOutcome, is_given, is_verify,
}
use nami_sync.Models.{FileStat, entry_kind_eq, identity_eq}
use nami_sync.Paths.{Text, text_eq, code_eq, validate_relative_path, normalize_relative_path}
use nami_sync.Session.{Exn}

-- The exceptions that unwind the run.
pub data Stop : Type 0 where
  pause_requested canceled : Stop

-- The exceptions that a read raises, with their detail.
pub data ReadError : Type 0 where
  file_not_found unsupported_verification other_error : String → ReadError

-- What the iteration over the chunks comes to: a chunk, with what the checkpoint before it raises;
-- an exception; or its end, with the stat that is taken then.
pub data Stream : Type 0 where
  chunk : Option Stop → List ℕ → Stream → Stream
  broken : ReadError → Stream
  ended : Result ReadError FileStat → Stream

-- What opening the file comes to: an exception, or a stream with its first stat, and at last what
-- closing it raises, if it does.
pub data Reading : Type 0 where
  failed : ReadError → Reading
  opened : ReadStrategy → Result ReadError FileStat → Stream → Option ReadError → Reading

-- What the loop leaves: the bytes of the chunks read, and how it was left.
pub data Left : Type 0 where
  stopped : Stop → Left
  raised : ReadError → Left
  finished : FileStat → Left

-- The loop over the chunks, from the bytes read before.
unfoldable pub read_chunks : List ℕ → Stream → List ℕ × Left
read_chunks bytes (chunk (some stop) more stream) = (bytes, stopped stop)
read_chunks bytes (chunk none more stream) = read_chunks (bytes ++ more) stream
read_chunks bytes (broken e) = (bytes, raised e)
read_chunks bytes (ended (ok after)) = (bytes, finished after)
read_chunks bytes (ended (err e)) = (bytes, raised e)

-- `_ProcessedItem`
pub record ProcessedItem : Type 0 where
  pub outcome : IntegrityOutcome
  pub bytes_read : ℕ

-- `_outcome`, with its keywords
unfoldable pub outcome_with :
    IntegritySelectionItem
    → IntegrityResult
    → Option IntegrityReason
    → Option IntegrityDetail
    → Option ReadStrategy
    → RecordingStatus
    → Option RecordDisposition
    → IntegrityOutcome
outcome_with item result reason detail strategy recording disposition = record {
  item_id = item.item_id;
  row_id = item.row_id;
  location_id = item.location_id;
  path = item.display_path;
  result = result;
  reason = reason;
  detail = detail;
  read_strategy = strategy;
  recording = recording;
  record_disposition = disposition;
}

abbrev pub unread :
    IntegritySelectionItem
    → IntegrityResult
    → IntegrityReason
    → Option IntegrityDetail
    → ProcessedItem
unread item result reason detail = record {
  outcome = outcome_with item result (some reason) detail none RecordingStatus.ok none;
  bytes_read = 0;
}

abbrev pub read_as :
    IntegritySelectionItem
    → IntegrityResult
    → IntegrityReason
    → Option IntegrityDetail
    → ReadStrategy
    → ℕ
    → ProcessedItem
read_as item result reason detail strategy bytes_read = record {
  outcome = outcome_with item result (some reason) detail (some strategy) RecordingStatus.ok none;
  bytes_read = bytes_read;
}

-- `_matches_expected_stat`
unfoldable pub matches_expected_stat : FileStat → FileStat → Bool
unfolding entry_kind_eq code_eq option_eq identity_eq
matches_expected_stat expected actual =
    expected.kind == actual.kind
    && expected.size == actual.size
    && expected.mtime_ns == actual.mtime_ns
    && (not (is_given expected.file_identity) || expected.file_identity == actual.file_identity)

-- `_same_open_subject`; two `None`s are equal too
unfoldable pub same_open_subject : FileStat → FileStat → Bool
unfolding entry_kind_eq code_eq option_eq identity_eq
same_open_subject before after =
    before.kind == after.kind
    && before.size == after.size
    && before.mtime_ns == after.mtime_ns
    && before.file_identity == after.file_identity

-- The three `except` clauses.
unfoldable pub read_failed : IntegritySelectionItem → ReadError → ProcessedItem
unfolding outcome_with
read_failed item (file_not_found detail) =
    unread item IntegrityResult.missing IntegrityReason.not_found
      (some (IntegrityDetail.of_error detail))
read_failed item (unsupported_verification detail) =
    unread item IntegrityResult.unsupported IntegrityReason.unsupported_read
      (some (IntegrityDetail.of_error detail))
read_failed item (other_error detail) =
    unread item IntegrityResult.error IntegrityReason.read_error
      (some (IntegrityDetail.of_error detail))

abbrev pub recorded_as :
    IntegritySelectionItem
    → IntegrityResult
    → Option IntegrityReason
    → Option IntegrityDetail
    → ReadStrategy
    → RecordingStatus
    → Option RecordDisposition
    → ℕ
    → ProcessedItem
recorded_as item result reason detail strategy recording disposition bytes_read = record {
  outcome = outcome_with item result reason detail (some strategy) recording disposition;
  bytes_read = bytes_read;
}

-- `_record_outcome`, by what the recorder raises or returns
unfoldable pub record_outcome :
    IntegritySelectionItem
    → IntegrityResult
    → ReadStrategy
    → ℕ
    → Result String RecordDisposition
    → ProcessedItem
unfolding outcome_with
record_outcome item result strategy bytes_read (err detail) =
    recorded_as item result (some IntegrityReason.recording_error)
      (some (IntegrityDetail.of_error detail)) strategy RecordingStatus.degraded none bytes_read
record_outcome item result strategy bytes_read (ok RecordDisposition.stale) =
    recorded_as item result (some IntegrityReason.recording_stale) none strategy
      RecordingStatus.degraded (some RecordDisposition.stale) bytes_read
record_outcome item result strategy bytes_read (ok RecordDisposition.conflict) =
    recorded_as item result (some IntegrityReason.recording_conflict) none strategy
      RecordingStatus.degraded (some RecordDisposition.conflict) bytes_read
record_outcome item result strategy bytes_read (ok disposition) =
    recorded_as item result none none strategy RecordingStatus.ok (some disposition) bytes_read
