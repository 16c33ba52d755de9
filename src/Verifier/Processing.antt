-- ===== src/Verifier/Processing.antt =====
-- The classification of one item by the verifier, `_process_item`, and the reading of its file
-- (namisync/modules/verifier.py); `sha256` is the digest of the bytes.
use nami_sync.Base.{
  Bool, true, false, not, ◌||◌, String, List, [], ℕ, Option, none, some, Result, ok, err, ◌>>=◌,
  if◌then◌else◌, ◌==◌, option_eq,
}
use nami_sync.Base.Lists.{length}
use nami_sync.Evidence.{Datetime, Provenance}
use nami_sync.Integrity.{IntegritySelectionItem}
use nami_sync.Integrity.Vocabulary.{
  InventoryState, IntegrityResult, IntegrityMode, IntegrityReason, ReadStrategy, RecordDisposition,
  make_content, Attestation, IntegrityRecordCommand, make_command, IntegrityDetail, is_given,
}
use nami_sync.Models.{FileStat, entry_kind_eq, identity_eq}
use nami_sync.Paths.{Text, text_eq, code_eq, validate_relative_path, normalize_relative_path}
use nami_sync.Session.{Exn}
use nami_sync.Verifier.{
  finished, stopped, failed, opened, raised, Stop, ReadError, Stream, Reading, Left, read_chunks,
  ProcessedItem, outcome_with, unread, read_as, matches_expected_stat, same_open_subject,
  read_failed, record_outcome,
}

-- What the verifier is given.
pub record VerifierContext : Type 0 where
  pub upper : ℕ → Text
  pub sha256 : List ℕ → List ℕ
  pub now : Datetime
  pub record_integrity : IntegrityRecordCommand → Result String RecordDisposition

-- A baseline that `verify` compares with.
abbrev pub compared : IntegrityMode → IntegritySelectionItem → Option Attestation
compared IntegrityMode.verify item = item.baseline
compared mode item = none

abbrev pub differs_from : Option Attestation → FileStat → Bool
differs_from none before = false
differs_from (some known) before = not (matches_expected_stat known.subject before)

abbrev pub hash_differs : Option Attestation → List ℕ → Bool
hash_differs none digest = false
hash_differs (some known) digest = not (digest == known.content.digest)

abbrev pub command_mode : IntegrityMode → Bool → IntegrityMode
command_mode IntegrityMode.rebaseline verified = IntegrityMode.rebaseline
command_mode mode true = IntegrityMode.verify
command_mode mode false = IntegrityMode.baseline

abbrev pub attested_result : Option Attestation → IntegrityResult
attested_result none = IntegrityResult.baselined
attested_result (some known) = IntegrityResult.verified

-- The evidence and the command, which their constructors may refuse.
unfoldable pub attest_command :
    VerifierContext
    → IntegrityMode
    → IntegritySelectionItem
    → FileStat
    → FileStat
    → List ℕ
    → Result Exn IntegrityRecordCommand
unfolding make_content make_command
attest_command context mode item expected after bytes =
    let verified = is_given (compared mode item) in
    let subject =
      if is_given expected.file_identity then after else record after { file_identity = none } in
    do
      content ← make_content (record {
        digest = context.sha256 bytes;
        size = length bytes;
        provenance = Provenance.verify_attested;
        observed_at = context.now;
      })
      make_command (record {
        mode = command_mode mode verified;
        item_id = item.item_id;
        row_id = item.row_id;
        location_id = item.location_id;
        rel_path_key = item.rel_path_key;
        scope_token = item.scope_token;
        expected_state = item.expected_state;
        expected_stat = expected;
        expected_baseline = item.baseline;
        attestation = record { content = content; subject = subject };
        advances_last_verified = verified;
        clear_reappeared = is_given item.reappeared_at;
      })

-- What the recorder makes of a command, or `except Exception` of a refusal.
unfoldable pub record_command :
    VerifierContext
    → IntegritySelectionItem
    → IntegrityResult
    → ReadStrategy
    → ℕ
    → Result Exn IntegrityRecordCommand
    → ProcessedItem
unfolding record_outcome outcome_with
record_command context item result strategy bytes_read (err e) =
    unread item IntegrityResult.error IntegrityReason.read_error (some (IntegrityDetail.of_exn e))
record_command context item result strategy bytes_read (ok command) =
    record_outcome item result strategy bytes_read (context.record_integrity command)

unfoldable pub attest :
    VerifierContext
    → IntegrityMode
    → IntegritySelectionItem
    → ReadStrategy
    → FileStat
    → FileStat
    → List ℕ
    → ProcessedItem
unfolding attest_command record_command
attest context mode item strategy expected after bytes =
    record_command context item (attested_result (compared mode item)) strategy (length bytes)
      (attest_command context mode item expected after bytes)

-- What the loop over the chunks leaves, and the tests after it.
unfoldable pub finish_read :
    VerifierContext
    → IntegrityMode
    → IntegritySelectionItem
    → ReadStrategy
    → FileStat
    → FileStat
    → List ℕ
    → Left
    → Result Stop ProcessedItem
unfolding same_open_subject attest read_failed outcome_with code_eq text_eq
finish_read context mode item strategy expected before bytes (stopped stop) = err stop
finish_read context mode item strategy expected before bytes (raised e) = ok (read_failed item e)
finish_read context mode item strategy expected before bytes (finished after) =
    if not (same_open_subject before after)
    then ok (
        read_as item IntegrityResult.modified IntegrityReason.read_drift none strategy
          (length bytes))
    else if not (length bytes == before.size)
    then ok (
        read_as item IntegrityResult.error IntegrityReason.read_error
          (some (IntegrityDetail.short_read (length bytes) before.size)) strategy (length bytes))
    else if hash_differs (compared mode item) (context.sha256 bytes)
    then ok (
        read_as item IntegrityResult.mismatched IntegrityReason.hash_mismatch none strategy
          (length bytes))
    else ok (attest context mode item strategy expected after bytes)

-- The body of the `with` statement: the bytes noted as processed, and the item or what unwinds.
unfoldable pub read_within :
    VerifierContext
    → IntegrityMode
    → IntegritySelectionItem
    → FileStat
    → ReadStrategy
    → Result ReadError FileStat
    → Stream
    → ℕ × Result Stop ProcessedItem
unfolding matches_expected_stat read_chunks finish_read read_failed outcome_with
read_within context mode item expected strategy (err e) stream = (0, ok (read_failed item e))
read_within context mode item expected strategy (ok before) stream =
    let (bytes, left) = read_chunks [] stream in
    if not (matches_expected_stat expected before) || differs_from (compared mode item) before
    then (
      0,
      ok (read_as item IntegrityResult.modified IntegrityReason.stat_changed none strategy 0),
    )
    else (length bytes, finish_read context mode item strategy expected before bytes left)

-- The end of the `with` statement: what it raises takes the place of what the body came to.
abbrev pub exited :
    IntegritySelectionItem
    → Option ReadError
    → Result Stop ProcessedItem
    → Result Stop ProcessedItem
exited item none result = result
exited item (some e) result = ok (read_failed item e)

-- What is done with the file.
unfoldable pub read_item :
    VerifierContext
    → IntegrityMode
    → IntegritySelectionItem
    → FileStat
    → Reading
    → ℕ × Result Stop ProcessedItem
unfolding read_within read_failed
read_item context mode item expected (failed e) = (0, ok (read_failed item e))
read_item context mode item expected (opened strategy stat stream exit) =
    let (noted, result) = read_within context mode item expected strategy stat stream in
    (noted, exited item exit result)

-- What is wrong with the display path: it does not validate, or its normal form is not the key.
unfoldable pub path_refusal : (ℕ → Text) → IntegritySelectionItem → Option IntegrityDetail
unfolding validate_relative_path normalize_relative_path text_eq
path_refusal upper item = elim (validate_relative_path upper false item.display_path) [
  | err e ↦ some (IntegrityDetail.of_path e)
  | ok canonical ↦ elim (normalize_relative_path upper false canonical) [
    | err e ↦ some (IntegrityDetail.of_path e)
    | ok key ↦ if key == item.rel_path_key then none else some IntegrityDetail.key_mismatch
  ]
]

abbrev pub clashes : IntegrityMode → Option Attestation → Bool
clashes IntegrityMode.baseline known = is_given known
clashes mode known = false

-- The tests before the file is opened, by the state that the inventory has.
unfoldable pub process_present :
    VerifierContext
    → IntegrityMode
    → IntegritySelectionItem
    → Reading
    → ℕ × Result Stop ProcessedItem
unfolding read_item outcome_with
process_present context mode item reading =
    if clashes mode item.baseline
    then (0, ok (unread item IntegrityResult.error IntegrityReason.baseline_exists none))
    else elim item.expected_stat [
      | none ↦ (0, ok (unread item IntegrityResult.error IntegrityReason.stat_changed none))
      | some expected ↦ read_item context mode item expected reading
    ]

-- `_process_item`
unfoldable pub process_item :
    VerifierContext
    → IntegrityMode
    → IntegritySelectionItem
    → Reading
    → ℕ × Result Stop ProcessedItem
unfolding path_refusal process_present outcome_with
process_item context mode item reading = elim (path_refusal context.upper item) [
  | some detail ↦
      (0, ok (unread item IntegrityResult.error IntegrityReason.path_invalid (some detail)))
  | none ↦ elim item.expected_state [
    | InventoryState.missing ↦
        (0, ok (unread item IntegrityResult.missing IntegrityReason.inventory_missing none))
    | InventoryState.unsupported ↦
        (0, ok (unread item IntegrityResult.unsupported IntegrityReason.inventory_unsupported none))
    | InventoryState.present ↦ process_present context mode item reading
  ]
]
