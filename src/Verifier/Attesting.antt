-- ===== src/Verifier/Attesting.antt =====
-- What a verified item attests (namisync/modules/verifier.py).
use nami_sync.Base.{
  ◌≡◌, refl, true, not, ◌||◌, String, List, [], ℕ, Option, none, some, Result, ok, err,
  Option-cases, Bool-cases, inl, inr, ◌==◌, sym, ap, ◌∙◌, arith,
}
use nami_sync.Base.Lists.{length}
use nami_sync.Integrity.{IntegritySelectionItem}
use nami_sync.Integrity.Vocabulary.{
  IntegrityResult, IntegrityMode, ReadStrategy, Attestation, RecordDisposition,
  IntegrityRecordCommand,
}
use nami_sync.Models.{FileStat}
use nami_sync.Paths.{text_eq, code_eq}
use nami_sync.Session.{Exn}
use nami_sync.Verifier.{
  ReadError, Stream, Reading, Left, ProcessedItem, read_chunks, matches_expected_stat,
  same_open_subject, outcome_with, read_failed, record_outcome, stopped, raised, finished, failed,
  opened, file_not_found, unsupported_verification, other_error,
}
use nami_sync.Verifier.Processing.{
  VerifierContext, compared, attest, finish_read, read_within, read_item, path_refusal,
  process_present, process_item, attest_command, record_command, attested_result, differs_from,
  hash_differs,
}

-- The reading found the file with the evidence of the baseline: the stat at the start matches the
-- inventory's and the baseline's and is the stat at the end, the bytes are as many as the file has,
-- and their digest is the baseline's.
pub record Confirms (context : VerifierContext) (item : IntegritySelectionItem) (reading : Reading)
    : Type 0 where
  pub known : Attestation
  pub expected : FileStat
  pub strategy : ReadStrategy
  pub before : FileStat
  pub after : FileStat
  pub stream : Stream
  pub bytes : List ℕ
  pub has_baseline : item.baseline ≡ some known
  pub has_stat : item.expected_stat ≡ some expected
  pub was_opened : reading ≡ opened strategy (ok before) stream none
  pub was_read : read_chunks [] stream ≡ (bytes, finished after)
  pub as_inventoried : matches_expected_stat expected before ≡ true
  pub as_attested : matches_expected_stat known.subject before ≡ true
  pub unchanged : same_open_subject before after ≡ true
  pub complete : (length bytes == before.size) ≡ true
  pub same_digest : (context.sha256 bytes == known.content.digest) ≡ true

read_failed_result :
    (item : IntegritySelectionItem) (e : ReadError)
    → (read_failed item e).outcome.result ≡ IntegrityResult.verified
    → ⊥
unfolding read_failed outcome_with
read_failed_result item (file_not_found d) h = ground arith
read_failed_result item (unsupported_verification d) h = ground arith
read_failed_result item (other_error d) h = ground arith

record_outcome_result :
    (item : IntegritySelectionItem) (result : IntegrityResult) (strategy : ReadStrategy) (n : ℕ)
    (answer : Result String RecordDisposition)
    → (record_outcome item result strategy n answer).outcome.result ≡ result
unfolding record_outcome outcome_with
record_outcome_result item result strategy n (err detail) = refl
record_outcome_result item result strategy n (ok RecordDisposition.applied) = refl
record_outcome_result item result strategy n (ok RecordDisposition.noop) = refl
record_outcome_result item result strategy n (ok RecordDisposition.stale) = refl
record_outcome_result item result strategy n (ok RecordDisposition.conflict) = refl

record_command_result :
    (context : VerifierContext) (item : IntegritySelectionItem) (result : IntegrityResult)
    (strategy : ReadStrategy) (n : ℕ) (made : Result Exn IntegrityRecordCommand)
    → (record_command context item result strategy n made).outcome.result ≡ IntegrityResult.verified
    → result ≡ IntegrityResult.verified
unfolding record_command
record_command_result context item result strategy n (err e) h = absurd (ground arith)
record_command_result context item result strategy n (ok command) h =
    sym (record_outcome_result item result strategy n (context.record_integrity command)) ∙ h

attested_result-verified :
    (known : Option Attestation)
    → attested_result known ≡ IntegrityResult.verified
    → (attestation : Attestation) × (known ≡ some attestation)
attested_result-verified none h = absurd (ground arith)
attested_result-verified (some attestation) h = (attestation, refl)

attest-compared :
    (context : VerifierContext) (mode : IntegrityMode) (item : IntegritySelectionItem)
    (strategy : ReadStrategy) (expected after : FileStat) (bytes : List ℕ)
    → (attest context mode item strategy expected after bytes).outcome.result
      ≡ IntegrityResult.verified
    → (known : Attestation) × (compared mode item ≡ some known)
unfolding attest
attest-compared context mode item strategy expected after bytes h =
    attested_result-verified (compared mode item) (
      record_command_result context item _ strategy (length bytes)
        (attest_command context mode item expected after bytes) h)

compared-baseline :
    (mode : IntegrityMode) (item : IntegritySelectionItem) (known : Attestation)
    → compared mode item ≡ some known
    → item.baseline ≡ some known
compared-baseline IntegrityMode.verify item known h = h
compared-baseline IntegrityMode.baseline item known h = ground arith
compared-baseline IntegrityMode.rebaseline item known h = ground arith

finish_read-finished :
    (context : VerifierContext) (mode : IntegrityMode) (item : IntegritySelectionItem)
    (strategy : ReadStrategy) (expected before : FileStat) (bytes : List ℕ) (left : Left)
    (processed : ProcessedItem)
    → finish_read context mode item strategy expected before bytes left ≡ ok processed
    → processed.outcome.result ≡ IntegrityResult.verified
    → (known : Attestation) × (after : FileStat) × (left ≡ finished after)
      × (compared mode item ≡ some known)
      × (same_open_subject before after ≡ true)
      × ((length bytes == before.size) ≡ true)
      × ((context.sha256 bytes == known.content.digest) ≡ true)
unfolding finish_read outcome_with
finish_read-finished context mode item strategy expected before bytes (stopped stop) processed e v =
    absurd (ground arith)
finish_read-finished context mode item strategy expected before bytes (raised why) processed e v =
    absurd (read_failed_result item why (ground arith))
finish_read-finished context mode item strategy expected before bytes (finished after) processed e
      v =
    elim (Bool-cases (same_open_subject before after)) [
      | inr drifted ↦ absurd (ground arith)
      | inl kept ↦ elim (Bool-cases (length bytes == before.size)) [
        | inr short ↦ absurd (ground arith)
        | inl whole ↦ elim (Bool-cases (hash_differs (compared mode item) (context.sha256 bytes))) [
          | inl differs ↦ absurd (ground arith)
          | inr same ↦
              let attested : attest context mode item strategy expected after bytes ≡ processed =
                ground arith in
              let (known, k) =
                attest-compared context mode item strategy expected after bytes (rw attested v) in
              (known, after, refl, k, kept, whole, ground arith)
        ]
      ]
    ]

read_within-Confirms :
    (context : VerifierContext) (mode : IntegrityMode) (item : IntegritySelectionItem)
    (expected : FileStat) (strategy : ReadStrategy) (stat : Result ReadError FileStat)
    (stream : Stream) (processed : ProcessedItem)
    → item.expected_stat ≡ some expected
    → (read_within context mode item expected strategy stat stream).1 ≡ ok processed
    → processed.outcome.result ≡ IntegrityResult.verified
    → Confirms context item (opened strategy stat stream none)
unfolding read_within outcome_with
read_within-Confirms context mode item expected strategy (err why) stream processed s e v =
    absurd (read_failed_result item why (ground arith))
read_within-Confirms context mode item expected strategy (ok before) stream processed s e v =
    elim (Bool-cases
      (not (matches_expected_stat expected before) || differs_from (compared mode item) before)) [
        | inl changed ↦ absurd (ground arith)
        | inr unchanged ↦
            let bytes = (read_chunks [] stream).0 in
            let left = (read_chunks [] stream).1 in
            let settled : finish_read context mode item strategy expected before bytes left
                ≡ ok processed =
              ground arith in
            let (known, after, l, k, kept, whole, digest) =
              finish_read-finished context mode item strategy expected before bytes left processed
                settled v in
            record {
              known = known;
              expected = expected;
              strategy = strategy;
              before = before;
              after = after;
              stream = stream;
              bytes = bytes;
              has_baseline = compared-baseline mode item known k;
              has_stat = s;
              was_opened = refl;
              was_read = ap (λ end. (bytes, end)) l;
              as_inventoried = ground arith;
              as_attested = ground arith;
              unchanged = kept;
              complete = whole;
              same_digest = digest;
            }
      ]

read_item-Confirms :
    (context : VerifierContext) (mode : IntegrityMode) (item : IntegritySelectionItem)
    (expected : FileStat) (reading : Reading) (processed : ProcessedItem)
    → item.expected_stat ≡ some expected
    → (read_item context mode item expected reading).1 ≡ ok processed
    → processed.outcome.result ≡ IntegrityResult.verified
    → Confirms context item reading
unfolding read_item
read_item-Confirms context mode item expected (failed why) processed s e v =
    absurd (read_failed_result item why (ground arith))
read_item-Confirms context mode item expected (opened strategy stat stream (some why)) processed s e
      v =
    absurd (read_failed_result item why (ground arith))
read_item-Confirms context mode item expected (opened strategy stat stream none) processed s e v =
    read_within-Confirms context mode item expected strategy stat stream processed s e v

-- If an item is classified as verified, then it has a baseline and the file confirms it: the stat
-- when it was opened matches the inventory's and the baseline's and was the same after the read, as
-- many bytes were read as the file has, their digest is the baseline's, and closing it raised
-- nothing.
pub process_item-Confirms :
    (context : VerifierContext) (mode : IntegrityMode) (item : IntegritySelectionItem)
    (reading : Reading) (processed : ProcessedItem)
    → (process_item context mode item reading).1 ≡ ok processed
    → processed.outcome.result ≡ IntegrityResult.verified
    → Confirms context item reading
unfolding process_item process_present outcome_with
process_item-Confirms context mode item reading processed e v =
    elim (Option-cases (path_refusal context.upper item)) [
      | inr (detail, refused) ↦ absurd (ground arith)
      | inl valid ↦ elim (Option-cases item.expected_stat) [
        | inl absent ↦ absurd (ground arith)
        | inr (expected, s) ↦
            read_item-Confirms context mode item expected reading processed s (ground arith) v
      ]
    ]
