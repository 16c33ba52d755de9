-- ===== src/Verifier/Settling.antt =====
-- What a run of the verifier leaves settled (namisync/modules/verifier.py).
use nami_sync.Base.{
  ◌≡◌, refl, ap, ◌∙◌, true, false, not, String, string_eq, List, [], ◌∷◌, ◌++◌, map, ℕ, none, some,
  ◌⊎◌, Result, ok, err, Option-cases, Bool-cases, inl, inr, ◌==◌, arith, pos,
}
use nami_sync.Base.Dict.{Dict, get, put}
use nami_sync.Base.Lists.{length, All, keep, any}
use nami_sync.Integrity.{
  IntegritySelectionItem, IntegritySelection, is_pending, pending, mark_completed,
}
use nami_sync.Integrity.Vocabulary.{
  InventoryState, IntegrityResult, IntegrityMode, IntegrityOutcome, IntegrityRecordCommand,
  ReadStrategy,
}
use nami_sync.Integrity.Completing.{mark_completed_once}
use nami_sync.Models.{FileStat}
use nami_sync.Paths.{text_eq, code_eq}
use nami_sync.Session.{Exn}
use nami_sync.Verifier.Running.{Progressed, emit_and_complete}
use nami_sync.Verifier.{
  Stop, ReadError, Stream, Reading, Left, ProcessedItem, read_chunks, outcome_with, read_failed,
  record_outcome, stopped, raised, finished, failed, opened, file_not_found,
  unsupported_verification, other_error,
}
use nami_sync.Verifier.Processing.{
  VerifierContext, compared, attest, finish_read, read_within, read_item, process_present,
  process_item, clashes, path_refusal, attest_command, record_command, attested_result,
}

abbrev pub IsOf : IntegritySelectionItem → Result Stop ProcessedItem → Type 0
IsOf item (ok processed) = processed.outcome.item_id ≡ item.item_id
IsOf item (err stop) = Unit

read_failed-IsOf :
    (item : IntegritySelectionItem) (e : ReadError) → IsOf item (ok (read_failed item e))
unfolding read_failed outcome_with
read_failed-IsOf item (file_not_found d) = refl
read_failed-IsOf item (unsupported_verification d) = refl
read_failed-IsOf item (other_error d) = refl

record_command-IsOf :
    (context : VerifierContext) (item : IntegritySelectionItem) (result : IntegrityResult)
    (strategy : ReadStrategy) (n : ℕ) (made : Result Exn IntegrityRecordCommand)
    → IsOf item (ok (record_command context item result strategy n made))
unfolding record_command record_outcome outcome_with
record_command-IsOf context item result strategy n (err e) = refl
record_command-IsOf context item result strategy n (ok command) = ground arith

finish_read-IsOf :
    (context : VerifierContext) (mode : IntegrityMode) (item : IntegritySelectionItem)
    (strategy : ReadStrategy) (expected before : FileStat) (bytes : List ℕ) (left : Left)
    → IsOf item (finish_read context mode item strategy expected before bytes left)
unfolding finish_read attest outcome_with
finish_read-IsOf context mode item strategy expected before bytes (stopped stop) = tt
finish_read-IsOf context mode item strategy expected before bytes (raised e) =
    read_failed-IsOf item e
finish_read-IsOf context mode item strategy expected before bytes (finished after) = ground (
  arith,
  record_command-IsOf context item (attested_result (compared mode item)) strategy (length bytes)
      (attest_command context mode item expected after bytes),
)

read_within-IsOf :
    (context : VerifierContext) (mode : IntegrityMode) (item : IntegritySelectionItem)
    (expected : FileStat) (strategy : ReadStrategy) (stat : Result ReadError FileStat)
    (stream : Stream)
    → IsOf item (read_within context mode item expected strategy stat stream).1
unfolding read_within outcome_with
read_within-IsOf context mode item expected strategy (err e) stream = read_failed-IsOf item e
read_within-IsOf context mode item expected strategy (ok before) stream = ground (
  arith,
  finish_read-IsOf context mode item strategy expected before (read_chunks [] stream).0
      (read_chunks [] stream).1,
)

read_item-IsOf :
    (context : VerifierContext) (mode : IntegrityMode) (item : IntegritySelectionItem)
    (expected : FileStat) (reading : Reading)
    → IsOf item (read_item context mode item expected reading).1
unfolding read_item outcome_with
read_item-IsOf context mode item expected (failed e) = read_failed-IsOf item e
read_item-IsOf context mode item expected (opened strategy stat stream (some e)) =
    read_failed-IsOf item e
read_item-IsOf context mode item expected (opened strategy stat stream none) =
    read_within-IsOf context mode item expected strategy stat stream

process_present-IsOf :
    (context : VerifierContext) (mode : IntegrityMode) (item : IntegritySelectionItem)
    (reading : Reading)
    → IsOf item (process_present context mode item reading).1
unfolding process_present outcome_with
process_present-IsOf context mode item reading = elim (Bool-cases (clashes mode item.baseline)) [
  | inl c ↦ rw (c, process_present) refl
  | inr c ↦ elim (Option-cases item.expected_stat) [
    | inl absent ↦ rw (c, process_present) (rw absent refl)
    | inr (expected, s) ↦
        rw (c, process_present) (rw s (read_item-IsOf context mode item expected reading))
  ]
]

state_cases :
    (state : InventoryState)
    → (state ≡ InventoryState.missing)
      ⊎ ((state ≡ InventoryState.unsupported) ⊎ (state ≡ InventoryState.present))
state_cases InventoryState.missing = inl refl
state_cases InventoryState.unsupported = inr (inl refl)
state_cases InventoryState.present = inr (inr refl)

-- Whatever is met, an item's outcome is its own.
pub process_item-IsOf :
    (context : VerifierContext) (mode : IntegrityMode) (item : IntegritySelectionItem)
    (reading : Reading)
    → IsOf item (process_item context mode item reading).1
unfolding process_item outcome_with
process_item-IsOf context mode item reading =
    elim (Option-cases (path_refusal context.upper item)) [
      | inr (detail, refused) ↦ rw (refused, process_item) refl
      | inl valid ↦ elim (state_cases item.expected_state) [
        | inl missing ↦ rw (valid, process_item) (rw missing refl)
        | inr (inl unsupported) ↦ rw (valid, process_item) (rw unsupported refl)
        | inr (inr present) ↦
            rw (valid, process_item) (rw present (process_present-IsOf context mode item reading))
      ]
    ]

-- No two items have the same id, as the constructor of a selection requires.
abbrev pub AreDistinct : List IntegritySelectionItem → Type 0
AreDistinct [] = Unit
AreDistinct (item ∷ items) =
    All (λ other. (other.item_id == item.item_id) ≡ false) items × AreDistinct items

keep-head :
    (completed : Dict String ℕ) (items rest : List IntegritySelectionItem)
    (item : IntegritySelectionItem)
    → keep (is_pending completed) items ≡ item ∷ rest
    → (is_pending completed item ≡ true)
      × (any (λ other. other.item_id == item.item_id) items ≡ true)
keep-head completed [] rest item h = absurd (ground arith)
keep-head completed (other ∷ items) rest item h = elim (Bool-cases (is_pending completed other)) [
  | inl waits ↦ ground arith
  | inr settled ↦ ground (arith, keep-head completed items rest item)
]

keep-distinct :
    (item : IntegritySelectionItem) (items : List IntegritySelectionItem)
    → All (λ other. (other.item_id == item.item_id) ≡ false) items
    → keep (λ other. not (other.item_id == item.item_id)) items ≡ items
keep-distinct item [] h = refl
keep-distinct item (other ∷ items) h = ground (arith, keep-distinct item items h.1)

-- Completing the first pending item leaves the others pending.
mark_completed-pending :
    (item : IntegritySelectionItem) (rest : List IntegritySelectionItem) (n : ℕ)
    (selection : IntegritySelection)
    → pending selection ≡ item ∷ rest
    → AreDistinct (item ∷ rest)
    → (after : IntegritySelection) × (mark_completed item.item_id (pos n) selection ≡ ok after)
      × (pending after ≡ rest)
unfolding pending mark_completed
mark_completed-pending item rest n selection p d =
    let (waits, known) = keep-head selection.completed_bytes selection.items rest item p in
    let fresh : get item.item_id selection.completed_bytes ≡ none = ground arith in
    let marked : mark_completed item.item_id (pos n) selection
        ≡ ok (record selection { completed_bytes = put item.item_id n selection.completed_bytes }) =
      ground arith in
    let (_, left, _, _) = mark_completed_once item.item_id (pos n) (pos n) selection _ marked in
    (_, marked, left ∙ rw p (ground (arith, keep-distinct item rest d.0)))

abbrev pub outcome_ids : List IntegrityOutcome → List String
outcome_ids outcomes = map (λ outcome. outcome.item_id) outcomes

pub outcome_ids-append :
    (outcomes : List IntegrityOutcome) (outcome : IntegrityOutcome) (ids : List String)
    → outcome_ids (outcomes ++ outcome ∷ []) ++ ids
      ≡ outcome_ids outcomes ++ (outcome.item_id ∷ ids)
outcome_ids-append [] outcome ids = refl
outcome_ids-append (x ∷ outcomes) outcome ids =
    ap (λ rest. x.item_id ∷ rest) (outcome_ids-append outcomes outcome ids)

pub emit_and_complete_ok :
    (item : IntegritySelectionItem) (rest : List IntegritySelectionItem) (processed : ProcessedItem)
    (progressed : Progressed)
    → processed.outcome.item_id ≡ item.item_id
    → pending progressed.selection ≡ item ∷ rest
    → AreDistinct (item ∷ rest)
    → (after : Progressed) × (emit_and_complete processed progressed ≡ ok after)
      × (pending after.selection ≡ rest)
      × (after.emitted ≡ progressed.emitted ++ processed.outcome ∷ [])
unfolding emit_and_complete
emit_and_complete_ok item rest processed progressed i p d =
    let (after, marked, left) =
      mark_completed-pending item rest processed.bytes_read progressed.selection p d in
    (
      record { selection = after; emitted = progressed.emitted ++ processed.outcome ∷ [] },
      rw (i, marked) refl,
      left,
      refl,
    )
