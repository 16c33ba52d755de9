-- ===== src/Integrity.antt =====
-- The selection of an integrity run and its continuation (namisync/core/integrity.py).
pub mod Completing
pub mod Vocabulary
use nami_sync.Base.{
  has_repeats, pair_eq, map, Bool, true, false, not, ◌&&◌, ◌||◌, String, List, [], ◌∷◌, ℕ, ◌+◌, ◌-◌,
  Option, none, some, Eq, ◌==◌, contains, string_eq, ltb, ℤ, is_negative, pos_part, Result, ok, err,
  raise_if, ◌>>◌,
}
use nami_sync.Base.Dict.{Dict, get, put}
use nami_sync.Base.Lists.{any, keep, length}
use nami_sync.Evidence.{Datetime, is_aware, is_utc}
use nami_sync.Session.Results.{is_empty}
use Vocabulary.{InventoryState, Attestation}
use nami_sync.Models.{EntryKind, FileStat}
use nami_sync.Paths.{Text, text_eq, code_eq}
use nami_sync.Session.{Exn}
use nami_sync.Planning.{is_some}

pub record IntegritySelectionItem : Type 0 where
  pub item_id : String
  pub row_id : String
  pub location_id : String
  pub root : String
  pub rel_path_key : Text
  pub display_path : Text
  pub expected_state : InventoryState
  pub expected_stat : Option FileStat
  pub baseline : Option Attestation
  pub scope_token : String
  pub reappeared_at : Option Datetime

abbrev is_present : InventoryState → Bool
is_present InventoryState.present = true
is_present _ = false

abbrev is_file : EntryKind → Bool
is_file EntryKind.file = true
is_file EntryKind.directory = false

-- The tests of an item's baseline and of the time at which it reappeared.
abbrev check_baseline : Option Attestation → Result Exn (Unit {0})
check_baseline none = ok tt
check_baseline (some baseline) =
    raise_if (not (is_file baseline.subject.kind))
      (Exn.value_error "integrity baselines must attest regular files")
    >> raise_if (not (baseline.content.size == baseline.subject.size))
        (Exn.value_error "baseline content size must match its subject")

abbrev check_reappeared : Option Datetime → Result Exn (Unit {0})
check_reappeared none = ok tt
check_reappeared (some time) =
    raise_if (not (is_aware time)) (Exn.value_error "reappearance time must be timezone-aware")
    >> raise_if (not (is_utc time)) (Exn.value_error "reappearance time must be UTC")

-- `IntegritySelectionItem.__post_init__`
unfoldable pub make_selection_item : IntegritySelectionItem → Result Exn IntegritySelectionItem
unfolding code_eq
make_selection_item item = do
  raise_if (is_empty item.item_id || is_empty item.row_id || is_empty item.location_id)
      (Exn.value_error "integrity selection identifiers must be non-empty")
  raise_if
      (length item.rel_path_key == 0 || length item.display_path == 0 || is_empty item.scope_token)
      (Exn.value_error "integrity selection path and scope must be non-empty")
  raise_if (is_present item.expected_state && not (is_some item.expected_stat))
      (Exn.value_error "present integrity rows require an expected stat")
  raise_if (not (is_present item.expected_state) && is_some item.expected_stat)
      (Exn.value_error "non-present integrity rows cannot carry a current stat")
  check_baseline item.baseline
  check_reappeared item.reappeared_at
  ok item

-- Completed byte counts are natural numbers: `mark_completed` refuses negative ones.
pub record IntegritySelection : Type 0 where
  pub items : List IntegritySelectionItem
  pub completed_bytes : Dict String ℕ
  pub processed_bytes : ℕ

abbrev pub item_ids : List IntegritySelectionItem → List String
item_ids items = map (λ item. item.item_id) items

abbrev row_keys : List IntegritySelectionItem → List (String × String)
row_keys items = map (λ item. (item.location_id, item.row_id)) items

abbrev path_keys : List IntegritySelectionItem → List (String × Text)
path_keys items = map (λ item. (item.location_id, item.rel_path_key)) items

abbrev completed_ids : Dict String ℕ → List String
completed_ids completed = map (λ entry. entry.0) completed

abbrev total_bytes : Dict String ℕ → ℕ
total_bytes [] = 0
total_bytes (entry ∷ completed) = entry.1 + total_bytes completed

-- `IntegritySelection.__post_init__`
unfoldable pub make_selection : IntegritySelection → Result Exn IntegritySelection
unfolding has_repeats pair_eq string_eq text_eq
make_selection selection = do
  raise_if (has_repeats (item_ids selection.items))
      (Exn.value_error "integrity selection item ids must be unique")
  raise_if (has_repeats (row_keys selection.items))
      (Exn.value_error "an inventory row may appear only once per selection")
  raise_if (has_repeats (path_keys selection.items))
      (Exn.value_error "a canonical path may appear only once per location")
  raise_if
      (any (λ id. not (contains (item_ids selection.items) id))
        (completed_ids selection.completed_bytes))
      (Exn.value_error "continuation contains an unknown item id")
  raise_if (ltb selection.processed_bytes (total_bytes selection.completed_bytes))
      (Exn.value_error "processed bytes cannot trail completed bytes")
  ok selection

-- `item.item_id not in self._completed_bytes`
abbrev pub is_pending : Dict String ℕ → IntegritySelectionItem → Bool
is_pending completed item = not (is_some (get item.item_id completed))

-- `pending`
unfoldable pub pending : IntegritySelection → List IntegritySelectionItem
pending selection = keep (is_pending selection.completed_bytes) selection.items

abbrev pub completed_count : IntegritySelection → ℕ
completed_count selection = length selection.completed_bytes

-- `note_bytes_processed`
unfoldable pub note_bytes_processed : ℤ → IntegritySelection → Result Exn IntegritySelection
note_bytes_processed size selection = do
  raise_if (is_negative size) (Exn.value_error "processed byte increment cannot be negative")
  ok (record selection { processed_bytes = selection.processed_bytes + pos_part size })

-- `mark_completed`
unfoldable pub mark_completed : String → ℤ → IntegritySelection → Result Exn IntegritySelection
mark_completed item_id bytes_read selection = do
  raise_if (is_some (get item_id selection.completed_bytes))
      (Exn.value_error "integrity item already completed")
  raise_if (is_negative bytes_read) (Exn.value_error "completed byte count cannot be negative")
  raise_if (not (any (λ item. item.item_id == item_id) selection.items))
      (Exn.value_error "unknown integrity item")
  ok (record selection {
    completed_bytes = put item_id (pos_part bytes_read) selection.completed_bytes;
  })
