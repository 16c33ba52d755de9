-- ===== src/Examples/Integrities.antt =====
-- An integrity run at concrete inputs (namisync/core/integrity.py).
use nami_sync.Integrity.Vocabulary.{InventoryState}
use nami_sync.Models.{EntryKind}
use nami_sync.Paths.{codes}
use nami_sync.Base.{some, none, ◌≡◌, refl, true, not, [], ◌∷◌, ◌+◌, ok, err, pos, string_eq, ◌==◌}
use nami_sync.Base.Dict.{get, put}
use nami_sync.Base.Lists.{any, keep}
use nami_sync.Session.{Exn}
use nami_sync.Integrity.{
  IntegritySelectionItem, IntegritySelection, pending, completed_count, mark_completed,
}
use nami_sync.Integrity.Completing.{mark_completed_once}

abbrev row : nami_sync.Base.String → IntegritySelectionItem
row id = record {
  item_id = id;
  row_id = id;
  location_id = "here";
  root = "r";
  rel_path_key = codes id;
  display_path = codes id;
  expected_state = InventoryState.present;
  expected_stat = some (record {
    kind = EntryKind.file;
    size = 2;
    mtime_ns = 5;
    file_identity = none;
    nlink = 1;
    metadata = record { attributes = 32; created_ns = none };
  });
  baseline = none;
  scope_token = "s";
  reappeared_at = none;
}

abbrev begun : IntegritySelection
begun = record {
  items = row "1" ∷ row "2" ∷ [];
  completed_bytes = ("2", 7) ∷ [];
  processed_bytes = 9;
}

abbrev done : IntegritySelection
done = record {
  items = row "1" ∷ row "2" ∷ [];
  completed_bytes = ("2", 7) ∷ ("1", 5) ∷ [];
  processed_bytes = 9;
}

mark_completed_once_example :
    (any (λ item. item.item_id == "1") (pending begun) ≡ true)
    × (pending done ≡ keep (λ item. not (item.item_id == "1")) (pending begun))
    × (completed_count done ≡ completed_count begun + 1)
    × (mark_completed "1" (pos 5) done ≡ err (Exn.value_error "integrity item already completed"))
unfolding mark_completed get put string_eq
mark_completed_once_example = mark_completed_once "1" (pos 5) (pos 5) begun done refl
