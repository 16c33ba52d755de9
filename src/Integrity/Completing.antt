-- ===== src/Integrity/Completing.antt =====
-- Each item of an integrity run is completed once (namisync/core/integrity.py).
use nami_sync.Base.{
  ◌≡◌, refl, ◌∙◌, true, not, String, List, [], ◌∷◌, ℕ, suc, ◌+◌, none, some, ◌==◌, ==_sound,
  ==_refl, string_eq, ℤ, pos_part, ok, err, arith, Bool-cases, inl, inr,
}
use nami_sync.Base.Dict.{Dict, get, put, get-put}
use nami_sync.Base.Lists.{any, keep, length}
use nami_sync.Session.{Exn}
use nami_sync.Integrity.{
  IntegritySelectionItem, IntegritySelection, is_pending, pending, completed_count, mark_completed,
}

keep-put :
    (item_id : String) (bytes : ℕ) (completed : Dict String ℕ) (items : List IntegritySelectionItem)
    → keep (is_pending (put item_id bytes completed)) items
      ≡ keep (λ item. not (item.item_id == item_id)) (keep (is_pending completed) items)
keep-put item_id bytes completed [] = refl
keep-put item_id bytes completed (item ∷ items) =
    ground
      (arith, get-put item.item_id item_id bytes completed, keep-put item_id bytes completed items)

length-put :
    (item_id : String) (bytes : ℕ) (completed : Dict String ℕ)
    → get item_id completed ≡ none
    → length (put item_id bytes completed) ≡ suc (length completed)
unfolding get put
length-put item_id bytes [] h = refl
length-put item_id bytes (_ ∷ completed) h = ground (arith, length-put item_id bytes completed)

pub mark_completed-eq :
    (item_id : String) (bytes_read : ℤ) (s s' : IntegritySelection)
    → mark_completed item_id bytes_read s ≡ ok s'
    → (get item_id s.completed_bytes ≡ none)
      × (any (λ item. item.item_id == item_id) s.items ≡ true)
      × (s' ≡ record s { completed_bytes = put item_id (pos_part bytes_read) s.completed_bytes })
unfolding mark_completed
mark_completed-eq item_id bytes_read s s' h = ground arith

any-pending :
    (item_id : String) (completed : Dict String ℕ) (items : List IntegritySelectionItem)
    → get item_id completed ≡ none
    → any (λ item. item.item_id == item_id) items ≡ true
    → any (λ item. item.item_id == item_id) (keep (is_pending completed) items) ≡ true
any-pending item_id completed [] n h = h
any-pending item_id completed (item ∷ items) n h = elim (Bool-cases (item.item_id == item_id)) [
  | inl same ↦
      let waits : is_pending completed item ≡ true =
        rw (==_sound item.item_id item_id same) (rw n refl) in
      rw waits (rw same refl)
  | inr other ↦ ground (arith, any-pending item_id completed items n (ground arith))
]

-- When `mark_completed` succeeds, the item was pending; then exactly its entries leave the pending
-- items, one more item counts as completed, and to mark it again fails.
pub mark_completed_once :
    (item_id : String) (bytes_read again : ℤ) (s s' : IntegritySelection)
    → mark_completed item_id bytes_read s ≡ ok s'
    → (any (λ item. item.item_id == item_id) (pending s) ≡ true)
      × (pending s' ≡ keep (λ item. not (item.item_id == item_id)) (pending s))
      × (completed_count s' ≡ completed_count s + 1)
      × (mark_completed item_id again s' ≡ err (Exn.value_error "integrity item already completed"))
unfolding pending mark_completed
mark_completed_once item_id bytes_read again s s' h =
    let (fresh, known, is) = mark_completed-eq item_id bytes_read s s' h in
    let bytes = pos_part bytes_read in
    let stored : get item_id (put item_id bytes s.completed_bytes) ≡ some bytes =
      get-put item_id item_id bytes s.completed_bytes ∙ rw (==_refl item_id) refl in
    (
      any-pending item_id s.completed_bytes s.items fresh known,
      rw is (keep-put item_id bytes s.completed_bytes s.items),
      rw is (omega (arith, length-put item_id bytes s.completed_bytes fresh)),
      rw is (rw stored refl),
    )
