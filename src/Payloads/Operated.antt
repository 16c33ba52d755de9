-- ===== src/Payloads/Operated.antt =====
-- Decoding an operation gives back what was encoded (namisync/workflows/payloads.py).
use nami_sync.Base.{◌≡◌, refl, List, [], ◌∷◌, ℕ, Option, none, some, Result, ok}
use nami_sync.Models.{FileStat}
use nami_sync.Paths.{Text}
use nami_sync.Payloads.{
  JsonValue, PayloadError, json_str, json_text, Casts, or_none, optional, items_of, decode_items,
  as_text,
}
use nami_sync.Payloads.Members.{
  decode_kind-kind_value, decode_reason-reason_value, decode_blocked-blocked_value,
}
use nami_sync.Payloads.Operations.{
  encode_operation, decode_operation, make_operation, blocked_of, encode_blocked, id_of,
}
use nami_sync.Payloads.RoundTrip.{
  IsOptionalStat, or_none-optional, decode_stat-encode_stat, decode_metadata-encode_metadata,
}
use nami_sync.Payloads.Stats.{encode_stat, decode_stat, encode_metadata, decode_metadata}
use nami_sync.Planning.{PlanOperation}

pub decode_items-items_of {ℓ} :
    {A : Type ℓ} (encode : A → JsonValue) (decode : JsonValue → Result PayloadError A)
    → ((a : A) → decode (encode a) ≡ ok a)
    → (list : List A) → decode_items decode (items_of encode list) ≡ ok list
unfolding decode_items items_of
decode_items-items_of encode decode h [] = refl
decode_items-items_of encode decode h (a ∷ list) =
    rw (h a, decode_items-items_of encode decode h list) refl

optional_stat-encode_stat :
    (casts : Casts) (stat : Option FileStat)
    → IsOptionalStat stat
    → or_none (decode_stat casts) (optional encode_stat stat) ≡ ok stat
optional_stat-encode_stat casts none h = refl
optional_stat-encode_stat casts (some stat) h =
    let same = decode_stat-encode_stat casts stat h in unfold encode_stat in rw same refl

-- Decoding an encoded operation gives it back, whatever Python's conversions do with other values,
-- if the constructors take the operation and its stats.
pub decode_operation-encode_operation :
    (upper : ℕ → Text) (casts : Casts) (operation : PlanOperation)
    → make_operation upper operation ≡ ok operation
    → IsOptionalStat operation.source_expected
    → IsOptionalStat operation.target_expected
    → IsOptionalStat operation.intended
    → IsOptionalStat operation.prior_target_expected
    → decode_operation upper casts (encode_operation operation) ≡ ok operation
unfolding decode_operation encode_operation
decode_operation-encode_operation upper casts operation made s t i p =
    let source =
      or_none-optional casts json_text (λ v. ok (as_text casts v)) operation.source_rel_path
        (λ a e. refl) in
    let prior =
      or_none-optional casts json_text (λ v. ok (as_text casts v)) operation.prior_target_rel_path
        (λ a e. refl) in
    let metadata =
      or_none-optional casts encode_metadata (decode_metadata casts) operation.metadata
        (λ a e. unfold encode_metadata in rw (decode_metadata-encode_metadata casts a) refl) in
    let blocked =
      or_none-optional casts encode_blocked (blocked_of upper casts) operation.blocked_reason
        (λ a e. rw (decode_blocked-blocked_value a) refl) in
    let ids =
      decode_items-items_of json_str (id_of upper casts) (λ a. refl) operation.dependencies in
    rw
      (
        metadata,
        source,
        prior,
        blocked,
        ids,
        decode_kind-kind_value,
        decode_reason-reason_value,
        optional_stat-encode_stat casts operation.source_expected s,
        optional_stat-encode_stat casts operation.target_expected t,
        optional_stat-encode_stat casts operation.intended i,
        optional_stat-encode_stat casts operation.prior_target_expected p,
      )
      made
