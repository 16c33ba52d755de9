-- ===== src/Payloads/Operations.antt =====
-- The operations of a plan as JSON (namisync/workflows/payloads.py), and what the constructor refuses
-- (namisync/core/planning.py).
use nami_sync.Base.{
  has_repeats, Bool, true, false, not, ◌&&◌, String, string_eq, ℕ, Option, none, some, Result, ok,
  err, ◌>>=◌, ◌>>◌, raise_if, ◌==◌, contains,
}
use nami_sync.Base.Lists.{all, length}
use nami_sync.Paths.{Text, PathError, codes, code_eq, validate_relative_path}
use nami_sync.Payloads.{
  JsonValue, PayloadError, json_str, json_text, json_list, json_object, no_fields, a_field, Casts,
  mapping, list, get_field, at_field, or_none, optional, items_of, decode_items, count, as_str,
  as_text, str_at, text_at, count_at,
}
use nami_sync.Payloads.Members.{
  kind_value, decode_kind, reason_value, decode_reason, blocked_value, decode_blocked,
}
use nami_sync.Payloads.Stats.{encode_stat, decode_stat, encode_metadata, decode_metadata}
use nami_sync.Planning.{BlockedReason, PlanOperation}

abbrev pub encode_blocked : BlockedReason → JsonValue
encode_blocked reason = json_str (blocked_value reason)

-- `_operation`
unfoldable pub encode_operation : PlanOperation → JsonValue
unfolding encode_stat encode_metadata kind_value reason_value blocked_value items_of
encode_operation operation = json_object (
    a_field "op_id" (json_str operation.op_id) (
      a_field "kind" (json_str (kind_value operation.kind)) (
        a_field "source_rel_path" (optional json_text operation.source_rel_path) (
          a_field "target_rel_path" (json_text operation.target_rel_path) (
            a_field "source_expected" (optional encode_stat operation.source_expected) (
              a_field "target_expected" (optional encode_stat operation.target_expected) (
                a_field "intended" (optional encode_stat operation.intended) (
                  a_field "prior_target_rel_path"
                    (optional json_text operation.prior_target_rel_path)
                    (a_field "prior_target_expected"
                      (optional encode_stat operation.prior_target_expected)
                      (a_field "metadata" (optional encode_metadata operation.metadata) (
                        a_field "content_bytes" (count operation.content_bytes) (
                          a_field "dependencies"
                            (json_list (items_of json_str operation.dependencies))
                            (a_field "reason" (json_str (reason_value operation.reason)) (
                              a_field "blocked_reason"
                                (optional encode_blocked operation.blocked_reason)
                                no_fields))))))))))))))

-- `re_fullmatch_op_id`
unfoldable pub is_operation_id : String → Bool
unfolding code_eq
is_operation_id id =
    let characters = codes id in
    length characters == 32 && all (contains (codes "0123456789abcdef")) characters

abbrev accepts : Result PathError Text → Bool
accepts (ok path) = true
accepts (err e) = false

abbrev accepts_optional : (ℕ → Text) → Option Text → Bool
accepts_optional upper none = true
accepts_optional upper (some path) = accepts (validate_relative_path upper false path)

-- `PlanOperation.__post_init__`
unfoldable pub make_operation : (ℕ → Text) → PlanOperation → Result PayloadError PlanOperation
unfolding is_operation_id validate_relative_path has_repeats string_eq
make_operation upper operation = do
  raise_if (not (is_operation_id operation.op_id)) PayloadError.refused_value
  raise_if (not (accepts_optional upper operation.source_rel_path)) PayloadError.refused_value
  raise_if (not (accepts_optional upper (some operation.target_rel_path)))
      PayloadError.refused_value
  raise_if (not (accepts_optional upper operation.prior_target_rel_path)) PayloadError.refused_value
  raise_if (has_repeats operation.dependencies) PayloadError.refused_value
  ok operation

module _ (upper : ℕ → Text) (casts : Casts) where
  abbrev pub optional_text : JsonValue → Result PayloadError (Option Text)
  optional_text = or_none (λ v. ok (as_text casts v))

  abbrev pub blocked_of : JsonValue → Result PayloadError BlockedReason
  blocked_of v = decode_blocked (as_str casts v)

  abbrev pub id_of : JsonValue → Result PayloadError String
  id_of v = ok (as_str casts v)

  -- `_decode_operation`
  unfoldable pub decode_operation : JsonValue → Result PayloadError PlanOperation
  unfolding at_field decode_stat decode_metadata decode_kind decode_reason decode_blocked
      decode_items make_operation
  decode_operation v = do
    item ← mapping v
    metadata ← or_none (decode_metadata casts) (get_field "metadata" item)
    op_id ← str_at casts "op_id" item
    kind_name ← str_at casts "kind" item
    kind ← decode_kind kind_name
    source ← optional_text (get_field "source_rel_path" item)
    target ← text_at casts "target_rel_path" item
    source_expected ← or_none (decode_stat casts) (get_field "source_expected" item)
    target_expected ← or_none (decode_stat casts) (get_field "target_expected" item)
    intended ← or_none (decode_stat casts) (get_field "intended" item)
    prior ← optional_text (get_field "prior_target_rel_path" item)
    prior_expected ← or_none (decode_stat casts) (get_field "prior_target_expected" item)
    content_bytes ← count_at casts "content_bytes" item
    raw_dependencies ← at_field "dependencies" item
    dependency_items ← list raw_dependencies
    dependencies ← decode_items id_of dependency_items
    reason_name ← str_at casts "reason" item
    reason ← decode_reason reason_name
    blocked ← or_none blocked_of (get_field "blocked_reason" item)
    make_operation upper (record {
      op_id = op_id;
      kind = kind;
      source_rel_path = source;
      target_rel_path = target;
      source_expected = source_expected;
      target_expected = target_expected;
      intended = intended;
      prior_target_rel_path = prior;
      prior_target_expected = prior_expected;
      metadata = metadata;
      content_bytes = content_bytes;
      dependencies = dependencies;
      reason = reason;
      blocked_reason = blocked;
    })
