-- ===== src/Payloads/Requests.antt =====
-- Requests for a plan as payloads (namisync/workflows/payloads.py), by their JSON values: `json.dumps`
-- and `json.loads` at either end are left out.
use Prim.Native.Char.{Char, code}
use nami_sync.Base.{
  Bool, true, false, not, String, string_eq, List, map, ℕ, Result, ok, err, ◌>>=◌, ◌>>◌, raise_if,
  if◌then◌else◌, ◌==◌, pos,
}
use nami_sync.Base.Sorting.{sorted, distinct}
use nami_sync.Paths.{code_eq}
use nami_sync.Payloads.{
  JsonValue, PayloadError, json_bool, json_int, json_str, json_list, json_object, JsonObject,
  no_fields, a_field, Casts, mapping, list, get_field, at_field, items_of, decode_items, count,
  as_str, str_at, bool_at, count_at,
}
use nami_sync.Payloads.Members.{deletion_value, decode_deletion}
use nami_sync.Planner.Cleanup.{string_leb}
use nami_sync.Planning.{FilterSet}
use nami_sync.Planning.Options.{DestinationPolicy, SyncOptions, OptionsError, make_options}
use nami_sync.Policies.{PreservationPolicy}

pub record PlanRequest : Type 0 where
  pub request_id : String
  pub source_path : String
  pub target_path : String
  pub options : SyncOptions

abbrev pub payload_version : ℕ
payload_version = 1

unfoldable pub encode_preservation : PreservationPolicy → JsonValue
encode_preservation policy = json_object (
    a_field "preserve_ads" (json_bool policy.preserve_ads) (
      a_field "preserve_created" (json_bool policy.preserve_created)
        (a_field "preserve_acl" (json_bool policy.preserve_acl) no_fields)))

unfoldable pub encode_options : SyncOptions → JsonValue
unfolding encode_preservation deletion_value items_of
encode_options options = json_object (
    a_field "deletion_policy" (json_str (deletion_value options.deletion_policy)) (
      a_field "preservation" (encode_preservation options.preservation) (
        a_field "filters" (json_list (items_of json_str options.filters.patterns)) (
          a_field "worker_count" (count options.worker_count) (
            a_field "trash_on_update" (json_bool options.trash_on_update) (
              a_field "propagate_source_casing" (json_bool options.propagate_source_casing) (
                a_field "internal_mirror_authorized" (json_bool options.internal_mirror_authorized)
                  no_fields)))))))

abbrev pub is_identity : DestinationPolicy → Bool
is_identity (DestinationPolicy.identity name version) = true
is_identity (DestinationPolicy.other name version assign) = false

-- `encode_plan_request`
unfoldable pub encode_plan_request : PlanRequest → Result PayloadError JsonValue
unfolding encode_options
encode_plan_request request = do
  raise_if (not (is_identity request.options.destination_policy)) PayloadError.unsupported_policy
  ok (
      json_object (
        a_field "schema_version" (count payload_version) (
          a_field "kind" (json_str "plan") (
            a_field "request_id" (json_str request.request_id) (
              a_field "source_path" (json_str request.source_path) (
                a_field "target_path" (json_str request.target_path)
                  (a_field "options" (encode_options request.options) no_fields)))))))

-- `value == 1`, which `True` passes too
unfoldable pub is_schema_version : JsonValue → Bool
unfolding code_eq
is_schema_version (json_int (pos n)) = n == payload_version
is_schema_version (json_bool b) = b
is_schema_version _ = false

unfoldable pub is_kind : String → JsonValue → Bool
unfolding string_eq
is_kind expected (json_str s) = s == expected
is_kind expected _ = false

-- `_payload`
unfoldable pub payload_item : String → JsonValue → Result PayloadError JsonObject
unfolding get_field is_schema_version is_kind
payload_item expected v = do
  item ← mapping v
  raise_if (not (is_schema_version (get_field "schema_version" item)))
      PayloadError.unsupported_schema
  raise_if (not (is_kind expected (get_field "kind" item))) PayloadError.wrong_kind
  ok item

abbrev backslash_char : Char
backslash_char = "\\"

-- `pattern.replace("/", "\\")`
unfoldable pub with_backslashes : String → String
unfolding code_eq
with_backslashes String.[] = String.[]
with_backslashes (String.◌∷◌ c s) =
    String.◌∷◌ (if code c == b'/' then backslash_char else c) (with_backslashes s)

-- `FilterSet.__post_init__`
unfoldable pub make_filters : List String → FilterSet
unfolding sorted distinct string_leb with_backslashes string_eq
make_filters patterns = record {
  patterns = sorted string_leb (distinct (map with_backslashes patterns));
}

abbrev accepted_options : Result OptionsError SyncOptions → Result PayloadError SyncOptions
accepted_options (ok options) = ok options
accepted_options (err e) = err PayloadError.refused_value

module _ (casts : Casts) where
  unfoldable pub decode_preservation : JsonValue → Result PayloadError PreservationPolicy
  unfolding at_field
  decode_preservation v = do
    item ← mapping v
    ads ← bool_at casts "preserve_ads" item
    created ← bool_at casts "preserve_created" item
    acl ← bool_at casts "preserve_acl" item
    ok (record { preserve_ads = ads; preserve_created = created; preserve_acl = acl })

  unfoldable pub decode_options : JsonValue → Result PayloadError SyncOptions
  unfolding at_field decode_preservation decode_deletion decode_items make_filters make_options
  decode_options v = do
    options ← mapping v
    raw_preservation ← at_field "preservation" options
    policy_value ← str_at casts "deletion_policy" options
    deletion ← decode_deletion policy_value
    preservation ← decode_preservation raw_preservation
    raw_filters ← at_field "filters" options
    filter_items ← list raw_filters
    patterns ← decode_items (λ w. ok (as_str casts w)) filter_items
    worker_count ← count_at casts "worker_count" options
    trash_on_update ← bool_at casts "trash_on_update" options
    propagates ← bool_at casts "propagate_source_casing" options
    authorized ← bool_at casts "internal_mirror_authorized" options
    accepted_options (
        make_options (record {
          deletion_policy = deletion;
          preservation = preservation;
          filters = make_filters patterns;
          destination_policy = DestinationPolicy.identity "identity" "1";
          worker_count = worker_count;
          trash_on_update = trash_on_update;
          propagate_source_casing = propagates;
          internal_mirror_authorized = authorized;
        }))

  -- `decode_plan_request`
  unfoldable pub decode_plan_request : JsonValue → Result PayloadError PlanRequest
  unfolding payload_item at_field decode_options
  decode_plan_request v = do
    item ← payload_item "plan" v
    raw_options ← at_field "options" item
    request_id ← str_at casts "request_id" item
    source_path ← str_at casts "source_path" item
    target_path ← str_at casts "target_path" item
    options ← decode_options raw_options
    ok (record {
      request_id = request_id;
      source_path = source_path;
      target_path = target_path;
      options = options;
    })
