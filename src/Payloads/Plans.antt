-- ===== src/Payloads/Plans.antt =====
-- A plan as JSON (namisync/workflows/payloads.py), and what its constructors refuse
-- (namisync/core/planning.py and models.py).
use nami_sync.Base.{
  Bool, false, not, ◌||◌, String, string_eq, List, [], ◌∷◌, ℕ, Option, none, some, Result, ok, err,
  ◌>>=◌, ◌>>◌, raise_if, ltb, ◌==◌, contains,
}
use nami_sync.Base.Sorting.{sorted, distinct}
use nami_sync.Models.{VolumeId, volume_eq, Root}
use nami_sync.Paths.{Text, codes, code_eq, text_eq, normalize_relative_path}
use nami_sync.Paths.Parts.{texts_leb}
use nami_sync.Payloads.{
  JsonObject, JsonValue, PayloadError, json_bool, json_str, json_text, json_list, json_object,
  no_fields, a_field, Casts, mapping, list, get_field, at_field, or_none, optional, items_of,
  decode_items, count, as_str, str_at, text_at, bool_at, count_at,
}
use nami_sync.Payloads.Members.{deletion_value, decode_deletion}
use nami_sync.Payloads.Operations.{encode_operation, decode_operation}
use nami_sync.Payloads.Requests.{encode_preservation, decode_preservation, make_filters}
use nami_sync.Payloads.Stats.{
  encode_volume, decode_volume, encode_evidence, decode_evidence, encode_profile, decode_profile,
  optional_str,
}
use nami_sync.Planning.{Plan, is_dependency_ordered}
use nami_sync.Policies.{DestinationAssignment, Assignment}

-- A `dict` with these entries.
abbrev pub fields_of : List (String × JsonValue) → JsonObject
fields_of [] = no_fields
fields_of ((key, v) ∷ entries) = a_field key v (fields_of entries)

unfoldable pub encode_root : Root → JsonValue
encode_root root =
    json_object
      (fields_of (("path", json_text root.path) ∷ ("root_id", json_str root.root_id) ∷ []))

unfoldable pub encode_item : DestinationAssignment → JsonValue
encode_item item = json_object (
    fields_of (
      ("source_rel_path", json_text item.source_rel_path)
      ∷ ("source_rel_path_key", json_text item.source_rel_path_key)
      ∷ ("target_rel_path", json_text item.target_rel_path)
      ∷ ("target_rel_path_key", json_text item.target_rel_path_key)
      ∷ ("group_id", optional json_str item.group_id)
      ∷ ("conflict", optional json_str item.conflict)
      ∷ []))

unfoldable pub encode_assignment : Assignment → JsonValue
unfolding items_of encode_item
encode_assignment assignment = json_object (
    fields_of (
      ("policy_name", json_str assignment.policy_name)
      ∷ ("policy_version", json_str assignment.policy_version)
      ∷ ("items", json_list (items_of encode_item assignment.items))
      ∷ []))

-- The order of `VolumeId`: by serial, then by file system.
unfoldable pub volume_leb : VolumeId → VolumeId → Bool
unfolding texts_leb
volume_leb a b =
    texts_leb (codes a.serial ∷ codes a.fs_type ∷ []) (codes b.serial ∷ codes b.fs_type ∷ [])

-- `_plan`
unfoldable pub encode_plan : Plan → JsonValue
unfolding encode_root encode_volume encode_evidence encode_profile items_of encode_operation
    encode_assignment encode_preservation deletion_value sorted volume_leb
encode_plan plan = json_object (
    fields_of (
      ("source_root", encode_root plan.source_root)
      ∷ ("target_root", encode_root plan.target_root)
      ∷ ("source_volume_id", optional encode_volume plan.source_volume_id)
      ∷ ("target_volume_id", optional encode_volume plan.target_volume_id)
      ∷ ("source_volume_evidence", optional encode_evidence plan.source_volume_evidence)
      ∷ ("target_volume_evidence", optional encode_evidence plan.target_volume_evidence)
      ∷ ("source_profile", encode_profile plan.source_profile)
      ∷ ("target_profile", encode_profile plan.target_profile)
      ∷ ("source_complete", json_bool plan.source_complete)
      ∷ ("target_complete", json_bool plan.target_complete)
      ∷ ("operations", json_list (items_of encode_operation plan.operations))
      ∷ ("assignment", encode_assignment plan.assignment)
      ∷ ("preservation", encode_preservation plan.preservation)
      ∷ ("filters", json_list (items_of json_str plan.filter_snapshot.patterns))
      ∷ ("deletion_policy", json_str (deletion_value plan.deletion_policy))
      ∷ ("trash_on_update", json_bool plan.trash_on_update)
      ∷ ("policy_fingerprint", json_str plan.policy_fingerprint)
      ∷ ("worker_count", count plan.worker_count)
      ∷ (
        "required_volumes",
        json_list (items_of encode_volume (sorted volume_leb plan.required_volumes)),
      )
      ∷ ("required_bytes", count plan.required_bytes)
      ∷ ("fingerprint", json_str plan.fingerprint)
      ∷ []))

-- `Root.__post_init__`
unfoldable pub make_root : Root → Result PayloadError Root
unfolding code_eq text_eq string_eq
make_root root = do
  raise_if (root.path == [] || contains root.path 0) PayloadError.refused_value
  raise_if (root.root_id == "") PayloadError.refused_value
  ok root

-- `key != normalize_relative_path(path)`, which may raise
unfoldable pub has_key : (ℕ → Text) → Text → Text → Bool
unfolding normalize_relative_path text_eq
has_key upper key path = elim (normalize_relative_path upper false path) [
  | err e ↦ false
  | ok normal ↦ key == normal
]

-- `DestinationAssignment.__post_init__`
unfoldable pub make_item :
    (ℕ → Text) → DestinationAssignment → Result PayloadError DestinationAssignment
unfolding has_key
make_item upper item = do
  raise_if (not (has_key upper item.source_rel_path_key item.source_rel_path))
      PayloadError.refused_value
  raise_if (not (has_key upper item.target_rel_path_key item.target_rel_path))
      PayloadError.refused_value
  ok item

-- `Plan.__post_init__`
unfoldable pub make_plan : Plan → Result PayloadError Plan
unfolding is_dependency_ordered
make_plan plan = do
  raise_if (ltb plan.worker_count 1) PayloadError.refused_value
  raise_if (not (is_dependency_ordered [] plan.operations)) PayloadError.refused_value
  ok plan

abbrev pub given_volumes : List (Option VolumeId) → List VolumeId
given_volumes [] = []
given_volumes (none ∷ volumes) = given_volumes volumes
given_volumes (some volume ∷ volumes) = volume ∷ given_volumes volumes

-- A `frozenset` by its elements.
unfoldable pub volume_set : List (Option VolumeId) → List VolumeId
unfolding distinct volume_eq
volume_set volumes = distinct (given_volumes volumes)

module _ (upper : ℕ → Text) (casts : Casts) where
  unfoldable pub decode_root : JsonObject → Result PayloadError Root
  unfolding at_field make_root
  decode_root root = do
    path ← text_at casts "path" root
    root_id ← str_at casts "root_id" root
    make_root (record { path = path; root_id = root_id })

  unfoldable pub decode_item : JsonValue → Result PayloadError DestinationAssignment
  unfolding at_field make_item
  decode_item v = do
    item ← mapping v
    source ← text_at casts "source_rel_path" item
    source_key ← text_at casts "source_rel_path_key" item
    target ← text_at casts "target_rel_path" item
    target_key ← text_at casts "target_rel_path_key" item
    group_id ← optional_str casts (get_field "group_id" item)
    conflict ← optional_str casts (get_field "conflict" item)
    make_item upper (record {
      source_rel_path = source;
      source_rel_path_key = source_key;
      target_rel_path = target;
      target_rel_path_key = target_key;
      group_id = group_id;
      conflict = conflict;
    })

  unfoldable pub decode_assignment : JsonObject → Result PayloadError Assignment
  unfolding at_field decode_items decode_item
  decode_assignment assignment = do
    policy_name ← str_at casts "policy_name" assignment
    policy_version ← str_at casts "policy_version" assignment
    raw_items ← at_field "items" assignment
    listed ← list raw_items
    items ← decode_items decode_item listed
    ok (record { policy_name = policy_name; policy_version = policy_version; items = items })

  -- `_decode_plan`
  unfoldable pub decode_plan : JsonValue → Result PayloadError Plan
  unfolding at_field decode_root decode_volume decode_evidence decode_profile decode_items
      decode_operation decode_assignment decode_preservation decode_deletion make_filters volume_set
      make_plan
  decode_plan v = do
    item ← mapping v
    raw_source_root ← at_field "source_root" item
    source_fields ← mapping raw_source_root
    raw_target_root ← at_field "target_root" item
    target_fields ← mapping raw_target_root
    raw_assignment ← at_field "assignment" item
    assignment_fields ← mapping raw_assignment
    raw_preservation ← at_field "preservation" item
    preservation_fields ← mapping raw_preservation
    raw_volumes ← at_field "required_volumes" item
    listed_volumes ← list raw_volumes
    required_volumes ← decode_items (or_none (decode_volume casts)) listed_volumes
    source_root ← decode_root source_fields
    target_root ← decode_root target_fields
    source_volume ← or_none (decode_volume casts) (get_field "source_volume_id" item)
    target_volume ← or_none (decode_volume casts) (get_field "target_volume_id" item)
    source_evidence ← or_none (decode_evidence casts) (get_field "source_volume_evidence" item)
    target_evidence ← or_none (decode_evidence casts) (get_field "target_volume_evidence" item)
    raw_source_profile ← at_field "source_profile" item
    source_profile ← decode_profile casts raw_source_profile
    raw_target_profile ← at_field "target_profile" item
    target_profile ← decode_profile casts raw_target_profile
    source_complete ← bool_at casts "source_complete" item
    target_complete ← bool_at casts "target_complete" item
    raw_operations ← at_field "operations" item
    listed_operations ← list raw_operations
    operations ← decode_items (decode_operation upper casts) listed_operations
    assignment ← decode_assignment assignment_fields
    preservation ← decode_preservation casts raw_preservation
    raw_filters ← at_field "filters" item
    listed_filters ← list raw_filters
    patterns ← decode_items (λ w. ok (as_str casts w)) listed_filters
    deletion_name ← str_at casts "deletion_policy" item
    deletion_policy ← decode_deletion deletion_name
    trash_on_update ← bool_at casts "trash_on_update" item
    policy_fingerprint ← str_at casts "policy_fingerprint" item
    worker_count ← count_at casts "worker_count" item
    required_bytes ← count_at casts "required_bytes" item
    fingerprint ← str_at casts "fingerprint" item
    make_plan (record {
      source_root = source_root;
      target_root = target_root;
      source_volume_id = source_volume;
      target_volume_id = target_volume;
      source_volume_evidence = source_evidence;
      target_volume_evidence = target_evidence;
      source_profile = source_profile;
      target_profile = target_profile;
      source_complete = source_complete;
      target_complete = target_complete;
      operations = operations;
      assignment = assignment;
      preservation = preservation;
      filter_snapshot = make_filters patterns;
      deletion_policy = deletion_policy;
      trash_on_update = trash_on_update;
      policy_fingerprint = policy_fingerprint;
      worker_count = worker_count;
      required_volumes = volume_set required_volumes;
      required_bytes = required_bytes;
      fingerprint = fingerprint;
    })
