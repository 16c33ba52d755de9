-- ===== src/Payloads/Stats.antt =====
-- Volumes, profiles and file stats as JSON (namisync/workflows/payloads.py), and what their
-- constructors refuse (namisync/core/models.py).
use nami_sync.Base.{
  String, string_eq, Option, Result, ok, ◌>>=◌, ◌>>◌, raise_if, ◌||◌, leb, ltb, ◌==◌,
}
use nami_sync.Models.{
  VolumeId, VolumeEvidence, FileIdentity, MetadataSnapshot, FileStat, CapabilityProfile,
}
use nami_sync.Payloads.{
  JsonValue, PayloadError, json_bool, json_str, json_object, no_fields, a_field, Casts, mapping,
  get_field, at_field, or_none, optional, count, as_str, as_bool, as_count, str_at, bool_at,
  count_at,
}
use nami_sync.Payloads.Members.{entry_kind_value, decode_entry_kind}

-- `_volume`
unfoldable pub encode_volume : VolumeId → JsonValue
encode_volume volume = json_object (
    a_field "serial" (json_str volume.serial)
      (a_field "fs_type" (json_str volume.fs_type) no_fields))

-- `_evidence`
unfoldable pub encode_evidence : VolumeEvidence → JsonValue
encode_evidence evidence = json_object (
    a_field "label" (optional json_str evidence.label) (
      a_field "device_id" (optional json_str evidence.device_id)
        (a_field "clone_ambiguous" (json_bool evidence.clone_ambiguous) no_fields)))

-- `_profile`
unfoldable pub encode_profile : CapabilityProfile → JsonValue
encode_profile profile = json_object (
    a_field "fs_type" (json_str profile.fs_type) (
      a_field "mtime_granularity_ns" (count profile.mtime_granularity_ns) (
        a_field "stable_file_identity" (json_bool profile.stable_file_identity) (
          a_field "incurs_seek_penalty" (optional json_bool profile.incurs_seek_penalty) (
            a_field "max_path" (count profile.max_path) (
              a_field "supports_ads" (json_bool profile.supports_ads) (
                a_field "supports_hardlinks" (json_bool profile.supports_hardlinks) no_fields)))))))

unfoldable pub encode_identity : FileIdentity → JsonValue
encode_identity identity = json_object (
    a_field "volume_serial" (json_str identity.volume_serial)
      (a_field "file_index" (count identity.file_index) no_fields))

unfoldable pub encode_metadata : MetadataSnapshot → JsonValue
encode_metadata metadata = json_object (
    a_field "attributes" (count metadata.attributes)
      (a_field "created_ns" (optional count metadata.created_ns) no_fields))

-- `_stat`
unfoldable pub encode_stat : FileStat → JsonValue
unfolding encode_identity encode_metadata entry_kind_value
encode_stat stat = json_object (
    a_field "kind" (json_str (entry_kind_value stat.kind)) (
      a_field "size" (count stat.size) (
        a_field "mtime_ns" (count stat.mtime_ns) (
          a_field "identity" (optional encode_identity stat.file_identity) (
            a_field "nlink" (count stat.nlink)
              (a_field "metadata" (encode_metadata stat.metadata) no_fields))))))

-- `FileIdentity.__post_init__`
unfoldable pub make_identity : FileIdentity → Result PayloadError FileIdentity
unfolding string_eq
make_identity identity =
    raise_if (identity.volume_serial == "") PayloadError.refused_value >> ok identity

-- `VolumeId.__post_init__`
unfoldable pub make_volume : VolumeId → Result PayloadError VolumeId
unfolding string_eq
make_volume volume =
    raise_if (volume.serial == "" || volume.fs_type == "") PayloadError.refused_value >> ok volume

-- `FileStat.__post_init__`
unfoldable pub make_stat : FileStat → Result PayloadError FileStat
make_stat stat = raise_if (ltb stat.nlink 1) PayloadError.refused_value >> ok stat

-- `CapabilityProfile.__post_init__`
unfoldable pub make_profile : CapabilityProfile → Result PayloadError CapabilityProfile
make_profile profile = do
  raise_if (leb profile.mtime_granularity_ns 0) PayloadError.refused_value
  raise_if (leb profile.max_path 0) PayloadError.refused_value
  ok profile

module _ (casts : Casts) where
  -- `_decode_volume`
  unfoldable pub decode_volume : JsonValue → Result PayloadError VolumeId
  unfolding at_field make_volume
  decode_volume v = do
    item ← mapping v
    serial ← str_at casts "serial" item
    fs_type ← str_at casts "fs_type" item
    make_volume (record { serial = serial; fs_type = fs_type })

  -- `_optional_str`
  abbrev pub optional_str : JsonValue → Result PayloadError (Option String)
  optional_str = or_none (λ v. ok (as_str casts v))

  -- `_decode_evidence`
  unfoldable pub decode_evidence : JsonValue → Result PayloadError VolumeEvidence
  unfolding at_field
  decode_evidence v = do
    item ← mapping v
    label ← optional_str (get_field "label" item)
    device_id ← optional_str (get_field "device_id" item)
    clone_ambiguous ← bool_at casts "clone_ambiguous" item
    ok (record { label = label; device_id = device_id; clone_ambiguous = clone_ambiguous })

  -- `_decode_profile`
  unfoldable pub decode_profile : JsonValue → Result PayloadError CapabilityProfile
  unfolding at_field make_profile
  decode_profile v = do
    item ← mapping v
    seek ← or_none (λ w. ok (as_bool casts w)) (get_field "incurs_seek_penalty" item)
    fs_type ← str_at casts "fs_type" item
    granularity ← count_at casts "mtime_granularity_ns" item
    stable ← bool_at casts "stable_file_identity" item
    max_path ← count_at casts "max_path" item
    ads ← bool_at casts "supports_ads" item
    hardlinks ← bool_at casts "supports_hardlinks" item
    make_profile (record {
      fs_type = fs_type;
      mtime_granularity_ns = granularity;
      stable_file_identity = stable;
      incurs_seek_penalty = seek;
      max_path = max_path;
      supports_ads = ads;
      supports_hardlinks = hardlinks;
    })

  unfoldable pub decode_identity : JsonValue → Result PayloadError FileIdentity
  unfolding at_field make_identity
  decode_identity v = do
    item ← mapping v
    serial ← str_at casts "volume_serial" item
    index ← count_at casts "file_index" item
    make_identity (record { volume_serial = serial; file_index = index })

  unfoldable pub decode_metadata : JsonValue → Result PayloadError MetadataSnapshot
  unfolding at_field
  decode_metadata v = do
    item ← mapping v
    attributes ← count_at casts "attributes" item
    created ← or_none (as_count casts) (get_field "created_ns" item)
    ok (record { attributes = attributes; created_ns = created })

  -- `_decode_stat`
  unfoldable pub decode_stat : JsonValue → Result PayloadError FileStat
  unfolding at_field decode_identity decode_metadata make_stat decode_entry_kind
  decode_stat v = do
    item ← mapping v
    identity ← or_none decode_identity (get_field "identity" item)
    raw_metadata ← at_field "metadata" item
    kind_name ← str_at casts "kind" item
    kind ← decode_entry_kind kind_name
    size ← count_at casts "size" item
    mtime ← count_at casts "mtime_ns" item
    nlink ← count_at casts "nlink" item
    metadata ← decode_metadata raw_metadata
    make_stat (record {
      kind = kind;
      size = size;
      mtime_ns = mtime;
      file_identity = identity;
      nlink = nlink;
      metadata = metadata;
    })
