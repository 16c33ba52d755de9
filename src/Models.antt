-- ===== src/Models.antt =====
-- Filesystem observations (namisync/core/models.py). Counts and sizes are natural numbers: the
-- constructors refuse negative ones.
pub mod Records
use native.Mathlib.Decide.{ℕ_discrete}
use nami_sync.Paths.{Text}
use nami_sync.Base.{Bool, Option, ℕ, String, Eq, string_eq}

pub data EntryKind : Type 0 where
  file directory : EntryKind

EntryKind_dec : Discrete EntryKind
EntryKind_dec = hlevel

instance unfoldable pub entry_kind_eq : Eq EntryKind
unfolding EntryKind_dec
entry_kind_eq = record { dec = EntryKind_dec }

pub record VolumeId : Type 0 where
  pub serial : String
  pub fs_type : String

pub record VolumeEvidence : Type 0 where
  pub label : Option String
  pub device_id : Option String
  pub clone_ambiguous : Bool

-- The path of a root is absolute; the others are relative to one.
pub record Root : Type 0 where
  pub path : Text
  pub root_id : String

pub record FileIdentity : Type 0 where
  pub volume_serial : String
  pub file_index : ℕ

pub record MetadataSnapshot : Type 0 where
  pub attributes : ℕ
  pub created_ns : Option ℕ

pub record FileStat : Type 0 where
  pub kind : EntryKind
  pub size : ℕ
  pub mtime_ns : ℕ
  pub file_identity : Option FileIdentity
  pub nlink : ℕ
  pub metadata : MetadataSnapshot

pub record CapabilityProfile : Type 0 where
  pub fs_type : String
  pub mtime_granularity_ns : ℕ
  pub stable_file_identity : Bool
  pub incurs_seek_penalty : Option Bool
  pub max_path : ℕ
  pub supports_ads : Bool
  pub supports_hardlinks : Bool

VolumeId_dec : Discrete VolumeId
VolumeId_dec = hlevel string_eq.dec

instance unfoldable pub volume_eq : Eq VolumeId
unfolding VolumeId_dec
volume_eq = record { dec = VolumeId_dec }

FileIdentity_dec : Discrete FileIdentity
FileIdentity_dec = hlevel (string_eq.dec, ℕ_discrete)

instance unfoldable pub identity_eq : Eq FileIdentity
unfolding FileIdentity_dec
identity_eq = record { dec = FileIdentity_dec }

MetadataSnapshot_dec : Discrete MetadataSnapshot
MetadataSnapshot_dec = hlevel ℕ_discrete

instance unfoldable pub metadata_eq : Eq MetadataSnapshot
unfolding MetadataSnapshot_dec
metadata_eq = record { dec = MetadataSnapshot_dec }
