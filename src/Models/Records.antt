-- ===== src/Models/Records.antt =====
-- The records of a scan and the scan itself (namisync/core/models.py). Their constructors refuse a
-- path that does not validate and a key that is not the path's own.
use nami_sync.Base.{Bool, List, Option, ℕ, Eq, ◌==◌}
use nami_sync.Models.{
  EntryKind, FileIdentity, MetadataSnapshot, FileStat, VolumeId, VolumeEvidence, Root,
  CapabilityProfile,
}
use nami_sync.Paths.{Text}

pub record FileRecord : Type 0 where
  pub rel_path : Text
  pub rel_path_key : Text
  pub size : ℕ
  pub mtime_ns : ℕ
  pub file_identity : Option FileIdentity
  pub nlink : ℕ
  pub metadata : MetadataSnapshot

-- `FileRecord.stat`
abbrev pub file_stat : FileRecord → FileStat
file_stat found = record {
  kind = EntryKind.file;
  size = found.size;
  mtime_ns = found.mtime_ns;
  file_identity = found.file_identity;
  nlink = found.nlink;
  metadata = found.metadata;
}

pub record DirRecord : Type 0 where
  pub rel_path : Text
  pub rel_path_key : Text
  pub mtime_ns : ℕ
  pub metadata : MetadataSnapshot
  pub file_identity : Option FileIdentity
  pub nlink : ℕ

-- `DirRecord.stat`
abbrev pub dir_stat : DirRecord → FileStat
dir_stat found = record {
  kind = EntryKind.directory;
  size = 0;
  mtime_ns = found.mtime_ns;
  file_identity = found.file_identity;
  nlink = found.nlink;
  metadata = found.metadata;
}

pub data UnsupportedReason : Type 0 where
  placeholder reparse_point access_denied disappeared unknown_type : UnsupportedReason

pub record UnsupportedRecord : Type 0 where
  pub rel_path : Text
  pub rel_path_key : Text
  pub reason : UnsupportedReason
  pub kind : Option EntryKind

pub data ScanScopeKind : Type 0 where
  full paths : ScanScopeKind

ScanScopeKind_dec : Discrete ScanScopeKind
ScanScopeKind_dec = hlevel

instance unfoldable pub scope_kind_eq : Eq ScanScopeKind
unfolding ScanScopeKind_dec
scope_kind_eq = record { dec = ScanScopeKind_dec }

pub record ScanScope : Type 0 where
  pub kind : ScanScopeKind
  pub selected_paths : List Text

-- `ScanResult` without its warnings and its ignore snapshot, which the planner does not read.
pub record ScanResult : Type 0 where
  pub root : Root
  pub volume_id : Option VolumeId
  pub volume_evidence : Option VolumeEvidence
  pub profile : CapabilityProfile
  pub files : List FileRecord
  pub directories : List DirRecord
  pub unsupported : List UnsupportedRecord
  pub scope : ScanScope
  pub complete : Bool

-- `ScanResult.is_full_scan`
unfoldable pub is_full_scan : ScanResult → Bool
unfolding scope_kind_eq
is_full_scan result = result.scope.kind == ScanScopeKind.full
