-- ===== src/Policies.antt =====
-- The policies of a plan and the correspondence it starts from (namisync/core/planning.py).
use nami_sync.Base.{Bool, List, [], Option, String, Eq}
use nami_sync.Models.{FileIdentity, VolumeId}
use nami_sync.Paths.{Text}

pub data DeletionPolicy : Type 0 where
  trash additive mirror : DeletionPolicy

DeletionPolicy_dec : Discrete DeletionPolicy
DeletionPolicy_dec = hlevel

instance unfoldable pub deletion_eq : Eq DeletionPolicy
unfolding DeletionPolicy_dec
deletion_eq = record { dec = DeletionPolicy_dec }

pub record PreservationPolicy : Type 0 where
  pub preserve_ads : Bool
  pub preserve_created : Bool
  pub preserve_acl : Bool

-- Its constructor refuses a key that is not the path's own.
pub record DestinationAssignment : Type 0 where
  pub source_rel_path : Text
  pub source_rel_path_key : Text
  pub target_rel_path : Text
  pub target_rel_path_key : Text
  pub group_id : Option String
  pub conflict : Option String

pub record Assignment : Type 0 where
  pub policy_name : String
  pub policy_version : String
  pub items : List DestinationAssignment

pub record MappingPair : Type 0 where
  pub source_rel_path_key : Text
  pub target_rel_path : Text
  pub target_rel_path_key : Text
  pub source_identity : FileIdentity
  pub target_identity : Option FileIdentity

-- The sets by their elements.
pub record MappingSnapshot : Type 0 where
  pub source_volume_id : Option VolumeId
  pub target_volume_id : Option VolumeId
  pub pairs : List MappingPair
  pub ambiguous_source_keys : List Text
  pub disqualified_source_identities : List FileIdentity
  pub disqualified_target_identities : List FileIdentity

-- `MappingSnapshot.empty`
abbrev pub empty_mapping : Option VolumeId → Option VolumeId → MappingSnapshot
empty_mapping source_volume_id target_volume_id = record {
  source_volume_id = source_volume_id;
  target_volume_id = target_volume_id;
  pairs = [];
  ambiguous_source_keys = [];
  disqualified_source_identities = [];
  disqualified_target_identities = [];
}

pub data ScopeKind : Type 0 where
  everything pattern explicit recorded_run : ScopeKind

ScopeKind_dec : Discrete ScopeKind
ScopeKind_dec = hlevel

instance unfoldable pub plan_scope_eq : Eq ScopeKind
unfolding ScopeKind_dec
plan_scope_eq = record { dec = ScopeKind_dec }

-- The value of a scope: a string, a tuple of strings, or `None`.
pub data ScopeValue : Type 0 where
  pattern_value : String → ScopeValue
  candidate_values : List String → ScopeValue
  no_value : ScopeValue

pub record Scope : Type 0 where
  pub kind : ScopeKind
  pub value : ScopeValue
