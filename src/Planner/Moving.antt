-- ===== src/Planner/Moving.antt =====
-- `_move_pair` of namisync/modules/planner.py. Volumes and identities that are `None` fail the tests
-- that read them.
use nami_sync.Base.{
  Bool, true, false, not, ◌||◌, ◌&&◌, List, [], ◌∷◌, ℕ, Option, none, some, if◌then◌else◌, ◌==◌,
  contains, option_eq, string_eq,
}
use nami_sync.Base.Dict.{Dict, get}
use nami_sync.Base.Lists.{keep}
use nami_sync.Models.{FileIdentity, identity_eq, VolumeId, volume_eq}
use nami_sync.Models.Records.{FileRecord, ScanResult}
use nami_sync.Paths.{Text, text_eq, code_eq}
use nami_sync.Planner.{group_at}
use nami_sync.Policies.{MappingPair, MappingSnapshot}

-- What `_move_pair` reads besides the record.
pub record MoveContext : Type 0 where
  pub correspondence : MappingSnapshot
  pub source : ScanResult
  pub target : ScanResult
  pub target_files_by_key : Dict Text (List FileRecord)
  pub assigned_target_keys : List Text
  pub source_identity_counts : Dict FileIdentity ℕ
  pub target_identity_counts : Dict FileIdentity ℕ

-- `counts.get(identity) == 1`
unfoldable pub is_unique : Dict FileIdentity ℕ → FileIdentity → Bool
unfolding get identity_eq option_eq code_eq
is_unique counts identity = get identity counts == some 1

-- The identity is one of the volume's.
unfoldable pub is_on_volume : FileIdentity → Option VolumeId → Bool
unfolding string_eq
is_on_volume identity none = false
is_on_volume identity (some volume) = identity.volume_serial == volume.serial

abbrev is_known {ℓ} : {A : Type ℓ} → Option A → Bool
is_known none = false
is_known (some a) = true

-- The conditions on the source record whose identity it is.
unfoldable pub is_movable : MoveContext → FileRecord → FileIdentity → Bool
unfolding is_unique is_on_volume option_eq volume_eq identity_eq text_eq code_eq
is_movable context found identity =
    found.nlink == 1
    && context.source.profile.stable_file_identity
    && context.target.profile.stable_file_identity
    && is_known context.source.volume_id
    && is_known context.target.volume_id
    && context.correspondence.source_volume_id == context.source.volume_id
    && context.correspondence.target_volume_id == context.target.volume_id
    && is_on_volume identity context.source.volume_id
    && is_unique context.source_identity_counts identity
    && not (contains context.correspondence.disqualified_source_identities identity)
    && not (contains context.correspondence.ambiguous_source_keys found.rel_path_key)

-- The conditions on the identity of the old target.
unfoldable pub is_takeable : MoveContext → MappingPair → FileIdentity → Bool
unfolding is_unique is_on_volume option_eq identity_eq
is_takeable context pair identity =
    is_on_volume identity context.target.volume_id
    && is_unique context.target_identity_counts identity
    && not (contains context.correspondence.disqualified_target_identities identity)
    && (pair.target_identity == none || pair.target_identity == some identity)

-- The one file that stands where the pair says, if it can be moved.
unfoldable pub old_target_of : MoveContext → MappingPair → List FileRecord → Option FileRecord
unfolding is_takeable code_eq
old_target_of context pair (old ∷ []) = elim old.file_identity [
  | none ↦ none
  | some identity ↦ if old.nlink == 1 && is_takeable context pair identity then some old else none
]
old_target_of context pair _ = none

abbrev with_pair : MappingPair → Option FileRecord → Option (MappingPair × FileRecord)
with_pair pair none = none
with_pair pair (some old) = some (pair, old)

-- What is done with the candidates: there must be one.
unfoldable pub move_along :
    MoveContext → Text → List MappingPair → Option (MappingPair × FileRecord)
unfolding text_eq group_at old_target_of
move_along context desired_key (pair ∷ []) =
    if pair.target_rel_path_key == desired_key
      || contains context.assigned_target_keys pair.target_rel_path_key
    then none
    else with_pair pair
        (old_target_of context pair (group_at pair.target_rel_path_key context.target_files_by_key))
move_along context desired_key _ = none

-- `_move_pair`
unfoldable pub move_pair : MoveContext → FileRecord → Text → Option (MappingPair × FileRecord)
unfolding is_movable move_along identity_eq
move_pair context found desired_key = elim found.file_identity [
  | none ↦ none
  | some identity ↦
      if is_movable context found identity
      then move_along context desired_key
          (keep (λ pair. pair.source_identity == identity) context.correspondence.pairs)
      else none
]
