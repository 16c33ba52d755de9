-- ===== src/Planner/Assigning.antt =====
-- `_validate_assignment` of namisync/modules/planner.py.
use nami_sync.Base.{
  Bool, false, not, ◌&&◌, List, [], ◌∷◌, map, Result, ok, err, ◌>>=◌, ◌>>◌, raise_if, Eq, contains,
}
use nami_sync.Base.Dict.{Dict, put}
use nami_sync.Base.Lists.{all}
use nami_sync.Models.Records.{FileRecord}
use nami_sync.Paths.{Text, text_eq, validate_relative_path}
use nami_sync.Planner.{PlanError}
use nami_sync.Planning.Options.{Platform}
use nami_sync.Policies.{DestinationAssignment}

-- The pair of a key and a path that names a source.
pub record SourceIdentity : Type 0 where
  pub key : Text
  pub path : Text

SourceIdentity_dec : Discrete SourceIdentity
SourceIdentity_dec = hlevel text_eq.dec

instance unfoldable pub source_identity_eq : Eq SourceIdentity
unfolding SourceIdentity_dec
source_identity_eq = record { dec = SourceIdentity_dec }

abbrev pub identity_of_record : FileRecord → SourceIdentity
identity_of_record found = record { key = found.rel_path_key; path = found.rel_path }

abbrev pub identity_of_item : DestinationAssignment → SourceIdentity
identity_of_item item = record { key = item.source_rel_path_key; path = item.source_rel_path }

abbrev pub keys_of {ℓ} : {K A : Type ℓ} → Dict K A → List K
keys_of [] = []
keys_of ((k, v) ∷ d) = k ∷ keys_of d

abbrev pub validated : Platform → DestinationAssignment → Result PlanError (Unit {0})
validated platform item = elim (validate_relative_path platform.upper false item.target_rel_path) [
  | ok canonical ↦ ok tt
  | err e ↦ err (PlanError.invalid_target e)
]

module _ (sources : List SourceIdentity) where
  -- The loop over the items.
  unfoldable pub collect_items :
      Platform
      → List DestinationAssignment
      → Dict SourceIdentity DestinationAssignment
      → Result PlanError (Dict SourceIdentity DestinationAssignment)
  unfolding validate_relative_path source_identity_eq put
  collect_items platform [] items = ok items
  collect_items platform (item ∷ rest) items = do
    validated platform item
    raise_if (not (contains sources (identity_of_item item))) PlanError.unknown_source
    raise_if (contains (keys_of items) (identity_of_item item)) PlanError.assigned_twice
    collect_items platform rest (put (identity_of_item item) item items)

  -- `set(items) != source_identities`
  unfoldable pub same_sets : List SourceIdentity → Bool
  unfolding source_identity_eq
  same_sets keys = all (contains sources) keys && all (contains keys) sources

-- `_validate_assignment`
unfoldable pub validate_assignment :
    Platform
    → List DestinationAssignment
    → List FileRecord
    → Result PlanError (Dict SourceIdentity DestinationAssignment)
unfolding collect_items same_sets
validate_assignment platform items records =
    let sources = map identity_of_record records in
    do
      collected ← collect_items sources platform items []
      raise_if (not (same_sets sources (keys_of collected))) PlanError.not_every_source
      ok collected
