-- ===== src/Planner/Pairing.antt =====
-- `_normalization_pairs` of namisync/modules/planner.py.
use nami_sync.Base.{
  Bool, true, false, not, List, [], ◌∷◌, map, Option, if◌then◌else◌, Eq, ◌==◌, contains, option_eq,
  string_eq,
}
use nami_sync.Base.Dict.{Dict, put}
use nami_sync.Base.Lists.{keep}
use nami_sync.Models.{identity_eq, volume_eq}
use nami_sync.Models.Records.{FileRecord}
use nami_sync.Paths.{Text, text_eq, code_eq}
use nami_sync.Paths.Parts.{parent_of, file_name}
use nami_sync.Planner.Assigning.{SourceIdentity, source_identity_eq, identity_of_item}
use nami_sync.Planner.{group_at, group_onto}
use nami_sync.Planning.Options.{Platform}
use nami_sync.Policies.{DestinationAssignment}

-- `_normalization_signature`: the parent, and the normal form of the name.
pub record Signature : Type 0 where
  pub parent : Option Text
  pub name : Text

Signature_dec : Discrete Signature
Signature_dec = hlevel text_eq.dec

instance unfoldable pub signature_eq : Eq Signature
unfolding Signature_dec
signature_eq = record { dec = Signature_dec }

abbrev pub Groups : Type 0
Groups = Dict Text (List FileRecord)

unfoldable pub normalization_signature : Platform → Text → Signature
unfolding parent_of file_name
normalization_signature platform path = record {
  parent = parent_of path;
  name = platform.nfc (file_name path);
}

abbrev pub is_nonempty {ℓ} : {A : Type ℓ} → List A → Bool
is_nonempty [] = false
is_nonempty (x ∷ xs) = true

abbrev item_key : DestinationAssignment → Text
item_key item = item.target_rel_path_key

-- An item whose target key some target file has.
unfoldable pub is_matched : Groups → DestinationAssignment → Bool
unfolding group_at text_eq
is_matched by_key item = is_nonempty (group_at item.target_rel_path_key by_key)

-- The pair of one signature, when one item and one target file have it and their paths differ.
unfoldable pub pair_up :
    List DestinationAssignment
    → List FileRecord
    → Dict SourceIdentity FileRecord
    → Dict SourceIdentity FileRecord
unfolding put text_eq source_identity_eq
pair_up (item ∷ []) (target ∷ []) pairs =
    if item.target_rel_path == target.rel_path
    then pairs
    else put (identity_of_item item) target pairs
pair_up _ _ pairs = pairs

unfoldable pub pair_groups :
    Dict Signature (List DestinationAssignment)
    → Dict Signature (List FileRecord)
    → Dict SourceIdentity FileRecord
    → Dict SourceIdentity FileRecord
unfolding pair_up group_at signature_eq
pair_groups [] targets pairs = pairs
pair_groups ((signature, desired) ∷ groups) targets pairs =
    pair_groups groups targets (pair_up desired (group_at signature targets) pairs)

-- `_normalization_pairs`
unfoldable pub normalization_pairs :
    Platform
    → List DestinationAssignment
    → List FileRecord
    → Groups
    → Dict SourceIdentity FileRecord
unfolding is_matched pair_groups group_onto normalization_signature signature_eq text_eq
normalization_pairs platform items target_files by_key =
    let matched = map item_key (keep (is_matched by_key) items) in
    let desired =
      group_onto (λ item. normalization_signature platform item.target_rel_path)
        (keep (λ item. not (is_matched by_key item)) items) [] in
    let targets =
      group_onto (λ found. normalization_signature platform found.rel_path)
        (keep (λ found. not (contains matched found.rel_path_key)) target_files) [] in
    pair_groups desired targets []
