-- ===== src/Payloads/Planned.antt =====
-- Decoding a plan gives back what was encoded (namisync/workflows/payloads.py).
use nami_sync.Base.{
  ◌≡◌, refl, ap, ◌∙◌, List, [], ◌∷◌, ℕ, Option, none, some, Result, ok, arith, contains, map,
}
use nami_sync.Base.Lists.{All}
use nami_sync.Base.Sorting.{sorted, All-sorted, contains-sorted, contains-distinct}
use nami_sync.Models.{VolumeId, volume_eq, Root, VolumeEvidence}
use nami_sync.Paths.{Text}
use nami_sync.Payloads.{
  JsonValue, PayloadError, json_str, json_text, Casts, or_none, optional, items_of, decode_items,
  as_str,
}
use nami_sync.Payloads.Members.{decode_deletion-deletion_value}
use nami_sync.Payloads.Operated.{decode_items-items_of, decode_operation-encode_operation}
use nami_sync.Payloads.Operations.{encode_operation, decode_operation, make_operation}
use nami_sync.Payloads.Plans.{
  encode_root, decode_root, make_root, encode_item, decode_item, make_item, encode_assignment,
  decode_assignment, fields_of, encode_plan, decode_plan, make_plan, volume_set, given_volumes,
  volume_leb,
}
use nami_sync.Payloads.Requests.{make_filters, encode_preservation, decode_preservation}
use nami_sync.Payloads.RoundTrip.{
  IsAccepted, IsOptionalStat, or_none-optional, decode_volume-encode_volume,
  decode_evidence-encode_evidence, decode_profile-encode_profile,
}
use nami_sync.Payloads.Stats.{
  make_volume, encode_volume, decode_volume, encode_evidence, decode_evidence, make_profile,
}
use nami_sync.Planning.{Plan, PlanOperation}
use nami_sync.Policies.{DestinationAssignment}

decode_items-All {ℓ} :
    {A : Type ℓ} (encode : A → JsonValue) (decode : JsonValue → Result PayloadError A)
    (P : A → Type 0)
    → ((a : A) → P a → decode (encode a) ≡ ok a)
    → (list : List A) → All P list
    → decode_items decode (items_of encode list) ≡ ok list
unfolding decode_items items_of
decode_items-All encode decode P h [] all = refl
decode_items-All encode decode P h (a ∷ list) all =
    rw (h a all.0, decode_items-All encode decode P h list all.1) refl

-- What the constructors of an operation and of its stats accept.
abbrev pub IsOperation : (ℕ → Text) → PlanOperation → Type 0
IsOperation upper operation =
    (make_operation upper operation ≡ ok operation)
    × IsOptionalStat operation.source_expected
    × IsOptionalStat operation.target_expected
    × IsOptionalStat operation.intended
    × IsOptionalStat operation.prior_target_expected

-- What the constructors of a plan and of its parts accept.
pub record IsPlan (upper : ℕ → Text) (plan : Plan) : Type 0 where
  pub source_root : make_root plan.source_root ≡ ok plan.source_root
  pub target_root : make_root plan.target_root ≡ ok plan.target_root
  pub source_volume : IsAccepted make_volume plan.source_volume_id
  pub target_volume : IsAccepted make_volume plan.target_volume_id
  pub source_profile : make_profile plan.source_profile ≡ ok plan.source_profile
  pub target_profile : make_profile plan.target_profile ≡ ok plan.target_profile
  pub operations : All (IsOperation upper) plan.operations
  pub items : All (λ item. make_item upper item ≡ ok item) plan.assignment.items
  pub filters : make_filters plan.filter_snapshot.patterns ≡ plan.filter_snapshot
  pub volumes : All (λ volume. make_volume volume ≡ ok volume) plan.required_volumes
  pub ordered : make_plan plan ≡ ok plan

-- The constructor does not read the volumes.
make_plan-volumes :
    (plan : Plan) (volumes : List VolumeId)
    → make_plan plan ≡ ok plan
    → make_plan (record plan { required_volumes = volumes })
      ≡ ok (record plan { required_volumes = volumes })
unfolding make_plan
make_plan-volumes plan volumes h = ground arith

given_volumes-map : (volumes : List VolumeId) → given_volumes (map some volumes) ≡ volumes
given_volumes-map [] = refl
given_volumes-map (volume ∷ volumes) = ap (λ rest. volume ∷ rest) (given_volumes-map volumes)

-- The volumes that are read back are the ones that were written.
abbrev pub volumes_back : List VolumeId → List VolumeId
volumes_back volumes = volume_set (map some (sorted volume_leb volumes))

contains-volumes_back :
    (volume : VolumeId) (volumes : List VolumeId)
    → contains (volumes_back volumes) volume ≡ contains volumes volume
unfolding volume_set
contains-volumes_back volume volumes = rw (given_volumes-map (sorted volume_leb volumes)) (
    contains-distinct volume (sorted volume_leb volumes)
    ∙ contains-sorted volume_leb volume volumes)

module _ (upper : ℕ → Text) (casts : Casts) where
  decode_item-encode_item :
      (item : DestinationAssignment)
      → make_item upper item ≡ ok item
      → decode_item upper casts (encode_item item) ≡ ok item
  unfolding decode_item encode_item
  decode_item-encode_item item h =
      let group =
        or_none-optional casts json_str (λ v. ok (as_str casts v)) item.group_id (λ a e. refl) in
      let conflict =
        or_none-optional casts json_str (λ v. ok (as_str casts v)) item.conflict (λ a e. refl) in
      rw (group, conflict) h

  optional_volume-encode_volume :
      (volume : Option VolumeId)
      → IsAccepted make_volume volume
      → or_none (decode_volume casts) (optional encode_volume volume) ≡ ok volume
  optional_volume-encode_volume none h = refl
  optional_volume-encode_volume (some volume) h =
      let same = decode_volume-encode_volume casts volume h in unfold encode_volume in rw same refl

  optional_evidence-encode_evidence :
      (evidence : Option VolumeEvidence)
      → or_none (decode_evidence casts) (optional encode_evidence evidence) ≡ ok evidence
  optional_evidence-encode_evidence none = refl
  optional_evidence-encode_evidence (some evidence) =
      let same = decode_evidence-encode_evidence casts evidence in
      unfold encode_evidence in rw same refl

  volumes-encode_volume :
      (volumes : List VolumeId)
      → All (λ volume. make_volume volume ≡ ok volume) volumes
      → decode_items (or_none (decode_volume casts)) (items_of encode_volume volumes)
        ≡ ok (map some volumes)
  unfolding decode_items items_of
  volumes-encode_volume [] all = refl
  volumes-encode_volume (volume ∷ volumes) all =
      rw (optional_volume-encode_volume (some volume) all.0, volumes-encode_volume volumes all.1)
        refl

  decode_root-fields_of :
      (root : Root)
      → make_root root ≡ ok root
      → decode_root upper casts
          (fields_of (("path", json_text root.path) ∷ ("root_id", json_str root.root_id) ∷ []))
        ≡ ok root
  unfolding decode_root
  decode_root-fields_of root h = h

  -- Decoding an encoded plan gives it back, its required volumes in the order in which they are
  -- written, if the constructors take the plan and its parts.
  pub decode_plan-encode_plan :
      (plan : Plan)
      → IsPlan upper plan
      → decode_plan upper casts (encode_plan plan)
        ≡ ok (record plan { required_volumes = volumes_back plan.required_volumes })
  unfolding decode_plan encode_plan encode_root encode_assignment decode_assignment
      encode_preservation decode_preservation make_plan
  decode_plan-encode_plan plan is =
      rw
        (
          volumes-encode_volume (sorted volume_leb plan.required_volumes)
              (All-sorted volume_leb _ plan.required_volumes is.volumes),
          decode_root-fields_of plan.source_root is.source_root,
          decode_root-fields_of plan.target_root is.target_root,
          optional_volume-encode_volume plan.source_volume_id is.source_volume,
          optional_volume-encode_volume plan.target_volume_id is.target_volume,
          optional_evidence-encode_evidence plan.source_volume_evidence,
          optional_evidence-encode_evidence plan.target_volume_evidence,
          decode_profile-encode_profile casts plan.source_profile is.source_profile,
          decode_profile-encode_profile casts plan.target_profile is.target_profile,
          decode_items-All encode_operation (decode_operation upper casts) (IsOperation upper)
              (λ o (m, s, t, i, p). decode_operation-encode_operation upper casts o m s t i p)
              plan.operations is.operations,
          decode_items-All encode_item (decode_item upper casts) _ decode_item-encode_item
              plan.assignment.items is.items,
          decode_items-items_of json_str (λ w. ok (as_str casts w)) (λ a. refl)
              plan.filter_snapshot.patterns,
          decode_deletion-deletion_value,
          is.filters,
        )
        (make_plan-volumes plan _ is.ordered)
