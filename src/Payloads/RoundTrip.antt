-- ===== src/Payloads/RoundTrip.antt =====
-- Decoding gives back what was encoded (namisync/workflows/payloads.py).
use nami_sync.Base.{◌≡◌, refl, Option, none, some, Result, ok, arith}
use nami_sync.Models.{
  VolumeId, VolumeEvidence, FileIdentity, MetadataSnapshot, FileStat, CapabilityProfile,
}
use nami_sync.Payloads.{JsonValue, PayloadError, Casts, or_none, optional}
use nami_sync.Payloads.Members.{decode_entry_kind-entry_kind_value}
use nami_sync.Payloads.Stats.{
  make_volume, encode_volume, decode_volume, encode_evidence, decode_evidence, encode_profile,
  decode_profile, make_profile, encode_identity, decode_identity, make_identity, encode_metadata,
  decode_metadata, encode_stat, decode_stat, make_stat,
}

-- A constructor takes the value, if there is one.
abbrev pub IsAccepted {ℓ} : {A : Type ℓ} → (A → Result PayloadError A) → Option A → Type ℓ
IsAccepted make none = Unit
IsAccepted make (some a) = make a ≡ ok a

accepted-some {ℓ} :
    {A : Type ℓ} (make : A → Result PayloadError A) (o : Option A) (a : A)
    → o ≡ some a
    → IsAccepted make o
    → make a ≡ ok a
accepted-some make none a e h = absurd (ground arith)
accepted-some make (some b) a e h = ground arith

-- What the constructors of a stat accept.
abbrev pub IsStat : FileStat → Type 0
IsStat stat = IsAccepted make_identity stat.file_identity × (make_stat stat ≡ ok stat)

abbrev pub IsOptionalStat : Option FileStat → Type 0
IsOptionalStat none = Unit
IsOptionalStat (some stat) = IsStat stat

module _ (casts : Casts) where
  pub decode_volume-encode_volume :
      (volume : VolumeId)
      → make_volume volume ≡ ok volume
      → decode_volume casts (encode_volume volume) ≡ ok volume
  unfolding decode_volume encode_volume
  decode_volume-encode_volume volume h = h

  pub decode_evidence-encode_evidence :
      (evidence : VolumeEvidence) → decode_evidence casts (encode_evidence evidence) ≡ ok evidence
  unfolding decode_evidence encode_evidence
  decode_evidence-encode_evidence evidence = ground arith

  pub decode_profile-encode_profile :
      (profile : CapabilityProfile)
      → make_profile profile ≡ ok profile
      → decode_profile casts (encode_profile profile) ≡ ok profile
  unfolding decode_profile encode_profile
  decode_profile-encode_profile profile h = ground (arith, h)

  decode_identity-encode_identity :
      (identity : FileIdentity)
      → make_identity identity ≡ ok identity
      → decode_identity casts (encode_identity identity) ≡ ok identity
  unfolding decode_identity encode_identity
  decode_identity-encode_identity identity h = h

  pub decode_metadata-encode_metadata :
      (metadata : MetadataSnapshot) → decode_metadata casts (encode_metadata metadata) ≡ ok metadata
  unfolding decode_metadata encode_metadata
  decode_metadata-encode_metadata metadata = ground arith

  pub or_none-optional {ℓ} :
      {A : Type ℓ} (encode : A → JsonValue) (decode : JsonValue → Result PayloadError A)
      (o : Option A)
      → ((a : A) → o ≡ some a → or_none decode (encode a) ≡ ok (some a))
      → or_none decode (optional encode o) ≡ ok o
  or_none-optional encode decode none h = refl
  or_none-optional encode decode (some a) h = h a refl

  pub decode_stat-encode_stat :
      (stat : FileStat) → IsStat stat → decode_stat casts (encode_stat stat) ≡ ok stat
  unfolding decode_stat encode_stat
  decode_stat-encode_stat stat (i, h) =
      let identity =
        or_none-optional encode_identity (decode_identity casts) stat.file_identity (λ a e.
          unfold encode_identity in
          rw (decode_identity-encode_identity a (accepted-some make_identity _ a e i)) refl) in
      rw (identity, decode_entry_kind-entry_kind_value, decode_metadata-encode_metadata) h
