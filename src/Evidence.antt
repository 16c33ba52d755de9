-- ===== src/Evidence.antt =====
-- Outcome vocabulary and the UTC test on timestamps (namisync/core/evidence.py).
use nami_sync.Base.{Bool, true, false, Option, none, some, ℕ, zero, suc, ℤ, pos, Eq}

pub data Outcome : Type 0 where
  succeeded skipped failed canceled deferred blocked : Outcome

Outcome_dec : Discrete Outcome
Outcome_dec = hlevel

instance unfoldable pub outcome_eq : Eq Outcome
unfolding Outcome_dec
outcome_eq = record { dec = Outcome_dec }

pub data RecordingStatus : Type 0 where
  ok degraded : RecordingStatus

pub data Provenance : Type 0 where
  copy_attested readback_attested verify_attested : Provenance

-- A `datetime`: an instant, and the offset from UTC in minutes, which a naive one lacks.
pub record Datetime : Type 0 where
  pub instant : ℕ
  pub utc_offset : Option ℤ

-- `value.tzinfo is not None and value.utcoffset() is not None`
abbrev pub is_aware : Datetime → Bool
is_aware t = elim t.utc_offset [ none ↦ false | some offset ↦ true ]

-- `_require_utc` and the two tests of `Dispatcher._now` pass exactly on these.
abbrev pub is_utc : Datetime → Bool
is_utc t = elim t.utc_offset [
  | none ↦ false
  | some offset ↦ elim offset [ pos n ↦ elim n [ zero ↦ true | suc _ ↦ false ] | _ ↦ false ]
]
