-- ===== src/Events.antt =====
-- Event bodies, their envelopes and the checks of their constructors (namisync/core/events.py).
use nami_sync.Base.{
  Bool, true, false, not, ◌&&◌, ◌||◌, String, Option, none, some, ℕ, Result, ok, raise_if, ◌>>◌,
  if◌then◌else◌, ℤ, ltz, is_negative, ltb, leb,
}
use nami_sync.Evidence.{Datetime, is_aware, is_utc}
use nami_sync.Session.{SessionState, Exn}
use nami_sync.Session.Results.{OperationResult, ItemOutcome, ForeignBody, is_empty}

-- `SCHEMA_VERSION`
abbrev pub schema_version : ℕ
schema_version = 2

pub data DeliveryClass : Type 0 where
  lossy reliable : DeliveryClass

pub record Progress : Type 0 where
  pub items_done : ℤ
  pub items_total : Option ℤ
  pub bytes_done : ℤ
  pub bytes_total : Option ℤ
  pub current_path : Option String

abbrev negative_total : Option ℤ → Bool
negative_total none = false
negative_total (some n) = is_negative n

abbrev exceeds : ℤ → Option ℤ → Bool
exceeds n none = false
exceeds n (some total) = ltz total n

-- `Progress.__post_init__`
unfoldable pub make_progress : Progress → Result Exn Progress
make_progress p = do
  raise_if (is_negative p.items_done || is_negative p.bytes_done)
      (Exn.value_error "progress counters cannot be negative")
  raise_if (negative_total p.items_total || negative_total p.bytes_total)
      (Exn.value_error "progress totals cannot be negative")
  raise_if (exceeds p.items_done p.items_total)
      (Exn.value_error "items_done cannot exceed items_total")
  raise_if (exceeds p.bytes_done p.bytes_total)
      (Exn.value_error "bytes_done cannot exceed bytes_total")
  ok p

pub data EventBody : Type 0 where
  state_changed : SessionState → EventBody
  phase_changed : String → EventBody
  progress : Progress → EventBody
  item : ItemOutcome → EventBody
  gap : ℕ → EventBody
  terminal : OperationResult → EventBody
  foreign : ForeignBody → EventBody

pub record Envelope : Type 0 where
  pub session_id : String
  pub seq : ℕ
  pub at_time : Datetime
  pub version : ℕ
  pub body : EventBody

-- `Envelope.__post_init__`
unfoldable pub make_envelope : Envelope → Result Exn Envelope
make_envelope e = do
  raise_if (is_empty e.session_id) (Exn.value_error "session_id must be non-empty")
  raise_if (ltb e.seq 1) (Exn.value_error "event sequence must be positive")
  raise_if (not (leb e.version schema_version && leb schema_version e.version))
      (Exn.value_error "unsupported event schema version")
  raise_if (not (is_aware e.at_time)) (Exn.value_error "event timestamp must be timezone-aware")
  raise_if (not (is_utc e.at_time)) (Exn.value_error "event timestamp must be UTC")
  ok e

abbrev pub is_progress : EventBody → Bool
is_progress (EventBody.progress p) = true
is_progress _ = false

unfoldable pub delivery_class : EventBody → DeliveryClass
delivery_class body = if is_progress body then DeliveryClass.lossy else DeliveryClass.reliable
