-- ===== src/Session/Records.antt =====
-- Resources and session records with the checks of their constructors
-- (namisync/core/session.py).
use Prim.Native.Char.{code}
use nami_sync.Base.{
  ◌≡◌, Bool, true, false, not, ◌&&◌, ◌||◌, String, List, [], ◌∷◌, ℕ, Option, none, some, Eq, ◌==◌,
  string_eq, Result, ok, raise_if, ◌>>◌, ltb, if◌then◌else◌, arith,
}
use nami_sync.Evidence.{Datetime, is_utc}
use nami_sync.Session.{SessionState, state_eq, is_terminal, Exn}
use nami_sync.Session.Results.{OperationResult, is_empty, bool_ne}

pub record ResourceId : Type 0 where
  pub namespace : String
  pub key : String

ResourceId_dec : Discrete ResourceId
unfolding string_eq
ResourceId_dec = hlevel string_eq.dec

instance unfoldable pub resource_eq : Eq ResourceId
unfolding ResourceId_dec
resource_eq = record { dec = ResourceId_dec }

-- `ResourceId.__post_init__`
unfoldable pub make_resource : ResourceId → Result Exn ResourceId
make_resource resource = do
  raise_if (is_empty resource.namespace || is_empty resource.key)
      (Exn.value_error "resource namespace and key must be non-empty")
  ok resource

-- `<` on strings, by code points.
unfoldable pub string_ltb : String → String → Bool
string_ltb s String.[] = false
string_ltb String.[] (String.◌∷◌ d t) = true
string_ltb (String.◌∷◌ c s) (String.◌∷◌ d t) =
    let rest = string_ltb s t in
    if ltb (code c) (code d) then true else if ltb (code d) (code c) then false else rest

-- `<` on resources: the dataclass orders by namespace, then by key.
unfoldable pub resource_ltb : ResourceId → ResourceId → Bool
unfolding string_eq
resource_ltb a b =
    string_ltb a.namespace b.namespace || a.namespace == b.namespace && string_ltb a.key b.key

-- `tuple(sorted(set(resources))) == resources`: strictly ascending.
unfoldable pub is_sorted_set : List ResourceId → Bool
is_sorted_set [] = true
is_sorted_set (a ∷ []) = true
is_sorted_set (a ∷ b ∷ resources) = resource_ltb a b && is_sorted_set (b ∷ resources)

abbrev pub Bytes : Type 0
Bytes = List ℕ

-- The admission order is counted from 0 up.
pub record SessionRecord : Type 0 where
  pub session_id : String
  pub kind : String
  pub state : SessionState
  pub resources : List ResourceId
  pub payload : Bytes
  pub supports_pause : Bool
  pub admission_order : ℕ
  pub created_at : Datetime
  pub started_at : Option Datetime
  pub ended_at : Option Datetime
  pub result : Option OperationResult

-- `_require_utc`, on a value that may be missing.
abbrev pub is_utc_or_none : Option Datetime → Bool
is_utc_or_none none = true
is_utc_or_none (some t) = is_utc t

abbrev pub has_value {ℓ} : {A : Type ℓ} → Option A → Bool
has_value none = false
has_value (some a) = true

abbrev pub result_disagrees : Option OperationResult → SessionState → Bool
result_disagrees none state = false
result_disagrees (some r) state = not (r.status == state)

-- `SessionRecord.__post_init__`, which `replace` runs again.
unfoldable pub make_record : SessionRecord → Result Exn SessionRecord
unfolding state_eq
make_record r = do
  raise_if (is_empty r.session_id || is_empty r.kind)
      (Exn.value_error "session id and kind must be non-empty")
  raise_if (not (is_sorted_set r.resources))
      (Exn.value_error "resources must be unique and deterministically sorted")
  raise_if (not (is_utc r.created_at)) (Exn.value_error "created_at must be UTC")
  raise_if (not (is_utc_or_none r.started_at)) (Exn.value_error "started_at must be UTC")
  raise_if (not (is_utc_or_none r.ended_at)) (Exn.value_error "ended_at must be UTC")
  raise_if (bool_ne (is_terminal r.state) (has_value r.ended_at))
      (Exn.value_error "terminal state and ended_at must agree")
  raise_if (result_disagrees r.result r.state)
      (Exn.value_error "record result status must agree with session state")
  ok r

-- What a record that the constructor lets through satisfies.
pub record IsRecord (r : SessionRecord) : Type 0 where
  pub named : (is_empty r.session_id || is_empty r.kind) ≡ false
  pub ordered : is_sorted_set r.resources ≡ true
  pub created_utc : is_utc r.created_at ≡ true
  pub started_utc : is_utc_or_none r.started_at ≡ true
  pub ended_utc : is_utc_or_none r.ended_at ≡ true
  pub ended_iff : is_terminal r.state ≡ has_value r.ended_at
  pub agrees : result_disagrees r.result r.state ≡ false

pub make_record_sound : (r r' : SessionRecord) → make_record r ≡ ok r' → (r' ≡ r) × IsRecord r
unfolding make_record
make_record_sound r r' h = ground arith

pub make_record_complete : (r : SessionRecord) → IsRecord r → make_record r ≡ ok r
unfolding make_record
make_record_complete r v = ground arith
