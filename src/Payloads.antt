-- ===== src/Payloads.antt =====
-- The JSON payloads that pass through the dispatcher (namisync/workflows/payloads.py): values,
-- what decoding reads of them, and what it raises.
pub mod Members
pub mod Stats
pub mod Operations
pub mod Requests
pub mod RoundTrip
pub mod Operated
pub mod Requested
pub mod Hex
pub mod Plans
pub mod Planned
pub mod Executions
pub mod Executed
use nami_sync.Base.{
  Bool, true, false, String, string_eq, List, [], ◌∷◌, ℕ, Option, none, some, Result, ok, err,
  ◌>>=◌, if◌then◌else◌, Eq, ◌==◌, ℤ, pos, negsuc,
}
use nami_sync.Paths.{Text}

-- What `json.dumps` writes and `json.loads` reads. A path is a text, as everywhere; the other
-- strings are `String`s.
mutual
  -- The entries of a `dict` in their order, by distinct keys.
  pub data JsonObject : Type 0 where
    a_field : String → JsonValue → JsonObject → JsonObject
    no_fields : JsonObject

  pub data JsonList : Type 0 where
    an_item : JsonValue → JsonList → JsonList
    no_items : JsonList

  pub data JsonValue : Type 0 where
    json_object : JsonObject → JsonValue
    json_list : JsonList → JsonValue
    json_text : Text → JsonValue
    json_str : String → JsonValue
    json_int : ℤ → JsonValue
    json_bool : Bool → JsonValue
    json_null : JsonValue

-- What decoding raises: a malformed object or list, a key that is missing, a string that names no
-- member, a value that a constructor or `int` refuses, another schema or kind, and bytes that are
-- no JSON.
pub data PayloadError : Type 0 where
  malformed_object malformed_list missing_key unknown_member refused_value unsupported_schema
        wrong_kind not_json unsupported_policy :
      PayloadError

-- Python's `str`, `int` and `bool` of the values for which a decoder does not expect them.
pub record Casts : Type 0 where
  pub str_of : JsonValue → String
  pub text_of : JsonValue → Text
  pub int_of : JsonValue → Result PayloadError ℤ
  pub bool_of : JsonValue → Bool

-- `_mapping`
abbrev pub mapping : JsonValue → Result PayloadError JsonObject
mapping (json_object fields) = ok fields
mapping _ = err PayloadError.malformed_object

-- `_list`
abbrev pub list : JsonValue → Result PayloadError JsonList
list (json_list items) = ok items
list _ = err PayloadError.malformed_list

-- `item.get(key)`, `None` for a key that is missing
unfoldable pub get_field : String → JsonObject → JsonValue
unfolding string_eq
get_field key no_fields = json_null
get_field key (a_field other v fields) =
    let rest = get_field key fields in if key == other then v else rest

unfoldable pub has_field : String → JsonObject → Bool
unfolding string_eq
has_field key no_fields = false
has_field key (a_field other v fields) =
    let rest = has_field key fields in if key == other then true else rest

-- `item[key]`
unfoldable pub at_field : String → JsonObject → Result PayloadError JsonValue
unfolding get_field has_field
at_field key fields =
    if has_field key fields then ok (get_field key fields) else err PayloadError.missing_key

-- `None if value is None else ...`
abbrev pub or_none {ℓ} :
    {A : Type ℓ} → (JsonValue → Result PayloadError A) → JsonValue → Result PayloadError (Option A)
or_none decode json_null = ok none
or_none decode v = decode v >>= λ a. ok (some a)

abbrev pub optional {ℓ} : {A : Type ℓ} → (A → JsonValue) → Option A → JsonValue
optional encode none = json_null
optional encode (some a) = encode a

unfoldable pub items_of {ℓ} : {A : Type ℓ} → (A → JsonValue) → List A → JsonList
items_of encode [] = no_items
items_of encode (a ∷ list) = an_item (encode a) (items_of encode list)

unfoldable pub decode_items {ℓ} :
    {A : Type ℓ} → (JsonValue → Result PayloadError A) → JsonList → Result PayloadError (List A)
decode_items decode no_items = ok []
decode_items decode (an_item v items) = do
  a ← decode v
  rest ← decode_items decode items
  ok (a ∷ rest)

abbrev pub count : ℕ → JsonValue
count n = json_int (pos n)

module _ (casts : Casts) where
  -- `str(value)`
  abbrev pub as_str : JsonValue → String
  as_str (json_str s) = s
  as_str v = casts.str_of v

  abbrev pub as_text : JsonValue → Text
  as_text (json_text t) = t
  as_text v = casts.text_of v

  abbrev pub as_bool : JsonValue → Bool
  as_bool (json_bool b) = b
  as_bool v = casts.bool_of v

  abbrev as_int : JsonValue → Result PayloadError ℤ
  as_int (json_int n) = ok n
  as_int v = casts.int_of v

  abbrev nonnegative : ℤ → Result PayloadError ℕ
  nonnegative (pos n) = ok n
  nonnegative (negsuc n) = err PayloadError.refused_value

  -- `int(value)` for a number that a constructor refuses when it is negative
  abbrev pub as_count : JsonValue → Result PayloadError ℕ
  as_count v = as_int v >>= nonnegative

  -- `str(item[key])` and the others
  abbrev pub str_at : String → JsonObject → Result PayloadError String
  str_at key fields = at_field key fields >>= λ v. ok (as_str v)

  abbrev pub text_at : String → JsonObject → Result PayloadError Text
  text_at key fields = at_field key fields >>= λ v. ok (as_text v)

  abbrev pub bool_at : String → JsonObject → Result PayloadError Bool
  bool_at key fields = at_field key fields >>= λ v. ok (as_bool v)

  abbrev pub count_at : String → JsonObject → Result PayloadError ℕ
  count_at key fields = at_field key fields >>= as_count
