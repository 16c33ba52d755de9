-- ===== src/Payloads/Executions.antt =====
-- Requests for an execution as payloads (namisync/workflows/payloads.py), by their JSON values.
use nami_sync.Base.{Bool, String, string_eq, [], ◌∷◌, ℕ, Option, Result, ok, err, ◌>>=◌}
use nami_sync.Base.Dict.{Dict}
use nami_sync.Base.Sorting.{sorted, distinct}
use nami_sync.Evidence.{Outcome, Datetime}
use nami_sync.Execution.{
  Commitment, make_commitment, ExecutionSet, make_execution_set, validated_run_id,
}
use nami_sync.Paths.{Text}
use nami_sync.Payloads.{
  JsonObject, JsonValue, PayloadError, json_str, json_text, json_list, json_object, a_field,
  no_fields, Casts, mapping, list, get_field, at_field, or_none, optional, items_of, decode_items,
  count, as_str, str_at, text_at,
}
use nami_sync.Payloads.Hex.{hex, from_hex}
use nami_sync.Payloads.Members.{outcome_value, decode_outcome}
use nami_sync.Payloads.Plans.{fields_of, encode_plan, decode_plan}
use nami_sync.Payloads.Requests.{payload_version, payload_item}
use nami_sync.Planner.Cleanup.{string_leb}
use nami_sync.Session.{Exn}

pub record ExecutionRequest : Type 0 where
  pub execution_set : ExecutionSet
  pub started_at : Option Datetime

-- `datetime.isoformat` and `datetime.fromisoformat`
pub record TimeTexts : Type 0 where
  pub isoformat : Datetime → String
  pub fromisoformat : String → Result PayloadError Datetime

-- The order of `sorted(xset.status.items())`; no two entries have the same key.
unfoldable pub entry_leb : String × Outcome → String × Outcome → Bool
unfolding string_leb
entry_leb a b = string_leb a.0 b.0

unfoldable pub encode_status : Dict String Outcome → JsonObject
unfolding outcome_value
encode_status [] = no_fields
encode_status ((op_id, outcome) ∷ status) =
    a_field op_id (json_str (outcome_value outcome)) (encode_status status)

module _ (times : TimeTexts) where
  unfoldable pub encode_time : Datetime → JsonValue
  encode_time time = json_str (times.isoformat time)

  unfoldable pub encode_commitment : Commitment → JsonValue
  unfolding encode_time
  encode_commitment commitment = json_object (
      fields_of (
        ("plan_fingerprint", json_str commitment.plan_fingerprint)
        ∷ ("selection_digest", json_text (hex commitment.selection_digest))
        ∷ ("committed_at", encode_time commitment.committed_at)
        ∷ []))

  -- `encode_execution_request`
  unfoldable pub encode_execution_request : ExecutionRequest → JsonValue
  unfolding encode_plan sorted items_of encode_status encode_commitment encode_time entry_leb
      string_leb
  encode_execution_request request =
      let xset = request.execution_set in
      json_object (
        fields_of (
          ("schema_version", count payload_version)
          ∷ ("kind", json_str "execute")
          ∷ ("plan", encode_plan xset.plan)
          ∷ ("selection", json_list (items_of json_str (sorted string_leb xset.selection)))
          ∷ ("run_id", json_str xset.run_id)
          ∷ ("status", json_object (encode_status (sorted entry_leb xset.status)))
          ∷ ("commitment", optional encode_commitment xset.commitment)
          ∷ ("started_at", optional encode_time request.started_at)
          ∷ []))

abbrev pub accepted {ℓ} : {A : Type ℓ} → Result Exn A → Result PayloadError A
accepted (ok a) = ok a
accepted (err e) = err PayloadError.refused_value

module _ (upper : ℕ → Text) (casts : Casts) (times : TimeTexts) where
  unfoldable pub decode_time : JsonValue → Result PayloadError Datetime
  decode_time v = times.fromisoformat (as_str casts v)

  unfoldable pub decode_commitment : JsonValue → Result PayloadError Commitment
  unfolding at_field decode_time make_commitment
  decode_commitment v = do
    item ← mapping v
    plan_fingerprint ← str_at casts "plan_fingerprint" item
    digits ← text_at casts "selection_digest" item
    selection_digest ← from_hex digits
    raw_time ← at_field "committed_at" item
    committed_at ← decode_time raw_time
    accepted (
        make_commitment (record {
          plan_fingerprint = plan_fingerprint;
          selection_digest = selection_digest;
          committed_at = committed_at;
        }))

  unfoldable pub decode_status : JsonObject → Result PayloadError (Dict String Outcome)
  unfolding decode_outcome
  decode_status no_fields = ok []
  decode_status (a_field op_id v fields) = do
    outcome ← decode_outcome (as_str casts v)
    status ← decode_status fields
    ok ((op_id, outcome) ∷ status)

  -- `decode_execution_request`
  unfoldable pub decode_execution_request : JsonValue → Result PayloadError ExecutionRequest
  unfolding payload_item get_field at_field decode_commitment decode_plan decode_items distinct
      validated_run_id decode_status make_execution_set decode_time
  decode_execution_request v = do
    item ← payload_item "execute" v
    commitment ← or_none decode_commitment (get_field "commitment" item)
    raw_status ← at_field "status" item
    status_fields ← mapping raw_status
    raw_plan ← at_field "plan" item
    plan ← decode_plan upper casts raw_plan
    raw_selection ← at_field "selection" item
    listed ← list raw_selection
    selected ← decode_items (λ w. ok (as_str casts w)) listed
    run_text ← str_at casts "run_id" item
    run_id ← accepted (validated_run_id run_text)
    status ← decode_status status_fields
    execution_set ← accepted (
        make_execution_set (record {
          plan = plan;
          selection = distinct selected;
          run_id = run_id;
          status = status;
          commitment = commitment;
        }))
    started_at ← or_none decode_time (get_field "started_at" item)
    ok (record { execution_set = execution_set; started_at = started_at })
