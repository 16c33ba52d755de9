-- ===== src/Payloads/Requested.antt =====
-- Decoding a plan request gives back what was encoded (namisync/workflows/payloads.py).
use native.Mathlib.Decide.{ℕ_discrete}
use nami_sync.Base.{◌≡◌, refl, true, ok, ◌>>=◌}
use nami_sync.Payloads.{json_str, Casts, as_str}
use nami_sync.Payloads.Members.{decode_deletion-deletion_value}
use nami_sync.Payloads.Operated.{decode_items-items_of}
use nami_sync.Payloads.Requests.{
  PlanRequest, is_identity, decode_preservation, encode_options, decode_options,
  encode_plan_request, decode_plan_request, make_filters, payload_item, is_schema_version, is_kind,
}
use nami_sync.Planning.Options.{DestinationPolicy, SyncOptions, make_options}

decode_options-encode_options :
    (casts : Casts) (options : SyncOptions)
    → options.destination_policy ≡ DestinationPolicy.identity "identity" "1"
    → make_filters options.filters.patterns ≡ options.filters
    → make_options options ≡ ok options
    → decode_options casts (encode_options options) ≡ ok options
unfolding decode_options encode_options decode_preservation
decode_options-encode_options casts options p f m =
    let patterns =
      decode_items-items_of json_str (λ w. ok (as_str casts w)) (λ a. refl)
        options.filters.patterns in
    rw (decode_deletion-deletion_value, patterns, f, ← p, m) refl

-- Decoding what a plan request is encoded to gives the request back, if its options are ones that
-- their constructors leave as they are and its destination policy is the default identity policy.
pub decode_plan_request-encode_plan_request :
    (casts : Casts) (request : PlanRequest)
    → request.options.destination_policy ≡ DestinationPolicy.identity "identity" "1"
    → make_filters request.options.filters.patterns ≡ request.options.filters
    → make_options request.options ≡ ok request.options
    → (encode_plan_request request >>= decode_plan_request casts) ≡ ok request
unfolding decode_plan_request encode_plan_request encode_options ℕ_discrete
decode_plan_request-encode_plan_request casts request p f m =
    let options = decode_options-encode_options casts request.options p f m in
    let chosen : is_identity request.options.destination_policy ≡ true = rw p refl in
    unfold payload_item is_schema_version is_kind in rw (chosen, options) refl
