-- ===== src/Examples/Payloads.antt =====
-- Payloads encoded and decoded (namisync/workflows/payloads.py).
use native.Mathlib.Decide.{ℕ_discrete}
use nami_sync.Base.{◌≡◌, refl, true, string_eq, [], ◌∷◌, none, some, ok, err, ◌>>=◌}
use nami_sync.Examples.Plans.{trashing, a_file, plain, ascii}
use nami_sync.Models.{EntryKind}
use nami_sync.Models.Records.{file_stat}
use nami_sync.Paths.{codes, text_eq, check_component}
use nami_sync.Payloads.{PayloadError, Casts}
use nami_sync.Payloads.Operated.{decode_operation-encode_operation}
use nami_sync.Payloads.Operations.{encode_operation, decode_operation, make_operation}
use nami_sync.Payloads.Requested.{decode_plan_request-encode_plan_request}
use nami_sync.Payloads.Requests.{
  PlanRequest, encode_plan_request, decode_plan_request, make_filters,
}
use nami_sync.Payloads.Stats.{make_identity, make_stat}
use nami_sync.Planning.{OperationKind, OperationReason, PlanOperation}
use nami_sync.Planning.Options.{make_options}
use nami_sync.Policies.{deletion_eq}

-- Conversions that take nothing else.
abbrev pub strict : Casts
strict = record {
  str_of = λ v. "";
  text_of = λ v. [];
  int_of = λ v. err PayloadError.refused_value;
  bool_of = λ v. true;
}

abbrev pub copied : PlanOperation
copied = record {
  op_id = "0123456789abcdef0123456789abcdef";
  kind = OperationKind.copy;
  source_rel_path = some (codes "D\\A");
  target_rel_path = codes "D\\A";
  source_expected = some (record {
    kind = EntryKind.file;
    size = 7;
    mtime_ns = 5;
    file_identity = some (record { volume_serial = "v"; file_index = 3 });
    nlink = 1;
    metadata = plain;
  });
  target_expected = none;
  intended = some (file_stat (a_file "D\\A"));
  prior_target_rel_path = none;
  prior_target_expected = none;
  metadata = some plain;
  content_bytes = 7;
  dependencies = "m" ∷ [];
  reason = OperationReason.source_only;
  blocked_reason = none;
}

copied_made : make_operation ascii.upper copied ≡ ok copied
unfolding make_operation ℕ_discrete text_eq check_component
copied_made = refl

decode_operation-encode_operation_example :
    decode_operation ascii.upper strict (encode_operation copied) ≡ ok copied
unfolding make_identity make_stat
decode_operation-encode_operation_example =
    decode_operation-encode_operation ascii.upper strict copied copied_made (refl, refl) tt
      (tt, refl) tt

abbrev requested : PlanRequest
requested = record {
  request_id = "r";
  source_path = "C:\\s";
  target_path = "D:\\t";
  options = record trashing { filters = record { patterns = "*.tmp" ∷ "a\\b" ∷ [] } };
}

requested_filters : make_filters requested.options.filters.patterns ≡ requested.options.filters
unfolding make_filters ℕ_discrete text_eq
requested_filters = refl

requested_options : make_options requested.options ≡ ok requested.options
unfolding make_options
requested_options = refl

decode_plan_request-encode_plan_request_example :
    (encode_plan_request requested >>= decode_plan_request strict) ≡ ok requested
decode_plan_request-encode_plan_request_example =
    decode_plan_request-encode_plan_request strict requested refl requested_filters
      requested_options

-- Patterns get backslashes, an order, and lose their repetitions.
canonical_filters : make_filters ("b" ∷ "a/c" ∷ "b" ∷ []) ≡ record { patterns = "a\\c" ∷ "b" ∷ [] }
unfolding make_filters ℕ_discrete text_eq
canonical_filters = refl
