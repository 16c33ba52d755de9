-- ===== src/Payloads/Executed.antt =====
-- Decoding a request for an execution gives back what was encoded, and what remains of it
-- (namisync/workflows/payloads.py with namisync/core/execution.py).
use Prim.Native.Nat.{◌<◌}
use native.Mathlib.Decide.{ℕ_discrete}
use nami_sync.Base.{
  ◌≡◌, refl, ◌∙◌, Bool, false, not, String, string_eq, List, [], ◌∷◌, ℕ, Option, none, some, ok,
  arith, contains,
}
use nami_sync.Base.Dict.{Dict, get}
use nami_sync.Base.Lists.{All, All-map, any, any_false→All, All→any_false, keep_same}
use nami_sync.Base.Sorting.{
  insert_sorted, sorted, distinct, All-sorted, All-distinct, contains-sorted, contains-distinct,
}
use nami_sync.Evidence.{Outcome, Datetime}
use nami_sync.Execution.{
  Commitment, make_commitment, ExecutionSet, make_execution_set, validated_run_id, remaining,
  is_remaining, has_unknown, keys,
}
use nami_sync.Planner.Cleanup.{string_leb}
use nami_sync.Planning.{op_ids}
use nami_sync.Paths.{Text}
use nami_sync.Payloads.{Casts, or_none, optional, json_str, as_str}
use nami_sync.Payloads.Executions.{
  ExecutionRequest, TimeTexts, entry_leb, encode_time, decode_time, encode_commitment,
  decode_commitment, encode_status, decode_status, encode_execution_request,
  decode_execution_request,
}
use nami_sync.Payloads.Hex.{from_hex-hex}
use nami_sync.Payloads.Members.{decode_outcome-outcome_value}
use nami_sync.Payloads.Operated.{decode_items-items_of}
use nami_sync.Payloads.Planned.{IsPlan, volumes_back, decode_plan-encode_plan}

-- No key is in a dictionary twice.
abbrev pub AreUnique : Dict String Outcome → Type 0
AreUnique [] = Unit
AreUnique (entry ∷ status) = (get entry.0 status ≡ none) × AreUnique status

get-insert_sorted :
    (key : String) (entry : String × Outcome) (status : Dict String Outcome)
    → get entry.0 status ≡ none
    → get key (insert_sorted entry_leb entry status) ≡ get key (entry ∷ status)
unfolding insert_sorted get
get-insert_sorted key entry [] h = refl
get-insert_sorted key entry (other ∷ status) h = ground (arith, get-insert_sorted key entry status)

get-sorted :
    (key : String) (status : Dict String Outcome)
    → AreUnique status
    → get key (sorted entry_leb status) ≡ get key status
unfolding sorted get
get-sorted key [] h = refl
get-sorted key (entry ∷ status) h =
    get-insert_sorted key entry (sorted entry_leb status) (get-sorted entry.0 status h.1 ∙ h.0)
    ∙ rw (get-sorted key status h.1) refl

abbrev pub selection_back : List String → List String
selection_back selection = distinct (sorted string_leb selection)

contains-selection_back :
    (op_id : String) (selection : List String)
    → contains (selection_back selection) op_id ≡ contains selection op_id
contains-selection_back op_id selection =
    contains-distinct op_id (sorted string_leb selection)
    ∙ contains-sorted string_leb op_id selection

All-keys :
    (test : String → Bool) (status : Dict String Outcome)
    → any test (keys status) ≡ false
    → All (λ entry. test entry.0 ≡ false) status
All-keys test [] h = tt
All-keys test (entry ∷ status) h = (ground arith, All-keys test status (ground arith))

keys-All :
    (test : String → Bool) (status : Dict String Outcome)
    → All (λ entry. test entry.0 ≡ false) status
    → any test (keys status) ≡ false
keys-All test [] h = refl
keys-All test (entry ∷ status) h = rw (h.0, keys-All test status h.1) refl

-- A set in another order has as few unknown elements.
has_unknown-selection_back :
    (selection known : List String)
    → has_unknown selection known ≡ false
    → has_unknown (selection_back selection) known ≡ false
has_unknown-selection_back selection known h = All→any_false _ (selection_back selection) (
    All-distinct _ (sorted string_leb selection)
      (All-sorted string_leb _ selection (any_false→All _ selection h)))

has_unknown-sorted :
    (status : Dict String Outcome) (selection : List String)
    → has_unknown (keys status) selection ≡ false
    → has_unknown (keys (sorted entry_leb status)) (selection_back selection) ≡ false
has_unknown-sorted status selection h = keys-All _ (sorted entry_leb status) (
    All-map _ _ (λ entry e. rw (contains-selection_back entry.0 selection) e)
      (sorted entry_leb status)
      (All-sorted entry_leb _ status (All-keys (λ op_id. not (contains selection op_id)) status h)))

-- What the payload of an execution set reads back as.
abbrev pub set_back : ExecutionSet → ExecutionSet
set_back xset = record xset {
  plan = record xset.plan { required_volumes = volumes_back xset.plan.required_volumes };
  selection = selection_back xset.selection;
  status = sorted entry_leb xset.status;
}

make_execution_set-set_back :
    (xset : ExecutionSet)
    → make_execution_set xset ≡ ok xset
    → make_execution_set (set_back xset) ≡ ok (set_back xset)
unfolding make_execution_set
make_execution_set-set_back xset h =
    let chosen = has_unknown-selection_back xset.selection (op_ids xset.plan.operations) in
    let settled = has_unknown-sorted xset.status xset.selection in ground (arith, chosen, settled)

validated_run_id-make_execution_set :
    (xset : ExecutionSet)
    → make_execution_set xset ≡ ok xset
    → validated_run_id xset.run_id ≡ ok xset.run_id
unfolding make_execution_set validated_run_id
validated_run_id-make_execution_set xset h = ground arith

remaining-set_back :
    (xset : ExecutionSet) → AreUnique xset.status → remaining (set_back xset) ≡ remaining xset
unfolding remaining
remaining-set_back xset unique =
    keep_same _ (is_remaining xset.selection xset.status)
      (λ operation.
        rw
          (
            contains-selection_back operation.op_id xset.selection,
            get-sorted operation.op_id xset.status unique,
          )
          refl)
      xset.plan.operations

-- The texts of a time and of a commitment read back, and its constructor takes it.
abbrev pub IsRead : TimeTexts → Datetime → Type 0
IsRead times time = times.fromisoformat (times.isoformat time) ≡ ok time

abbrev pub IsCommitted : TimeTexts → Option Commitment → Type 0
IsCommitted times none = Unit
IsCommitted times (some commitment) =
    (make_commitment commitment ≡ ok commitment)
    × All (λ byte. byte < 256) commitment.selection_digest
    × IsRead times commitment.committed_at

abbrev pub IsStarted : TimeTexts → Option Datetime → Type 0
IsStarted times none = Unit
IsStarted times (some time) = IsRead times time

-- What the constructors of a request and of its parts accept.
pub record IsRequest (upper : ℕ → Text) (times : TimeTexts) (request : ExecutionRequest)
    : Type 0 where
  pub plan : IsPlan upper request.execution_set.plan
  pub made : make_execution_set request.execution_set ≡ ok request.execution_set
  pub unique : AreUnique request.execution_set.status
  pub committed : IsCommitted times request.execution_set.commitment
  pub started : IsStarted times request.started_at

module _ (upper : ℕ → Text) (casts : Casts) (times : TimeTexts) where
  commitment-encode_commitment :
      (commitment : Option Commitment)
      → IsCommitted times commitment
      → or_none
          (decode_commitment upper casts times)
          (optional (encode_commitment times) commitment)
        ≡ ok commitment
  unfolding decode_commitment encode_commitment decode_time encode_time
  commitment-encode_commitment none h = refl
  commitment-encode_commitment (some commitment) (made, bytes, time) =
      rw (from_hex-hex commitment.selection_digest bytes, time, made) refl

  started-encode_time :
      (time : Option Datetime)
      → IsStarted times time
      → or_none (decode_time upper casts times) (optional (encode_time times) time) ≡ ok time
  unfolding decode_time encode_time
  started-encode_time none h = refl
  started-encode_time (some time) h = rw h refl

  decode_status-encode_status :
      (status : Dict String Outcome)
      → decode_status upper casts times (encode_status status) ≡ ok status
  unfolding decode_status encode_status
  decode_status-encode_status [] = refl
  decode_status-encode_status ((op_id, outcome) ∷ status) =
      rw (decode_outcome-outcome_value outcome, decode_status-encode_status status) refl

  -- A request for an execution whose constructors take it and whose times read back is decoded from
  -- what it is encoded to: with the same plan, its required volumes in the order written, the same
  -- selection and outcomes by their ids, and the same run; the operations that remain are the same,
  -- in the same order.
  pub decode_execution_request-encode_execution_request :
      (request : ExecutionRequest)
      → IsRequest upper times request
      → (decode_execution_request upper casts times (encode_execution_request times request)
          ≡ ok (record request { execution_set = set_back request.execution_set }))
        × (remaining (set_back request.execution_set) ≡ remaining request.execution_set)
  unfolding decode_execution_request encode_execution_request ℕ_discrete
  decode_execution_request-encode_execution_request request is =
      let xset = request.execution_set in
      (
        rw
            (
              commitment-encode_commitment xset.commitment is.committed,
              started-encode_time request.started_at is.started,
              decode_status-encode_status (sorted entry_leb xset.status),
              decode_items-items_of json_str (λ w. ok (as_str casts w)) (λ a. refl)
                  (sorted string_leb xset.selection),
              decode_plan-encode_plan upper casts xset.plan is.plan,
              validated_run_id-make_execution_set xset is.made,
              make_execution_set-set_back xset is.made,
            )
            refl,
        remaining-set_back xset is.unique,
      )
