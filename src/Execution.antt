-- ===== src/Execution.antt =====
-- The continuation state of an execution (namisync/core/execution.py). A set is the list of its
-- elements.
use nami_sync.Base.{
  Bool, not, ◌&&◌, String, List, [], ◌∷◌, contains, string_eq, Result, ok, raise_if, ◌>>◌, ◌>>=◌,
  ◌==◌, ℕ, Option,
}
use nami_sync.Base.Dict.{Dict, get}
use nami_sync.Base.Lists.{any, all, keep, length}
use nami_sync.Evidence.{Outcome, Datetime, is_aware, is_utc}
use nami_sync.Paths.{codes, code_eq}
use nami_sync.Session.Results.{is_empty}
use nami_sync.Session.{Exn}
use nami_sync.Planning.{Plan, PlanOperation, op_ids, is_some}

-- `_FIXED_ID.fullmatch(value) is not None`
unfoldable pub is_fixed_id : String → Bool
unfolding code_eq
is_fixed_id value =
    let characters = codes value in
    length characters == 32 && all (contains (codes "0123456789abcdef")) characters

-- `validated_run_id`
unfoldable pub validated_run_id : String → Result Exn String
unfolding is_fixed_id
validated_run_id value = do
  raise_if (not (is_fixed_id value))
      (Exn.value_error "run id must contain exactly 32 lowercase hex digits")
  ok value

pub record Commitment : Type 0 where
  pub plan_fingerprint : String
  pub selection_digest : List ℕ
  pub committed_at : Datetime

-- `Commitment.__post_init__`
unfoldable pub make_commitment : Commitment → Result Exn Commitment
unfolding code_eq
make_commitment commitment = do
  raise_if (is_empty commitment.plan_fingerprint)
      (Exn.value_error "commitment plan fingerprint is required")
  raise_if (not (length commitment.selection_digest == 32))
      (Exn.value_error "commitment selection digest must contain 32 bytes")
  raise_if (not (is_aware commitment.committed_at))
      (Exn.value_error "commitment timestamp must be timezone-aware")
  raise_if (not (is_utc commitment.committed_at))
      (Exn.value_error "commitment timestamp must be UTC")
  ok commitment

pub record ExecutionSet : Type 0 where
  pub plan : Plan
  pub selection : List String
  pub run_id : String
  pub status : Dict String Outcome
  pub commitment : Option Commitment

abbrev pub keys {ℓ} : {A : Type ℓ} → Dict String A → List String
keys [] = []
keys ((key, value) ∷ rest) = key ∷ keys rest

-- `not ids <= known`, for sets
abbrev pub has_unknown : List String → List String → Bool
has_unknown ids known = any (λ op_id. not (contains known op_id)) ids

-- `ExecutionSet.__post_init__`
unfoldable pub make_execution_set : ExecutionSet → Result Exn ExecutionSet
unfolding validated_run_id
make_execution_set xset = do
  run_id ← validated_run_id xset.run_id
  raise_if (has_unknown xset.selection (op_ids xset.plan.operations))
      (Exn.value_error "selection contains unknown operation ids")
  raise_if (has_unknown (keys xset.status) xset.selection)
      (Exn.value_error "status contains unselected operation ids")
  ok xset

-- `remaining`
abbrev pub is_remaining : List String → Dict String Outcome → PlanOperation → Bool
is_remaining selection status operation =
    contains selection operation.op_id && not (is_some (get operation.op_id status))

unfoldable pub remaining : ExecutionSet → List PlanOperation
remaining xset = keep (is_remaining xset.selection xset.status) xset.plan.operations
