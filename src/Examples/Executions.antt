-- ===== src/Examples/Executions.antt =====
-- An execution request as a payload (namisync/workflows/payloads.py).
use native.Mathlib.Decide.{ℕ_discrete}
use nami_sync.Base.{◌≡◌, refl, true, false, string_eq, List, [], ◌∷◌, ℕ, none, some, ok, pos, arith}
use nami_sync.Base.Dict.{get}
use nami_sync.Base.Sorting.{distinct, sorted}
use nami_sync.Planner.Cleanup.{string_leb}
use nami_sync.Evidence.{Outcome, Datetime}
use nami_sync.Examples.Payloads.{strict, copied}
use nami_sync.Examples.Plans.{ascii}
use nami_sync.Examples.Selections.{ntfs}
use nami_sync.Execution.{make_execution_set, make_commitment, remaining}
use nami_sync.Models.{VolumeId}
use nami_sync.Paths.{codes, text_eq, check_component}
use nami_sync.Payloads.Executed.{
  IsRequest, set_back, decode_execution_request-encode_execution_request,
}
use nami_sync.Payloads.Executions.{
  ExecutionRequest, TimeTexts, encode_execution_request, decode_execution_request,
}
use nami_sync.Payloads.Operations.{make_operation}
use nami_sync.Payloads.Planned.{IsPlan}
use nami_sync.Payloads.Plans.{make_root, make_item, make_plan}
use nami_sync.Payloads.Requests.{make_filters}
use nami_sync.Payloads.Stats.{make_volume, make_identity, make_stat, make_profile}
use nami_sync.Planning.{Plan, PlanOperation, is_dependency_ordered}
use nami_sync.Policies.{DeletionPolicy}

abbrev disks : List VolumeId
disks = record { serial = "b"; fs_type = "NTFS" } ∷ record { serial = "a"; fs_type = "NTFS" } ∷ []

abbrev first : PlanOperation
first = record copied { dependencies = [] }

abbrev later : PlanOperation
later = record copied {
  op_id = "fedcba9876543210fedcba9876543210";
  dependencies = "0123456789abcdef0123456789abcdef" ∷ [];
}

abbrev two_copies : Plan
two_copies = record {
  source_root = record { path = codes "C:\\S"; root_id = "source" };
  target_root = record { path = codes "D:\\T"; root_id = "target" };
  source_volume_id = some (record { serial = "b"; fs_type = "NTFS" });
  target_volume_id = some (record { serial = "a"; fs_type = "NTFS" });
  source_volume_evidence =
      some (record { label = some "data"; device_id = none; clone_ambiguous = false });
  target_volume_evidence = none;
  source_profile = ntfs;
  target_profile = ntfs;
  source_complete = true;
  target_complete = true;
  operations = first ∷ later ∷ [];
  assignment = record {
    policy_name = "identity";
    policy_version = "1";
    items =
        record {
          source_rel_path = codes "A";
          source_rel_path_key = codes "A";
          target_rel_path = codes "A";
          target_rel_path_key = codes "A";
          group_id = none;
          conflict = some "collision";
        }
        ∷ [];
  };
  preservation = record { preserve_ads = false; preserve_created = true; preserve_acl = false };
  filter_snapshot = record { patterns = "*.tmp" ∷ [] };
  deletion_policy = DeletionPolicy.trash;
  trash_on_update = true;
  policy_fingerprint = "p";
  worker_count = 1;
  required_volumes = disks;
  required_bytes = 7;
  fingerprint = "f";
}

abbrev noon : Datetime
noon = record { instant = 12; utc_offset = some (pos 0) }

-- Texts of the one time that the example has.
abbrev clock : TimeTexts
clock = record { isoformat = λ time. "noon"; fromisoformat = λ text. ok noon }

abbrev digest : List ℕ
digest =
    255 ∷ 16 ∷ 2 ∷ 3 ∷ 4 ∷ 5 ∷ 6 ∷ 7 ∷ 8 ∷ 9 ∷ 10 ∷ 11 ∷ 12 ∷ 13 ∷ 14 ∷ 15 ∷ 16 ∷ 17 ∷ 18 ∷ 19 ∷ 20
    ∷ 21 ∷ 22 ∷ 23 ∷ 24 ∷ 25 ∷ 26 ∷ 27 ∷ 28 ∷ 29 ∷ 30 ∷ 31 ∷ []

-- The first copy is done, the second remains.
abbrev halfway : ExecutionRequest
halfway = record {
  execution_set = record {
    plan = two_copies;
    selection = "fedcba9876543210fedcba9876543210" ∷ "0123456789abcdef0123456789abcdef" ∷ [];
    run_id = "00000000000000000000000000000001";
    status = ("0123456789abcdef0123456789abcdef", Outcome.succeeded) ∷ [];
    commitment =
        some (record { plan_fingerprint = "f"; selection_digest = digest; committed_at = noon });
  };
  started_at = some noon;
}

first_made : make_operation ascii.upper first ≡ ok first
unfolding make_operation ℕ_discrete text_eq check_component
first_made = refl

later_made : make_operation ascii.upper later ≡ ok later
unfolding make_operation ℕ_discrete text_eq check_component
later_made = refl

two_copies-IsPlan : IsPlan ascii.upper two_copies
unfolding make_root make_volume make_profile make_identity make_stat make_item make_filters
    make_plan is_dependency_ordered ℕ_discrete text_eq check_component string_eq
two_copies-IsPlan = record {
  source_root = refl;
  target_root = refl;
  source_volume = refl;
  target_volume = refl;
  source_profile = refl;
  target_profile = refl;
  operations = (
    (first_made, (refl, refl), tt, (tt, refl), tt),
    ((later_made, (refl, refl), tt, (tt, refl), tt), tt),
  );
  items = (refl, tt);
  filters = refl;
  volumes = (refl, (refl, tt));
  ordered = refl;
}

halfway-IsRequest : IsRequest ascii.upper clock halfway
unfolding make_execution_set make_commitment ℕ_discrete string_eq get
halfway-IsRequest = record {
  plan = two_copies-IsPlan;
  made = refl;
  unique = (refl, tt);
  committed = (refl, ground arith, refl);
  started = refl;
}

decode_execution_request-encode_execution_request_example :
    (decode_execution_request ascii.upper strict clock (encode_execution_request clock halfway)
      ≡ ok (record halfway { execution_set = set_back halfway.execution_set }))
    × (remaining (set_back halfway.execution_set) ≡ remaining halfway.execution_set)
decode_execution_request-encode_execution_request_example =
    decode_execution_request-encode_execution_request ascii.upper strict clock halfway
      halfway-IsRequest

-- The second copy remains after the payload is read back.
second_remains : remaining (set_back halfway.execution_set) ≡ later ∷ []
unfolding remaining distinct sorted string_leb string_eq get ℕ_discrete
second_remains = refl
