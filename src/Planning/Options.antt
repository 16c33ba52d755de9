-- ===== src/Planning/Options.antt =====
-- The options of a plan, the identity destination policy and the ids of operations
-- (namisync/core/planning.py). What Python's libraries compute is a `Platform`.
use nami_sync.Base.{
  Bool, not, ◌&&◌, String, List, [], ◌∷◌, map, ℕ, Option, none, Result, ok, ◌>>◌, raise_if, leb,
  ◌==◌,
}
use nami_sync.Base.Lists.{any}
use nami_sync.Base.Sorting.{sorted}
use nami_sync.Models.Records.{FileRecord, ScanResult}
use nami_sync.Paths.{Text, codes, uppercase_one_codepoint, path_key, canonical_separators}
use nami_sync.Paths.Parts.{ancestors, texts_leb}
use nami_sync.Planning.{Plan, OperationKind, OperationReason, FilterSet}
use nami_sync.Policies.{
  DeletionPolicy, deletion_eq, PreservationPolicy, DestinationAssignment, Assignment,
}

-- `IdentityDestinationPolicy`, or another object with a name, a version and an `assign`.
pub data DestinationPolicy : Type 0 where
  identity : String → String → DestinationPolicy
  other : String → String → (List FileRecord → ScanResult → Assignment) → DestinationPolicy

abbrev pub policy_name : DestinationPolicy → String
policy_name (identity name version) = name
policy_name (other name version assign) = name

abbrev pub policy_version : DestinationPolicy → String
policy_version (identity name version) = version
policy_version (other name version assign) = version

pub record SyncOptions : Type 0 where
  pub deletion_policy : DeletionPolicy
  pub preservation : PreservationPolicy
  pub filters : FilterSet
  pub destination_policy : DestinationPolicy
  pub worker_count : ℕ
  pub trash_on_update : Bool
  pub propagate_source_casing : Bool
  pub internal_mirror_authorized : Bool

pub data OptionsError : Type 0 where
  no_workers unauthorized_mirror : OptionsError

-- `SyncOptions.__post_init__`
unfoldable pub make_options : SyncOptions → Result OptionsError SyncOptions
unfolding deletion_eq
make_options options = do
  raise_if (leb options.worker_count 0) no_workers
  raise_if
      (options.deletion_policy == DeletionPolicy.mirror && not options.internal_mirror_authorized)
      unauthorized_mirror
  ok options

-- What `deterministic_operation_id` hashes.
pub record OperationIntent : Type 0 where
  pub kind : OperationKind
  pub source : Option Text
  pub target : Text
  pub prior_target : Option Text
  pub reason : OperationReason

-- What `policy_fingerprint` hashes.
pub record PolicyPayload : Type 0 where
  pub deletion_policy : DeletionPolicy
  pub preservation : PreservationPolicy
  pub filters : FilterSet
  pub policy_name : String
  pub policy_version : String
  pub worker_count : ℕ
  pub trash_on_update : Bool
  pub propagate_source_casing : Bool

-- Python's `str.upper` of one code point, `unicodedata.normalize("NFC", ...)`,
-- `fnmatch.fnmatchcase`, and `hashlib.sha256` of a value's canonical JSON.
pub record Platform : Type 0 where
  pub upper : ℕ → Text
  pub nfc : Text → Text
  pub fnmatchcase : Text → Text → Bool
  pub hash_intent : OperationIntent → String
  pub hash_policy : PolicyPayload → String
  pub hash_plan : Plan → String

-- The order of `sorted(records, key=lambda item: (item.rel_path_key, item.rel_path))`
unfoldable pub record_leb : FileRecord → FileRecord → Bool
unfolding texts_leb
record_leb a b = texts_leb (a.rel_path_key ∷ a.rel_path ∷ []) (b.rel_path_key ∷ b.rel_path ∷ [])

module _ (platform : Platform) where
  unfoldable pub deterministic_operation_id :
      OperationKind → Option Text → Text → Option Text → OperationReason → String
  deterministic_operation_id kind source target prior_target reason = platform.hash_intent (record {
    kind = kind;
    source = source;
    target = target;
    prior_target = prior_target;
    reason = reason;
  })

  unfoldable pub policy_fingerprint : SyncOptions → String
  policy_fingerprint options = platform.hash_policy (record {
    deletion_policy = options.deletion_policy;
    preservation = options.preservation;
    filters = options.filters;
    policy_name = policy_name options.destination_policy;
    policy_version = policy_version options.destination_policy;
    worker_count = options.worker_count;
    trash_on_update = options.trash_on_update;
    propagate_source_casing = options.propagate_source_casing;
  })

  -- `payload.pop("fingerprint", None)` is the empty text here.
  unfoldable pub plan_fingerprint : Plan → String
  plan_fingerprint plan = platform.hash_plan (record plan { fingerprint = "" })

  -- `candidate_keys` of `FilterSet.excludes`
  unfoldable pub candidate_keys : Text → List Text
  unfolding path_key ancestors
  candidate_keys path =
      path_key platform.upper path ∷ map (path_key platform.upper) (ancestors path)

  -- `FilterSet.excludes`
  unfoldable pub excludes : FilterSet → Text → Bool
  unfolding candidate_keys uppercase_one_codepoint
  excludes filters path =
      any
        (λ pattern.
          any
            (λ candidate.
              platform.fnmatchcase candidate
                (uppercase_one_codepoint platform.upper (codes pattern)))
            (candidate_keys path))
        filters.patterns

  abbrev assign_itself : FileRecord → DestinationAssignment
  assign_itself found = record {
    source_rel_path = found.rel_path;
    source_rel_path_key = found.rel_path_key;
    target_rel_path = canonical_separators found.rel_path;
    target_rel_path_key = path_key platform.upper found.rel_path;
    group_id = none;
    conflict = none;
  }

  -- `IdentityDestinationPolicy.assign`
  unfoldable pub assign_identity : String → String → List FileRecord → ScanResult → Assignment
  unfolding path_key sorted record_leb
  assign_identity name version records target = record {
    policy_name = name;
    policy_version = version;
    items = map assign_itself (sorted record_leb records);
  }

  -- `options.destination_policy.assign`
  unfoldable pub assign_by : DestinationPolicy → List FileRecord → ScanResult → Assignment
  unfolding assign_identity
  assign_by (identity name version) records target = assign_identity name version records target
  assign_by (other name version assign) records target = assign records target
