-- ===== src/Examples/Selections.antt =====
-- Derived selections at concrete plans (namisync/workflows/selection.py).
use nami_sync.Preflight.{ObservedWorld, OsPath}
use nami_sync.Preflight.Judging.{preflight}
use nami_sync.Preflight.Judging.Blameless.{blames_selection}
use nami_sync.Preflight.Judging.Ready.{fresh_set}
use nami_sync.Preflight.Judging.Derived.{preflight-blames_selection}
use nami_sync.Models.{VolumeId, CapabilityProfile}
use nami_sync.Policies.{DeletionPolicy}
use nami_sync.Planning.{Plan}
use native.Mathlib.Decide.{ℕ_discrete}
use nami_sync.Base.{
  pos, ◌≡◌, refl, Bool, true, false, String, List, [], ◌∷◌, ℕ, Option, none, some, arith, contains,
  string_eq, not, ◌==◌, ◌&&◌,
}
use nami_sync.Base.Lists.{All, any}
use nami_sync.Base.Dict.{get, put}
use nami_sync.Evidence.{Outcome}
use nami_sync.Paths.{Text, codes, code_eq, text_eq}
use nami_sync.Planning.{
  PlanOperation, OperationKind, OperationReason, BlockedReason, is_dependency_ordered,
  quarantined_operation_ids, kind_eq,
}
use nami_sync.Selection.{
  ExecutionSelection, Reason, ExclusionReason, Detail, derive_execution_selection, first_exclusions,
  for_each, exclude_blocked, exclude_quarantined, exclude_unsafe, propagate_one, propagate, settle,
}
use nami_sync.Selection.Safe.{is_incomplete, quarantined}
use nami_sync.Selection.Closed.{IsSelectable, derive_execution_selection_safe}
use nami_sync.Selection.Keyed.{withheld}
use nami_sync.Selection.Accounting.{has_cause, derive_execution_selection_accounts}

-- The uppercase mapping of the ASCII letters.
abbrev pub ascii_upper : ℕ → Text
ascii_upper c =
    nami_sync.Base.if◌then◌else◌ (nami_sync.Base.leb b'a' c && nami_sync.Base.leb c b'z')
      (nami_sync.Base.◌-◌ c 32 ∷ []) (c ∷ [])

abbrev operation :
    String → OperationKind → String → List String → Option BlockedReason → PlanOperation
operation id kind path dependencies blocked = record {
  op_id = id;
  kind = kind;
  source_rel_path = some (codes path);
  target_rel_path = codes path;
  source_expected = none;
  target_expected = none;
  intended = none;
  prior_target_rel_path = none;
  prior_target_expected = none;
  metadata = none;
  content_bytes = 0;
  dependencies = dependencies;
  reason = OperationReason.source_only;
  blocked_reason = blocked;
}

abbrev pub disk_volume : VolumeId
disk_volume = record { serial = "0001"; fs_type = "NTFS" }

abbrev pub ntfs : CapabilityProfile
ntfs = record {
  fs_type = "NTFS";
  mtime_granularity_ns = 100;
  stable_file_identity = true;
  incurs_seek_penalty = none;
  max_path = 32767;
  supports_ads = true;
  supports_hardlinks = true;
}

-- A blocked directory `d`, a copy below it, a copy elsewhere, and a deletion.
abbrev pub mixed : Plan
mixed = record {
  operations =
      operation "1" OperationKind.mkdir "d" [] (some BlockedReason.type_collision)
      ∷ operation "2" OperationKind.copy "D/a" ("1" ∷ []) none
      ∷ operation "3" OperationKind.copy "e" [] none
      ∷ operation "4" OperationKind.trash "f" [] none
      ∷ operation "5" OperationKind.trash "g" ("4" ∷ []) none
      ∷ [];
  source_complete = false;
  target_complete = true;
  source_root = record { path = codes "C:\\S"; root_id = "source" };
  target_root = record { path = codes "C:\\T"; root_id = "target" };
  source_volume_evidence = none;
  target_volume_evidence = none;
  source_volume_id = some disk_volume;
  target_volume_id = some disk_volume;
  source_profile = ntfs;
  target_profile = ntfs;
  filter_snapshot = record { patterns = [] };
  trash_on_update = true;
  policy_fingerprint = "p";
  assignment = record { policy_name = "identity"; policy_version = "1"; items = [] };
  preservation = record { preserve_ads = false; preserve_created = true; preserve_acl = false };
  deletion_policy = DeletionPolicy.trash;
  worker_count = 1;
  required_volumes = disk_volume ∷ [];
  required_bytes = 0;
  fingerprint = "f";
}

abbrev derived : ExecutionSelection
derived = record {
  selection = "3" ∷ [];
  exclusions =
      record {
        op_id = "1";
        outcome = Outcome.blocked;
        reason = Reason.blocked BlockedReason.type_collision;
        detail = Detail.nothing;
      }
      ∷ record {
        op_id = "2";
        outcome = Outcome.deferred;
        reason = Reason.excluded ExclusionReason.blocked_correspondence;
        detail = Detail.nothing;
      }
      ∷ record {
        op_id = "4";
        outcome = Outcome.deferred;
        reason = Reason.excluded ExclusionReason.incomplete_scan;
        detail = Detail.sides_incomplete ("source" ∷ []);
      }
      ∷ record {
        op_id = "5";
        outcome = Outcome.deferred;
        reason = Reason.excluded ExclusionReason.incomplete_scan;
        detail = Detail.sides_incomplete ("source" ∷ []);
      }
      ∷ [];
}

derived_lem : derive_execution_selection ascii_upper mixed ≡ some derived
unfolding derive_execution_selection first_exclusions for_each exclude_blocked exclude_quarantined
    exclude_unsafe propagate propagate_one settle get put string_eq quarantined_operation_ids
    ℕ_discrete
derived_lem = refl

derive_execution_selection_safe_example :
    (result : ExecutionSelection) × (derive_execution_selection ascii_upper mixed ≡ some result)
    × All
        (λ operation.
          contains result.selection operation.op_id ≡ true
          → IsSelectable
              (quarantined ascii_upper mixed)
              (is_incomplete mixed)
              result.selection
              operation)
        mixed.operations
unfolding is_dependency_ordered string_eq
derive_execution_selection_safe_example = derive_execution_selection_safe ascii_upper mixed refl

derive_execution_selection_accounts_example :
    All
      (λ operation.
        (contains derived.selection operation.op_id
          ≡ not (withheld operation.op_id derived.exclusions))
        × (withheld operation.op_id derived.exclusions ≡ true
            → any
                (λ o.
                  o.op_id == operation.op_id
                  && has_cause
                      (quarantined ascii_upper mixed)
                      (is_incomplete mixed)
                      derived.exclusions
                      o)
                mixed.operations
              ≡ true))
      mixed.operations
derive_execution_selection_accounts_example =
    derive_execution_selection_accounts ascii_upper mixed derived derived_lem

-- A world in which nothing could be observed.
abbrev dark : ObservedWorld
dark = record {
  stats = [];
  paths = [];
  target_parent_paths = [];
  roots = [];
  free_space = none;
  reclaimable_temp_bytes = 0;
  trash = none;
  current_filters = record { patterns = [] };
  current_policy_fingerprint = "p";
  observed_at = record { instant = 1; utc_offset = some (pos 0) };
  settings_error = none;
}

-- Paths as they are, with nothing in common.
abbrev pub two_drives : OsPath
two_drives = record {
  normcase = λ path. path;
  abspath = λ path. path;
  commonpath = λ source target. none;
}

preflight-blames_selection_example :
    blames_selection (preflight ascii_upper two_drives (fresh_set "r" none mixed ("3" ∷ [])) dark)
    ≡ false
unfolding is_dependency_ordered string_eq
preflight-blames_selection_example =
    preflight-blames_selection ascii_upper two_drives "r" none mixed dark derived refl derived_lem
