-- ===== src/Examples/Preflights.antt =====
-- Preflight at concrete inputs (namisync/modules/preflight.py).
use nami_sync.Base.{pos, false}
use native.Mathlib.Decide.{ℕ_discrete}
use nami_sync.Base.{◌≡◌, refl, true, false, [], ◌∷◌, none, some, string_eq, option_eq}
use nami_sync.Base.Dict.{get}
use nami_sync.Base.Lists.{All}
use nami_sync.Models.{volume_eq, entry_kind_eq, metadata_eq, identity_eq}
use nami_sync.Paths.{codes, text_eq, code_eq, path_key}
use nami_sync.Planning.{
  Plan, kind_eq, filter_eq, calculate_required_bytes, operation_bytes, quarantined_operation_ids,
}
use nami_sync.Execution.{remaining}
use nami_sync.Preflight.{ObservedWorld, subject_eq, stat_refusals, compare_stats, paths_overlap}
use nami_sync.Preflight.Judging.{
  preflight, root_refusals, drift_refusals, scan_refusals, blocked_refusals, dependency_refusals,
  trash_refusals, space_refusals, source_refusals, target_refusals, prior_refusals,
  operation_refusals, all_operation_refusals, all_parent_refusals,
}
use nami_sync.Preflight.Judging.Ready.{fresh_set}
use nami_sync.Preflight.Judging.Cleared.{IsCleared, has_room, preflight-IsCleared}
use nami_sync.Examples.Selections.{ascii_upper, mixed, disk_volume, two_drives}

-- Both scans are complete, the disk is there, and nothing stands where the copy goes.
abbrev whole : Plan
whole = record mixed { source_complete = true }

abbrev clear : ObservedWorld
clear = record {
  stats =
      (
        record { root_id = "target"; rel_path_key = codes "E" },
        record { stat = none; error = none; contained = true; representable = true },
      )
      ∷ [];
  paths = [];
  target_parent_paths = [];
  roots =
      (
        "source",
        record {
          resolved_path = some (codes "C");
          volume_id = some disk_volume;
          volume_evidence =
              some (record { label = none; device_id = none; clone_ambiguous = false });
          error = none;
        },
      )
      ∷ (
        "target",
        record {
          resolved_path = some (codes "D");
          volume_id = some disk_volume;
          volume_evidence = none;
          error = none;
        },
      )
      ∷ [];
  free_space = some 1000000;
  reclaimable_temp_bytes = 0;
  trash = none;
  current_filters = record { patterns = [] };
  current_policy_fingerprint = "p";
  observed_at = record { instant = 1; utc_offset = some (pos 0) };
  settings_error = none;
}

preflight-IsCleared_example :
    All
      (IsCleared ascii_upper (fresh_set "r" none whole ("3" ∷ [])) clear)
      (remaining (fresh_set "r" none whole ("3" ∷ [])))
    × (has_room (some 1000000) 0 (
          calculate_required_bytes
            (remaining (fresh_set "r" none whole ("3" ∷ [])))
            whole.target_profile
            true
            0)
        ≡ true)
unfolding preflight paths_overlap root_refusals drift_refusals scan_refusals blocked_refusals
    dependency_refusals trash_refusals space_refusals source_refusals target_refusals prior_refusals
    operation_refusals all_operation_refusals all_parent_refusals remaining stat_refusals
    compare_stats get string_eq option_eq volume_eq filter_eq kind_eq subject_eq text_eq code_eq
    quarantined_operation_ids path_key calculate_required_bytes operation_bytes ℕ_discrete
preflight-IsCleared_example =
    preflight-IsCleared ascii_upper two_drives (fresh_set "r" none whole ("3" ∷ [])) clear refl
