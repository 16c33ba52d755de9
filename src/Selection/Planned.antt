-- ===== src/Selection/Planned.antt =====
-- From a plan to its execution set (namisync/modules/planner.py, namisync/workflows/selection.py and
-- namisync/modules/preflight.py together).
use nami_sync.Base.{◌≡◌, false, Option, some, ok, String}
use nami_sync.Execution.{Commitment}
use nami_sync.Models.Records.{ScanResult}
use nami_sync.Planner.Assembly.{plan}
use nami_sync.Planner.Inverting.{plan-contents}
use nami_sync.Planning.{Plan}
use nami_sync.Planning.Options.{Platform, SyncOptions}
use nami_sync.Policies.{MappingSnapshot, Scope}
use nami_sync.Preflight.{OsPath, ObservedWorld}
use nami_sync.Preflight.Judging.Blameless.{blames_selection}
use nami_sync.Preflight.Judging.{preflight}
use nami_sync.Preflight.Judging.Derived.{preflight-blames_selection}
use nami_sync.Preflight.Judging.Ready.{fresh_set}
use nami_sync.Selection.{ExecutionSelection, derive_execution_selection}
use nami_sync.Selection.Closed.{derive_execution_selection_safe}

-- Whenever the planner returns a plan, the derivation over it ends in a selection, and preflight of
-- the execution set that is made of both, with no outcome yet, has no refusal that blames the
-- selection, whatever is observed of the world.
pub plan_is_ready :
    (platform : Platform) (source target : ScanResult) (correspondence : MappingSnapshot)
    (options : SyncOptions) (scope : Scope) (planned : Plan) (os : OsPath) (run_id : String)
    (commitment : Option Commitment)
    → plan platform source target correspondence options scope ≡ ok planned
    → (result : ExecutionSelection) × (derive_execution_selection platform.upper planned
        ≡ some result)
      × ((world : ObservedWorld)
          → blames_selection (
              preflight platform.upper os
                (fresh_set run_id commitment planned result.selection)
                world)
            ≡ false)
plan_is_ready platform source target correspondence options scope planned os run_id commitment
      returned =
    let (_, _, _, _, _, ordered) =
      plan-contents platform source target correspondence options scope planned returned in
    let (result, derived, safe) = derive_execution_selection_safe platform.upper planned ordered in
    (
      result,
      derived,
      λ world.
          preflight-blames_selection platform.upper os run_id commitment planned world result
            ordered derived,
    )
