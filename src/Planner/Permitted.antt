-- ===== src/Planner/Permitted.antt =====
-- What a plan removes under each deletion policy (namisync/modules/planner.py).
use nami_sync.Base.{◌≡◌, Bool, true, false}
use nami_sync.Base.Dict.{Dict}
use nami_sync.Paths.{text_eq}
use nami_sync.Planner.Assigning.{source_identity_eq}
use nami_sync.Planning.{OperationKind, kind_eq, OperationReason, PlanOperation}
use nami_sync.Policies.{DeletionPolicy, plan_scope_eq}

-- What a policy permits: files to the trash under `TRASH`, deleted files under `MIRROR`, and the
-- removal of directories under both.
abbrev permits : DeletionPolicy → OperationKind → OperationReason → Bool
permits DeletionPolicy.trash OperationKind.trash reason = true
permits policy OperationKind.trash reason = false
permits DeletionPolicy.mirror OperationKind.delete reason = true
permits DeletionPolicy.trash OperationKind.delete OperationReason.directory_cleanup = true
permits policy OperationKind.delete reason = false
permits policy kind reason = true

abbrev pub IsPermitted : DeletionPolicy → PlanOperation → Type 0
IsPermitted policy operation = permits policy operation.kind operation.reason ≡ true
