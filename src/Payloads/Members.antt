-- ===== src/Payloads/Members.antt =====
-- The members of the enumerations by their values (namisync/core/planning.py, models.py).
use nami_sync.Base.{
  ◌≡◌, refl, String, string_eq, List, [], ◌∷◌, Result, ok, err, if◌then◌else◌, ◌==◌,
}
use nami_sync.Evidence.{Outcome}
use nami_sync.Models.{EntryKind}
use nami_sync.Payloads.{PayloadError}
use nami_sync.Planning.{OperationKind, OperationReason, BlockedReason}
use nami_sync.Policies.{DeletionPolicy}

-- `Members(value)`: the first member with the value.
unfoldable pub member_named : {A : Type 0} → (A → String) → List A → String → Result PayloadError A
unfolding string_eq
member_named value [] name = err PayloadError.unknown_member
member_named value (member ∷ members) name =
    let rest = member_named value members name in if name == value member then ok member else rest

unfoldable pub entry_kind_value : EntryKind → String
entry_kind_value EntryKind.file = "file"
entry_kind_value EntryKind.directory = "directory"

unfoldable pub decode_entry_kind : String → Result PayloadError EntryKind
unfolding member_named entry_kind_value
decode_entry_kind = member_named entry_kind_value (EntryKind.file ∷ EntryKind.directory ∷ [])

unfoldable pub deletion_value : DeletionPolicy → String
deletion_value DeletionPolicy.trash = "trash"
deletion_value DeletionPolicy.additive = "additive"
deletion_value DeletionPolicy.mirror = "mirror"

unfoldable pub decode_deletion : String → Result PayloadError DeletionPolicy
unfolding member_named deletion_value
decode_deletion =
    member_named deletion_value
      (DeletionPolicy.trash ∷ DeletionPolicy.additive ∷ DeletionPolicy.mirror ∷ [])

unfoldable pub kind_value : OperationKind → String
kind_value OperationKind.copy = "copy"
kind_value OperationKind.update = "update"
kind_value OperationKind.move = "move"
kind_value OperationKind.move_update = "move_update"
kind_value OperationKind.recase = "recase"
kind_value OperationKind.mkdir = "mkdir"
kind_value OperationKind.trash = "trash"
kind_value OperationKind.delete = "delete"
kind_value OperationKind.noop = "noop"

unfoldable pub decode_kind : String → Result PayloadError OperationKind
unfolding member_named kind_value
decode_kind = member_named kind_value (
    OperationKind.copy ∷ OperationKind.update ∷ OperationKind.move ∷ OperationKind.move_update
    ∷ OperationKind.recase ∷ OperationKind.mkdir ∷ OperationKind.trash ∷ OperationKind.delete
    ∷ OperationKind.noop ∷ [])

unfoldable pub reason_value : OperationReason → String
reason_value OperationReason.source_only = "source_only"
reason_value OperationReason.metadata_changed = "metadata_changed"
reason_value OperationReason.metadata_match = "metadata_match"
reason_value OperationReason.identity_rename = "identity_rename"
reason_value OperationReason.identity_rename_changed = "identity_rename_changed"
reason_value OperationReason.required_directory = "required_directory"
reason_value OperationReason.empty_directory = "empty_directory"
reason_value OperationReason.target_only = "target_only"
reason_value OperationReason.directory_cleanup = "directory_cleanup"
reason_value OperationReason.unsupported = "unsupported"
reason_value OperationReason.case_mismatch = "case_mismatch"
reason_value OperationReason.unicode_normalization_mismatch = "unicode_normalization_mismatch"
reason_value OperationReason.case_collision = "case_collision"
reason_value OperationReason.type_collision = "type_collision"
reason_value OperationReason.policy_collision = "policy_collision"

unfoldable pub decode_reason : String → Result PayloadError OperationReason
unfolding member_named reason_value
decode_reason = member_named reason_value (
    OperationReason.source_only ∷ OperationReason.metadata_changed ∷ OperationReason.metadata_match
    ∷ OperationReason.identity_rename ∷ OperationReason.identity_rename_changed
    ∷ OperationReason.required_directory ∷ OperationReason.empty_directory
    ∷ OperationReason.target_only ∷ OperationReason.directory_cleanup ∷ OperationReason.unsupported
    ∷ OperationReason.case_mismatch ∷ OperationReason.unicode_normalization_mismatch
    ∷ OperationReason.case_collision ∷ OperationReason.type_collision
    ∷ OperationReason.policy_collision ∷ [])

unfoldable pub blocked_value : BlockedReason → String
blocked_value BlockedReason.unsupported = "unsupported"
blocked_value BlockedReason.case_mismatch = "case_mismatch"
blocked_value BlockedReason.case_collision = "case_collision"
blocked_value BlockedReason.type_collision = "type_collision"
blocked_value BlockedReason.destination_collision = "destination_collision"
blocked_value BlockedReason.blocked_dependency = "blocked_dependency"

unfoldable pub decode_blocked : String → Result PayloadError BlockedReason
unfolding member_named blocked_value
decode_blocked = member_named blocked_value (
    BlockedReason.unsupported ∷ BlockedReason.case_mismatch ∷ BlockedReason.case_collision
    ∷ BlockedReason.type_collision ∷ BlockedReason.destination_collision
    ∷ BlockedReason.blocked_dependency ∷ [])

unfoldable pub outcome_value : Outcome → String
outcome_value Outcome.succeeded = "succeeded"
outcome_value Outcome.skipped = "skipped"
outcome_value Outcome.failed = "failed"
outcome_value Outcome.canceled = "canceled"
outcome_value Outcome.deferred = "deferred"
outcome_value Outcome.blocked = "blocked"

unfoldable pub decode_outcome : String → Result PayloadError Outcome
unfolding member_named outcome_value
decode_outcome = member_named outcome_value (
    Outcome.succeeded ∷ Outcome.skipped ∷ Outcome.failed ∷ Outcome.canceled ∷ Outcome.deferred
    ∷ Outcome.blocked ∷ [])

pub decode_entry_kind-entry_kind_value :
    (kind : EntryKind) → decode_entry_kind (entry_kind_value kind) ≡ ok kind
unfolding decode_entry_kind
decode_entry_kind-entry_kind_value EntryKind.file = refl
decode_entry_kind-entry_kind_value EntryKind.directory = refl

pub decode_deletion-deletion_value :
    (policy : DeletionPolicy) → decode_deletion (deletion_value policy) ≡ ok policy
unfolding decode_deletion
decode_deletion-deletion_value DeletionPolicy.trash = refl
decode_deletion-deletion_value DeletionPolicy.additive = refl
decode_deletion-deletion_value DeletionPolicy.mirror = refl

pub decode_kind-kind_value : (kind : OperationKind) → decode_kind (kind_value kind) ≡ ok kind
unfolding decode_kind
decode_kind-kind_value OperationKind.copy = refl
decode_kind-kind_value OperationKind.update = refl
decode_kind-kind_value OperationKind.move = refl
decode_kind-kind_value OperationKind.move_update = refl
decode_kind-kind_value OperationKind.recase = refl
decode_kind-kind_value OperationKind.mkdir = refl
decode_kind-kind_value OperationKind.trash = refl
decode_kind-kind_value OperationKind.delete = refl
decode_kind-kind_value OperationKind.noop = refl

pub decode_reason-reason_value :
    (reason : OperationReason) → decode_reason (reason_value reason) ≡ ok reason
unfolding decode_reason
decode_reason-reason_value OperationReason.source_only = refl
decode_reason-reason_value OperationReason.metadata_changed = refl
decode_reason-reason_value OperationReason.metadata_match = refl
decode_reason-reason_value OperationReason.identity_rename = refl
decode_reason-reason_value OperationReason.identity_rename_changed = refl
decode_reason-reason_value OperationReason.required_directory = refl
decode_reason-reason_value OperationReason.empty_directory = refl
decode_reason-reason_value OperationReason.target_only = refl
decode_reason-reason_value OperationReason.directory_cleanup = refl
decode_reason-reason_value OperationReason.unsupported = refl
decode_reason-reason_value OperationReason.case_mismatch = refl
decode_reason-reason_value OperationReason.unicode_normalization_mismatch = refl
decode_reason-reason_value OperationReason.case_collision = refl
decode_reason-reason_value OperationReason.type_collision = refl
decode_reason-reason_value OperationReason.policy_collision = refl

pub decode_blocked-blocked_value :
    (reason : BlockedReason) → decode_blocked (blocked_value reason) ≡ ok reason
unfolding decode_blocked
decode_blocked-blocked_value BlockedReason.unsupported = refl
decode_blocked-blocked_value BlockedReason.case_mismatch = refl
decode_blocked-blocked_value BlockedReason.case_collision = refl
decode_blocked-blocked_value BlockedReason.type_collision = refl
decode_blocked-blocked_value BlockedReason.destination_collision = refl
decode_blocked-blocked_value BlockedReason.blocked_dependency = refl

pub decode_outcome-outcome_value :
    (outcome : Outcome) → decode_outcome (outcome_value outcome) ≡ ok outcome
unfolding decode_outcome
decode_outcome-outcome_value Outcome.succeeded = refl
decode_outcome-outcome_value Outcome.skipped = refl
decode_outcome-outcome_value Outcome.failed = refl
decode_outcome-outcome_value Outcome.canceled = refl
decode_outcome-outcome_value Outcome.deferred = refl
decode_outcome-outcome_value Outcome.blocked = refl
