-- ===== src/Planner/Emptying.antt =====
-- The removal of a directory depends on operations before it (namisync/modules/planner.py).
use nami_sync.Base.{
  ◌≡◌, Bool, true, ◌||◌, String, string_eq, List, [], ◌∷◌, ◌++◌, Option-cases, Bool-cases, inl, inr,
  contains, arith,
}
use nami_sync.Base.Dict.{Dict, put}
use nami_sync.Base.Lists.{All, All-append, All-map, keep}
use nami_sync.Base.Sorting.{All-sorted, All-distinct}
use nami_sync.Models.Records.{DirRecord}
use nami_sync.Paths.{Text, text_eq}
use nami_sync.Planner.Backward.{Known, Within, IsBackward}
use nami_sync.Planner.Cleanup.{
  CleanupContext, cleanup, cleanup_operation, cleanup_dependencies, removals_below, removal_by_path,
  removed_path, ids_of, is_child, string_leb, is_skipped, is_occupied,
}
use nami_sync.Planner.Assigning.{source_identity_eq}
use nami_sync.Planner.Removals.{values_of}
use nami_sync.Planner.Staged.{snoc-IsBackward, Within-snoc, contains_snoc}
use nami_sync.Planning.{PlanOperation, op_ids}
use nami_sync.Planning.Options.{Platform}

Known-append :
    (known xs ys : List String) → Known known xs → Known known ys → Known known (xs ++ ys)
Known-append known xs ys = All-append (λ id. contains known id ≡ true) xs ys

-- The ids of a dictionary's operations are known, entry by entry.
abbrev pub Entries : List String → Dict Text PlanOperation → Type 0
Entries known removals = All (λ entry. contains known entry.1.op_id ≡ true) removals

Entries-put :
    (known : List String) (key : Text) (operation : PlanOperation)
    (removals : Dict Text PlanOperation)
    → contains known operation.op_id ≡ true
    → Entries known removals
    → Entries known (put key operation removals)
unfolding put
Entries-put known key operation [] h e = (h, tt)
Entries-put known key operation ((j, other) ∷ removals) h e =
    ground (arith, Entries-put known key operation removals h e.1)

pub removal_by_path-Entries :
    (known : List String) (operations : List PlanOperation) (removals : Dict Text PlanOperation)
    → Known known (op_ids operations)
    → Entries known removals
    → Entries known (removal_by_path operations removals)
unfolding removal_by_path
removal_by_path-Entries known [] removals h e = e
removal_by_path-Entries known (operation ∷ operations) removals h e =
    elim (Option-cases (removed_path operation)) [
      | inl kept ↦
          rw (kept, removal_by_path) (removal_by_path-Entries known operations removals h.1 e)
      | inr (path, gone) ↦
          rw (gone, removal_by_path)
            (removal_by_path-Entries known operations (put path operation removals) h.1
              (Entries-put known path operation removals h.0 e))
    ]

removals_below-Known :
    (platform : Platform) (excluded : Text → Bool) (context : CleanupContext) (known : List String)
    (directory : DirRecord) (removals : Dict Text PlanOperation)
    → Entries known removals
    → Known known (removals_below platform excluded context directory removals)
unfolding removals_below
removals_below-Known platform excluded context known directory [] e = tt
removals_below-Known platform excluded context known directory ((path, operation) ∷ removals) e =
    ground (arith, removals_below-Known platform excluded context known directory removals e.1)

children-Known :
    (known : List String) (directory : DirRecord) (cleanups : Dict Text PlanOperation)
    → Entries known cleanups
    → Known known (
        ids_of
          (keep (λ operation. is_child operation.target_rel_path directory) (values_of cleanups)))
children-Known known directory [] e = tt
children-Known known directory ((path, operation) ∷ cleanups) e =
    ground (arith, children-Known known directory cleanups e.1)

cleanup_dependencies-Known :
    (platform : Platform) (excluded : Text → Bool) (context : CleanupContext) (known : List String)
    (cleanups : Dict Text PlanOperation) (directory : DirRecord)
    → Entries known context.removals
    → Entries known cleanups
    → Known known (cleanup_dependencies platform excluded context cleanups directory)
unfolding cleanup_dependencies
cleanup_dependencies-Known platform excluded context known cleanups directory removals cleaned =
    All-sorted string_leb (λ id. contains known id ≡ true) _
      (All-distinct (λ id. contains known id ≡ true) _
        (Known-append known _ _
          (removals_below-Known platform excluded context known directory context.removals removals)
          (children-Known known directory cleanups cleaned)))

Entries-Within :
    (known wider : List String) (d : Dict Text PlanOperation)
    → Within known wider
    → Entries known d
    → Entries wider d
Entries-Within known wider d f = All-map _ _ (λ entry. f entry.1.op_id) d

-- The loop keeps its operations backward from the removals, and its dictionary among them.
pub cleanup-IsBackward :
    (platform : Platform) (excluded : Text → Bool) (context : CleanupContext) (known : List String)
    (directories : List DirRecord) (operations : List PlanOperation)
    (cleanups : Dict Text PlanOperation)
    → Entries known context.removals
    → IsBackward known operations
    → ((wider : List String)
        → Within known wider
        → Within (op_ids operations) wider
        → Entries wider cleanups)
    → IsBackward known (cleanup platform excluded context directories operations cleanups)
unfolding cleanup
cleanup-IsBackward platform excluded context known [] operations cleanups r b c = b
cleanup-IsBackward platform excluded context known (directory ∷ directories) operations cleanups r b
      c =
    elim (Bool-cases (
      is_skipped platform excluded context directory
      || is_occupied platform excluded context cleanups directory)) [
        | inl skipped ↦
            rw (skipped, cleanup)
              (cleanup-IsBackward platform excluded context known directories operations cleanups r
                b c)
        | inr kept ↦
            let operation =
              cleanup_operation platform excluded context directory
                (cleanup_dependencies platform excluded context cleanups directory) in
            rw (kept, cleanup)
              (cleanup-IsBackward platform excluded context known directories
                (operations ++ operation ∷ []) (put directory.rel_path_key operation cleanups) r
                (snoc-IsBackward known operations operation b (λ wider w v.
                  cleanup_dependencies-Known platform excluded context wider cleanups directory
                    (Entries-Within known wider context.removals w r) (c wider w v)))
                (λ wider w v.
                  Entries-put wider directory.rel_path_key operation cleanups
                    (v _ (contains_snoc operations operation))
                    (c wider w (λ id h. v id (Within-snoc operations operation id h)))))
      ]
