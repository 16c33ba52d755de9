-- ===== src/Planner/Emptied.antt =====
-- What is left of a directory that a plan removes (namisync/modules/planner.py).
use nami_sync.Base.{
  ◌≡◌, refl, Bool, true, false, not, ◌||◌, ◌&&◌, List, [], ◌∷◌, ◌++◌, map, some, option_eq,
  contains, Bool-cases, inl, inr, arith, ◌==◌, ==_refl, ==_sound,
}
use nami_sync.Base.Dict.{Dict, put}
use nami_sync.Base.Lists.{All, All-append, All-map, any, any-append, any_false→All}
use nami_sync.Models.Records.{FileRecord, DirRecord}
use nami_sync.Paths.{Text, text_eq}
use nami_sync.Paths.Parts.{parent_of}
use nami_sync.Planner.Cleanup.{
  CleanupContext, cleanup, cleanup_operation, is_skipped, is_occupied, cleanup_dependencies,
  is_excluded_child, is_remaining_file, is_remaining_directory, is_child,
}
use nami_sync.Planner.Pairing.{is_nonempty}
use nami_sync.Planner.{is_descendant}
use nami_sync.Planning.{OperationKind, OperationReason, PlanOperation}
use nami_sync.Planning.Options.{Platform}

abbrev removes_directory : OperationKind → OperationReason → Bool
removes_directory OperationKind.delete OperationReason.directory_cleanup = true
removes_directory kind reason = false

-- The operation removes a directory.
abbrev pub is_cleanup : PlanOperation → Bool
is_cleanup operation = removes_directory operation.kind operation.reason

-- One of the operations removes a directory of the key.
abbrev pub is_cleaned : List DirRecord → List PlanOperation → Text → Bool
is_cleaned dirs operations key =
    any
      (λ operation.
        is_cleanup operation
        && any (λ dir. dir.rel_path == operation.target_rel_path && dir.rel_path_key == key) dirs)
      operations

module _ (platform : Platform) (excluded : Text → Bool) (context : CleanupContext)
    (is_taken : Text → Bool) (operations : List PlanOperation) (path : Text) where
  -- A file below the path, if it is one, is taken away.
  abbrev IsGone : FileRecord → Type 0
  IsGone found =
      is_descendant platform found.rel_path path ≡ true → is_taken found.rel_path_key ≡ true

  -- An entry below the path, if it is one, is not one that the filters exclude.
  abbrev IsIncluded : Text → Type 0
  IsIncluded entry =
      is_descendant platform entry path ≡ true
      → (not (entry == path) && is_nonempty entry && excluded entry) ≡ false

  -- A directory in the path, if it is one, is removed too, or the plan needs one of its key.
  abbrev IsCleared : DirRecord → Type 0
  IsCleared child =
      (parent_of child.rel_path == some path) ≡ true
      → (is_cleaned context.target_dirs operations child.rel_path_key
          || contains context.desired_keys child.rel_path_key)
        ≡ true

  -- The path is one of a target directory that the plan does not need and the filters do not exclude,
  -- and nothing is left in it.
  pub record IsEmptied : Type 0 where
    is_unneeded :
        any
          (λ dir. dir.rel_path == path && not (contains context.desired_keys dir.rel_path_key))
          context.target_dirs
        ≡ true
    is_included : excluded path ≡ false
    files_gone : All IsGone context.target.files
    files_included : All (λ found. IsIncluded found.rel_path) context.target.files
    dirs_included : All (λ found. IsIncluded found.rel_path) context.target.directories
    all_supported :
        All (λ found. is_descendant platform found.rel_path path ≡ false) context.target.unsupported
    dirs_cleared : All IsCleared context.target_dirs

-- If the operation removes a directory, that is one that the operations of the plan empty.
abbrev pub Empties :
    Platform
    → (Text → Bool)
    → CleanupContext
    → (Text → Bool)
    → List PlanOperation
    → PlanOperation
    → Type 0
Empties platform excluded context is_taken whole operation =
    is_cleanup operation ≡ true
    → IsEmptied platform excluded context is_taken whole operation.target_rel_path

any_snoc :
    (test : PlanOperation → Bool) (operations : List PlanOperation) (operation : PlanOperation)
    → test operation ≡ true
    → any test (operations ++ operation ∷ []) ≡ true
any_snoc test [] operation h = rw h refl
any_snoc test (other ∷ operations) operation h =
    ground (arith, any_snoc test operations operation h)

keys_put :
    (key other : Text) (operation : PlanOperation) (cleanups : Dict Text PlanOperation)
    → contains (map (λ entry. entry.0) (put other operation cleanups)) key ≡ true
    → ((key == other) || contains (map (λ entry. entry.0) cleanups) key) ≡ true
unfolding put
keys_put key other operation [] h = h
keys_put key other operation ((k, old) ∷ cleanups) h =
    ground (arith, h, keys_put key other operation cleanups)

module _ (platform : Platform) (excluded : Text → Bool) (context : CleanupContext)
    (is_taken : Text → Bool)
    (taken : (key : Text) → contains context.removed_keys key ≡ true → is_taken key ≡ true)
    (whole : List PlanOperation) where
  -- The loop only adds operations.
  cleanup-keeps :
      (test : PlanOperation → Bool) (dirs : List DirRecord) (operations : List PlanOperation)
      (cleanups : Dict Text PlanOperation)
      → any test operations ≡ true
      → any test (cleanup platform excluded context dirs operations cleanups) ≡ true
  unfolding cleanup
  cleanup-keeps test [] operations cleanups h = h
  cleanup-keeps test (directory ∷ dirs) operations cleanups h =
      elim (Bool-cases (
        is_skipped platform excluded context directory
        || is_occupied platform excluded context cleanups directory)) [
          | inl skipped ↦ rw (skipped, cleanup) (cleanup-keeps test dirs operations cleanups h)
          | inr kept ↦
              let operation =
                cleanup_operation platform excluded context directory
                  (cleanup_dependencies platform excluded context cleanups directory) in
              rw (kept, cleanup)
                (cleanup-keeps test dirs (operations ++ operation ∷ []) _
                  (rw (any-append test operations (operation ∷ []), h) refl))
        ]

  -- Every key of the dictionary is of a directory that the operations remove.
  abbrev AreCleaned : Dict Text PlanOperation → Type 0
  AreCleaned cleanups =
      (key : Text)
      → contains (map (λ entry. entry.0) cleanups) key ≡ true
      → is_cleaned context.target_dirs whole key ≡ true

  abbrev Listed : DirRecord → Type 0
  Listed directory =
      (test : DirRecord → Bool) → test directory ≡ true → any test context.target_dirs ≡ true

  -- A directory that the loop removes is emptied.
  kept-IsEmptied :
      (directory : DirRecord) (cleanups : Dict Text PlanOperation)
      → Listed directory
      → AreCleaned cleanups
      → (is_skipped platform excluded context directory
          || is_occupied platform excluded context cleanups directory)
        ≡ false
      → IsEmptied platform excluded context is_taken whole directory.rel_path
  unfolding is_skipped is_occupied is_excluded_child is_remaining_file is_remaining_directory
      is_child
  kept-IsEmptied directory cleanups known cleaned kept = record {
    is_unneeded =
        known
          (λ dir.
            dir.rel_path == directory.rel_path
            && not (contains context.desired_keys dir.rel_path_key))
          (rw (==_refl directory.rel_path) (ground (arith, kept)));
    is_included = ground (arith, kept);
    files_gone =
        All-map _ _ (λ found h below. ground (arith, h, below, taken found.rel_path_key)) _
          (any_false→All (is_remaining_file platform excluded context directory)
            context.target.files (ground (arith, kept)));
    files_included =
        All-map _ _ (λ found h below. ground (arith, h, below)) _
          (any_false→All
            (λ found. is_excluded_child platform excluded context directory found.rel_path)
            context.target.files (ground (arith, kept)));
    dirs_included =
        All-map _ _ (λ found h below. ground (arith, h, below)) _
          (any_false→All
            (λ found. is_excluded_child platform excluded context directory found.rel_path)
            context.target.directories (ground (arith, kept)));
    all_supported =
        any_false→All (λ found. is_descendant platform found.rel_path directory.rel_path)
          context.target.unsupported (ground (arith, kept));
    dirs_cleared =
        All-map _ _ (λ child h inside. ground (arith, h, inside, cleaned child.rel_path_key)) _
          (any_false→All (is_remaining_directory platform excluded context cleanups directory)
            context.target_dirs (ground (arith, kept)));
  }

  -- A directory that is kept in the dictionary is removed by the operation that it gets.
  put-AreCleaned :
      (directory : DirRecord) (dirs : List DirRecord) (operations : List PlanOperation)
      (cleanups : Dict Text PlanOperation)
      → let operation =
          cleanup_operation platform excluded context directory
            (cleanup_dependencies platform excluded context cleanups directory) in
        let done = put directory.rel_path_key operation cleanups in
        Listed directory
        → ((test : PlanOperation → Bool)
            → any test (cleanup platform excluded context dirs (operations ++ operation ∷ []) done)
              ≡ true
            → any test whole ≡ true)
        → AreCleaned cleanups
        → AreCleaned done
  unfolding cleanup_operation
  put-AreCleaned directory dirs operations cleanups listed wider cleaned key h =
      let operation =
        cleanup_operation platform excluded context directory
          (cleanup_dependencies platform excluded context cleanups directory) in
      elim (Bool-cases (key == directory.rel_path_key)) [
        | inr other ↦
            cleaned key
              (ground (arith, other, keys_put key directory.rel_path_key operation cleanups h))
        | inl same ↦ wider _ (
            cleanup-keeps _ dirs (operations ++ operation ∷ []) _ (
              any_snoc _ operations operation (
                listed (λ dir. dir.rel_path == directory.rel_path && dir.rel_path_key == key)
                  (rw
                    (
                      ==_sound key directory.rel_path_key same,
                      ==_refl directory.rel_path,
                      ==_refl directory.rel_path_key,
                    )
                    refl))))
      ]

  -- With directories of the target, the loop empties what it removes.
  pub cleanup-Empties :
      (dirs : List DirRecord) (operations : List PlanOperation) (cleanups : Dict Text PlanOperation)
      → All Listed dirs
      → ((test : PlanOperation → Bool)
          → any test (cleanup platform excluded context dirs operations cleanups) ≡ true
          → any test whole ≡ true)
      → AreCleaned cleanups
      → All (Empties platform excluded context is_taken whole) operations
      → All
          (Empties platform excluded context is_taken whole)
          (cleanup platform excluded context dirs operations cleanups)
  unfolding cleanup
  cleanup-Empties [] operations cleanups listed grows cleaned h = h
  cleanup-Empties (directory ∷ dirs) operations cleanups listed grows cleaned h =
      elim (Bool-cases (
        is_skipped platform excluded context directory
        || is_occupied platform excluded context cleanups directory)) [
          | inl skipped ↦
              let same : cleanup platform excluded context (directory ∷ dirs) operations cleanups
                  ≡ cleanup platform excluded context dirs operations cleanups =
                rw (skipped, cleanup) refl in
              rw same (
                cleanup-Empties dirs operations cleanups listed.1 (λ test t. grows test (rw same t))
                  cleaned h)
          | inr kept ↦
              let operation =
                cleanup_operation platform excluded context directory
                  (cleanup_dependencies platform excluded context cleanups directory) in
              let more = operations ++ operation ∷ [] in
              let done = put directory.rel_path_key operation cleanups in
              let same : cleanup platform excluded context (directory ∷ dirs) operations cleanups
                  ≡ cleanup platform excluded context dirs more done =
                rw (kept, cleanup) refl in
              let wider : (test : PlanOperation → Bool)
                  → any test (cleanup platform excluded context dirs more done) ≡ true
                  → any test whole ≡ true =
                λ test t. grows test (rw same t) in
              rw same (
                cleanup-Empties dirs more done listed.1 wider
                  (put-AreCleaned directory dirs operations cleanups listed.0 wider cleaned)
                  (All-append (Empties platform excluded context is_taken whole) operations
                    (operation ∷ []) h
                    ((λ c. kept-IsEmptied directory cleanups listed.0 cleaned kept), tt)))
        ]
