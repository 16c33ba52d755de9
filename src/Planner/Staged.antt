-- ===== src/Planner/Staged.antt =====
-- Each stage of a plan depends on operations before it (namisync/modules/planner.py).
use nami_sync.Base.{
  ◌≡◌, refl, Bool, true, String, string_eq, List, [], ◌∷◌, ◌++◌, ok, Result-cases, inl, inr, ltb,
  contains, arith,
}
use nami_sync.Base.Dict.{Dict, get, put}
use nami_sync.Base.Lists.{All, List-cases, length}
use nami_sync.Models.Records.{FileRecord, DirRecord}
use nami_sync.Paths.{Text, text_eq, path_key}
use nami_sync.Planner.Backward.{
  Known, Within, IsBackward, IsBackward-append, Holds, Holds-put, contains-append, Known-Within,
  nearest_created_parent-Known,
}
use nami_sync.Planner.Contents.{Content, ContentContext}
use nami_sync.Planner.Directories.{nearest_created_parent, mkdirs, mkdir_operation, dependency_on}
use nami_sync.Planner.{group_at}
use nami_sync.Planner.Assigning.{source_identity_eq, identity_of_item}
use nami_sync.Planner.Visiting.{
  with_normalization, content_of, visit_item, visit_items, operations_of,
}
use nami_sync.Planning.{PlanOperation, op_ids}
use nami_sync.Planning.Options.{Platform}
use nami_sync.Policies.{DestinationAssignment}

pub snoc-IsBackward :
    (known : List String) (operations : List PlanOperation) (operation : PlanOperation)
    → IsBackward known operations
    → ((wider : List String)
        → Within known wider
        → Within (op_ids operations) wider
        → Known wider operation.dependencies)
    → IsBackward known (operations ++ operation ∷ [])
snoc-IsBackward known operations operation h f =
    IsBackward-append known operations (operation ∷ []) h (λ wider w v. (f wider w v, tt))

pub op_ids-append : (xs ys : List PlanOperation) → op_ids (xs ++ ys) ≡ op_ids xs ++ op_ids ys
op_ids-append [] ys = refl
op_ids-append (x ∷ xs) ys = ground (arith, op_ids-append xs ys)

pub Within-snoc :
    (operations : List PlanOperation) (operation : PlanOperation)
    → Within (op_ids operations) (op_ids (operations ++ operation ∷ []))
Within-snoc operations operation id h =
    rw op_ids-append ((contains-append (op_ids operations) (operation.op_id ∷ []) id h).0)

pub contains_snoc :
    (operations : List PlanOperation) (operation : PlanOperation)
    → contains (op_ids (operations ++ operation ∷ [])) operation.op_id ≡ true
contains_snoc [] operation = ground arith
contains_snoc (x ∷ operations) operation = ground (arith, contains_snoc operations operation)

module _ (platform : Platform) where
  mkdir_operation-dependencies :
      (path : Text) (dirs : List DirRecord) (files : List FileRecord) (dependencies : List String)
      → (mkdir_operation platform path dirs files dependencies).dependencies ≡ dependencies
  unfolding mkdir_operation
  mkdir_operation-dependencies path [] files dependencies = refl
  mkdir_operation-dependencies path (d ∷ []) [] dependencies = refl
  mkdir_operation-dependencies path (d ∷ []) (f ∷ files) dependencies = refl
  mkdir_operation-dependencies path (d ∷ e ∷ dirs) files dependencies = refl

  -- The loop keeps its operations backward and the created directories among them.
  pub mkdirs-IsBackward :
      (source_dirs target_dirs : Dict Text (List DirRecord)) (files : Dict Text (List FileRecord))
      (paths : List Text) (operations : List PlanOperation) (created : Dict Text PlanOperation)
      → IsBackward [] operations
      → Holds created (op_ids operations)
      → let result = mkdirs platform source_dirs target_dirs files paths operations created in
        IsBackward [] result.0 × Holds result.1 (op_ids result.0)
  unfolding mkdirs
  mkdirs-IsBackward source_dirs target_dirs files [] operations created b h = (b, h)
  mkdirs-IsBackward source_dirs target_dirs files (path ∷ paths) operations created b h =
      elim (List-cases (group_at (path_key platform.upper path) target_dirs)) [
        | inr (found, rest, e) ↦
            rw (e, mkdirs)
              (mkdirs-IsBackward source_dirs target_dirs files paths operations created b h)
        | inl e ↦
            let key = path_key platform.upper path in
            let operation =
              mkdir_operation platform path (group_at key source_dirs) (group_at key files)
                (dependency_on (nearest_created_parent platform path created)) in
            let known = nearest_created_parent-Known platform path created _ h in
            rw (e, mkdirs)
              (mkdirs-IsBackward source_dirs target_dirs files paths (operations ++ operation ∷ [])
                (put key operation created)
                (snoc-IsBackward [] operations operation b (λ wider w v.
                  rw mkdir_operation-dependencies
                    (Known-Within (op_ids operations) wider v _ known)))
                (Holds-put created (op_ids operations) (op_ids (operations ++ operation ∷ [])) key
                  operation h (Within-snoc operations operation)
                  (contains_snoc operations operation)))
      ]

  -- Every branch of a round has the same dependencies.
  content_of-dependencies :
      (context : ContentContext) (item : DestinationAssignment) (found : FileRecord)
      (collision : Bool) (values : List FileRecord) (mismatch : Bool)
      → (content_of platform context item found collision values mismatch).operation.dependencies
        ≡ dependency_on (nearest_created_parent platform item.target_rel_path context.created)
  unfolding content_of
  content_of-dependencies context item found collision values mismatch = ground arith

  visit_item-Known :
      (context : ContentContext) (ids : List String) (item : DestinationAssignment)
      (content : Content)
      → Holds context.created ids
      → visit_item platform context item ≡ ok content
      → Known ids content.operation.dependencies
  unfolding visit_item
  visit_item-Known context ids item content h e =
      elim (List-cases (group_at item.source_rel_path_key context.source_files_by_key)) [
        | inl missing ↦ ground arith
        | inr (found, others, g) ↦
            let values =
              with_normalization
                (group_at item.target_rel_path_key context.moves.target_files_by_key)
                (get (identity_of_item item) context.normalizations) in
            let same =
              content_of-dependencies context item found (ltb 1 (length (found ∷ others))) values.0
                values.1 in
            let is : content.operation.dependencies
                ≡ dependency_on
                    (nearest_created_parent platform item.target_rel_path context.created) =
              ground (arith, same) in
            rw is (nearest_created_parent-Known platform item.target_rel_path _ ids h)
      ]

  -- A loop that ends has a round for its first item and a loop over the others.
  pub visit_items-cons :
      (context : ContentContext) (item : DestinationAssignment) (items : List DestinationAssignment)
      (contents : List Content)
      → visit_items platform context (item ∷ items) ≡ ok contents
      → (content : Content) × (rest : List Content) × (contents ≡ content ∷ rest)
        × (visit_item platform context item ≡ ok content)
        × (visit_items platform context items ≡ ok rest)
  unfolding visit_items
  visit_items-cons context item items contents e =
      elim (Result-cases (visit_item platform context item)) [
        | inr (why, f) ↦ absurd (ground arith)
        | inl (content, f) ↦ elim (Result-cases (visit_items platform context items)) [
          | inr (why, g) ↦ absurd (ground arith)
          | inl (rest, g) ↦ (content, rest, ground arith, f, g)
        ]
      ]

  pub visit_items-Known :
      (context : ContentContext) (ids : List String) (items : List DestinationAssignment)
      (contents : List Content)
      → Holds context.created ids
      → visit_items platform context items ≡ ok contents
      → All (λ operation. Known ids operation.dependencies) (operations_of contents)
  unfolding visit_items
  visit_items-Known context ids [] contents h e = let is : contents ≡ [] = ground arith in rw is tt
  visit_items-Known context ids (item ∷ items) contents h e =
      let (content, rest, is, f, g) = visit_items-cons context item items contents e in
      rw is (
        visit_item-Known context ids item content h f,
        visit_items-Known context ids items rest h g,
      )
