-- ===== src/Planner/Visiting.antt =====
-- The loop of `plan` over the assignments (namisync/modules/planner.py).
use nami_sync.Base.{
  Bool, true, false, ◌||◌, List, [], ◌∷◌, ◌++◌, Option, none, some, Result, ok, err, ◌>>=◌,
  if◌then◌else◌, ltb,
}
use nami_sync.Base.Dict.{get}
use nami_sync.Base.Lists.{length}
use nami_sync.Models.Records.{FileRecord}
use nami_sync.Paths.{Text, text_eq}
use nami_sync.Paths.Parts.{texts_leb}
use nami_sync.Planner.Assigning.{source_identity_eq, identity_of_item}
use nami_sync.Planner.Contents.{
  Content, ContentContext, is_present, file_at, dir_at, collided, inherited, matched_content,
  absent_content,
}
use nami_sync.Planner.Directories.{nearest_created_parent, dependency_on}
use nami_sync.Planner.{PlanError, group_at}
use nami_sync.Planning.{OperationReason, BlockedReason, PlanOperation, is_blocked}
use nami_sync.Planning.Options.{Platform}
use nami_sync.Policies.{DestinationAssignment}

-- `target_values` when no file has the item's key, and whether it is a normalization mismatch.
abbrev pub with_normalization : List FileRecord → Option FileRecord → List FileRecord × Bool
with_normalization (found ∷ files) pair = (found ∷ files, false)
with_normalization [] none = ([], false)
with_normalization [] (some found) = (found ∷ [], true)

abbrev blocks : Option PlanOperation → Bool
blocks none = false
blocks (some parent) = is_blocked parent

-- The order of the key `(target_rel_path_key, target_rel_path, source_rel_path)`
unfoldable pub item_leb : DestinationAssignment → DestinationAssignment → Bool
unfolding texts_leb
item_leb a b =
    texts_leb (a.target_rel_path_key ∷ a.target_rel_path ∷ a.source_rel_path ∷ [])
      (b.target_rel_path_key ∷ b.target_rel_path ∷ b.source_rel_path ∷ [])

module _ (platform : Platform) (context : ContentContext) where
  -- The branches in their order, for the first source record of the item's key.
  unfoldable pub content_of :
      DestinationAssignment → FileRecord → Bool → List FileRecord → Bool → Content
  unfolding collided inherited matched_content absent_content nearest_created_parent group_at
      text_eq
  content_of item found is_source_collision values mismatch =
      let parent = nearest_created_parent platform item.target_rel_path context.created in
      let dependencies = dependency_on parent in
      let directories = group_at item.target_rel_path_key context.target_dirs_by_key in
      let is_case_collision = is_source_collision || ltb 1 (length values) in
      let is_assignment_collision =
        ltb 1 (length (group_at item.target_rel_path_key context.assigned_groups))
        || is_present item.conflict in
      if is_case_collision || is_assignment_collision
      then collided platform found item dependencies (file_at values)
          (if is_case_collision
            then OperationReason.case_collision
            else OperationReason.policy_collision)
          (if is_case_collision
            then BlockedReason.case_collision
            else BlockedReason.destination_collision)
      else elim directories [
        | directory ∷ rest ↦
            collided platform found item dependencies (dir_at (directory ∷ rest))
              OperationReason.type_collision BlockedReason.type_collision
        | [] ↦ if blocks parent then inherited platform found item dependencies else elim values [
          | observed ∷ others ↦
              matched_content platform found item dependencies context mismatch observed
          | [] ↦ absent_content platform found item dependencies context
        ]
      ]

  -- One round.
  unfoldable pub visit_item : DestinationAssignment → Result PlanError Content
  unfolding content_of group_at get text_eq source_identity_eq
  visit_item item = elim (group_at item.source_rel_path_key context.source_files_by_key) [
    | [] ↦ err PlanError.missing_source_key
    | found ∷ others ↦
        let (values, mismatch) =
          with_normalization (group_at item.target_rel_path_key context.moves.target_files_by_key)
            (get (identity_of_item item) context.normalizations) in
        ok (content_of item found (ltb 1 (length (found ∷ others))) values mismatch)
  ]

  -- The loop, over the items in their order.
  unfoldable pub visit_items : List DestinationAssignment → Result PlanError (List Content)
  unfolding visit_item
  visit_items [] = ok []
  visit_items (item ∷ items) = do
    content ← visit_item item
    contents ← visit_items items
    ok (content ∷ contents)

abbrev pub operations_of : List Content → List PlanOperation
operations_of [] = []
operations_of (content ∷ contents) = content.operation ∷ operations_of contents

-- `claimed_target_keys` and `moved_from_keys` after the loop
abbrev pub claims_of : List Content → List Text
claims_of [] = []
claims_of (content ∷ contents) = content.claims ++ claims_of contents

abbrev pub moved_of : List Content → List Text
moved_of [] = []
moved_of (content ∷ contents) = content.moved_from ++ moved_of contents
