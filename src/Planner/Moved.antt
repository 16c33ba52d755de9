-- ===== src/Planner/Moved.antt =====
-- The files that the content of a plan moves away (namisync/modules/planner.py).
use nami_sync.Base.{
  ◌≡◌, refl, Bool, true, false, not, ◌||◌, ◌&&◌, List, [], ◌∷◌, ◌++◌, ok, inl, inr, ltb, contains,
  arith,
}
use nami_sync.Base.Dict.{get}
use nami_sync.Base.Lists.{All, List-cases, length, any}
use nami_sync.Models.Records.{FileRecord}
use nami_sync.Paths.{Text, text_eq}
use nami_sync.Planner.Assigning.{source_identity_eq, identity_of_item}
use nami_sync.Planner.Contents.{
  Content, ContentContext, matched_content, absent_content, moved_content, copied_content,
}
use nami_sync.Planner.{group_at}
use nami_sync.Planner.Pairing.{is_nonempty}
use nami_sync.Planner.Staged.{visit_items-cons}
use nami_sync.Planner.Visiting.{with_normalization, content_of, visit_item, visit_items, moved_of}
use nami_sync.Planning.{OperationKind}
use nami_sync.Planning.Options.{Platform}
use nami_sync.Policies.{DestinationAssignment}

abbrev is_move : OperationKind → Bool
is_move OperationKind.move = true
is_move OperationKind.move_update = true
is_move kind = false

-- Content that takes keys away moves a file.
abbrev pub Moves : Content → Type 0
Moves content = (not (is_nonempty content.moved_from) || is_move content.operation.kind) ≡ true

-- Some of the content moves a file of the key.
abbrev pub is_moved : List Content → Text → Bool
is_moved contents key =
    any (λ content. contains content.moved_from key && is_move content.operation.kind) contents

pub contains_append :
    (xs ys : List Text) (key : Text)
    → contains (xs ++ ys) key ≡ (contains xs key || contains ys key)
contains_append [] ys key = refl
contains_append (x ∷ xs) ys key = ground (arith, contains_append xs ys key)

contains-moved_from :
    (content : Content) (key : Text)
    → Moves content
    → contains content.moved_from key ≡ true
    → is_move content.operation.kind ≡ true
contains-moved_from content key m h = elim (List-cases content.moved_from) [
  | inl none_moved ↦ absurd (ground (arith, h, none_moved))
  | inr (first, rest, is) ↦ ground (arith, m, is)
]

-- A key that the content takes away is one of a file that it moves.
pub moved_of-is_moved :
    (contents : List Content) (key : Text)
    → All Moves contents
    → contains (moved_of contents) key ≡ true
    → is_moved contents key ≡ true
moved_of-is_moved [] key m h = h
moved_of-is_moved (content ∷ contents) key m h = ground (
  arith,
  h,
  contains_append content.moved_from (moved_of contents) key,
  contains-moved_from content key m.0,
  moved_of-is_moved contents key m.1,
)

module _ (platform : Platform) where
  content_of-Moves :
      (context : ContentContext) (item : DestinationAssignment) (found : FileRecord)
      (collision : Bool) (values : List FileRecord) (mismatch : Bool)
      → Moves (content_of platform context item found collision values mismatch)
  unfolding content_of absent_content matched_content moved_content copied_content
  content_of-Moves context item found collision values mismatch = ground arith

  visit_item-Moves :
      (context : ContentContext) (item : DestinationAssignment) (content : Content)
      → visit_item platform context item ≡ ok content
      → Moves content
  unfolding visit_item
  visit_item-Moves context item content e =
      elim (List-cases (group_at item.source_rel_path_key context.source_files_by_key)) [
        | inl missing ↦ ground arith
        | inr (found, others, g) ↦
            let values =
              with_normalization
                (group_at item.target_rel_path_key context.moves.target_files_by_key)
                (get (identity_of_item item) context.normalizations) in
            let is : content
                ≡ content_of platform context item found (ltb 1 (length (found ∷ others))) values.0
                    values.1 =
              ground arith in
            rw is (
              content_of-Moves context item found (ltb 1 (length (found ∷ others))) values.0
                values.1)
      ]

  pub visit_items-Moves :
      (context : ContentContext) (items : List DestinationAssignment) (contents : List Content)
      → visit_items platform context items ≡ ok contents
      → All Moves contents
  unfolding visit_items
  visit_items-Moves context [] contents e = let is : contents ≡ [] = ground arith in rw is tt
  visit_items-Moves context (item ∷ items) contents e =
      let (content, rest, is, f, g) = visit_items-cons platform context item items contents e in
      rw is (visit_item-Moves context item content f, visit_items-Moves context items rest g)
