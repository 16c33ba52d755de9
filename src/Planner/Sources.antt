-- ===== src/Planner/Sources.antt =====
-- Every assignment that validates has a source record (namisync/modules/planner.py).
use nami_sync.Base.{
  ◌≡◌, refl, Bool, true, List, [], ◌∷◌, ◌++◌, map, ok, Result-cases, Bool-cases, inl, inr,
  if◌then◌else◌, ◌==◌, ==_refl, contains, arith,
}
use nami_sync.Base.Dict.{Dict, get, put, get-put}
use nami_sync.Base.Lists.{All, All-map, List-cases}
use nami_sync.Base.Sorting.{sorted, insert_sorted, All-sorted}
use nami_sync.Models.Records.{FileRecord}
use nami_sync.Paths.{Text, text_eq}
use nami_sync.Planner.Assembly.{file_groups}
use nami_sync.Planner.Assigning.{
  SourceIdentity, source_identity_eq, identity_of_record, identity_of_item, collect_items,
  validate_assignment,
}
use nami_sync.Planner.Contents.{Content, ContentContext}
use nami_sync.Planner.Pairing.{is_nonempty}
use nami_sync.Planner.{group_at, append_to, group_onto, sort_groups, group_by_key}
use nami_sync.Planner.Visiting.{visit_item, visit_items, item_leb}
use nami_sync.Planning.Options.{Platform}
use nami_sync.Policies.{DestinationAssignment}

-- The item's source is one of those.
abbrev IsSourced : List SourceIdentity → DestinationAssignment → Type 0
IsSourced sources item = contains sources (identity_of_item item) ≡ true

collect_items-IsSourced :
    (platform : Platform) (sources : List SourceIdentity) (items : List DestinationAssignment)
    (seen collected : Dict SourceIdentity DestinationAssignment)
    → collect_items sources platform items seen ≡ ok collected
    → All (IsSourced sources) items
unfolding collect_items
collect_items-IsSourced platform sources [] seen collected h = tt
collect_items-IsSourced platform sources (item ∷ items) seen collected h = (
  ground arith,
  collect_items-IsSourced platform sources items (put (identity_of_item item) item seen) collected
      (ground arith),
)

group_at-append_to :
    (key other : Text) (found : FileRecord) (groups : Dict Text (List FileRecord))
    → group_at key (append_to other found groups)
      ≡ (if key == other then group_at other groups ++ found ∷ [] else group_at key groups)
unfolding group_at append_to
group_at-append_to key other found groups = elim (Bool-cases (key == other)) [
  | inl same ↦ rw get-put (rw same refl)
  | inr differs ↦ rw get-put (rw differs refl)
]

append-is_nonempty :
    (xs : List FileRecord) (found : FileRecord) → is_nonempty (xs ++ found ∷ []) ≡ true
append-is_nonempty [] found = refl
append-is_nonempty (x ∷ xs) found = refl

abbrev key_of : FileRecord → Text
key_of found = found.rel_path_key

group_onto_keeps :
    (key : Text) (records : List FileRecord) (groups : Dict Text (List FileRecord))
    → is_nonempty (group_at key groups) ≡ true
    → is_nonempty (group_at key (group_onto key_of records groups)) ≡ true
unfolding group_onto
group_onto_keeps key [] groups h = h
group_onto_keeps key (found ∷ records) groups h =
    group_onto_keeps key records (append_to found.rel_path_key found groups)
      (elim (Bool-cases (key == found.rel_path_key)) [
        | inl same ↦ rw (group_at-append_to, same) (append-is_nonempty _ found)
        | inr differs ↦ rw (group_at-append_to, differs) h
      ])

group_onto-is_nonempty :
    (identity : SourceIdentity) (records : List FileRecord) (groups : Dict Text (List FileRecord))
    → contains (map identity_of_record records) identity ≡ true
    → is_nonempty (group_at identity.key (group_onto key_of records groups)) ≡ true
unfolding group_onto
group_onto-is_nonempty identity [] groups h = absurd (ground arith)
group_onto-is_nonempty identity (found ∷ records) groups h =
    elim (Bool-cases (identity == identity_of_record found)) [
      | inl same ↦
          let is : identity.key ≡ found.rel_path_key = ground arith in
          group_onto_keeps identity.key records (append_to found.rel_path_key found groups)
            (rw (group_at-append_to, is, ==_refl) (append-is_nonempty _ found))
      | inr differs ↦ group_onto-is_nonempty identity records _ (ground arith)
    ]

insert_sorted-is_nonempty :
    (leq : FileRecord → FileRecord → Bool) (x : FileRecord) (xs : List FileRecord)
    → is_nonempty (insert_sorted leq x xs) ≡ true
unfolding insert_sorted
insert_sorted-is_nonempty leq x [] = refl
insert_sorted-is_nonempty leq x (y ∷ ys) = ground arith

sort_groups-is_nonempty :
    (key : Text) (leq : FileRecord → FileRecord → Bool) (groups : Dict Text (List FileRecord))
    → is_nonempty (group_at key groups) ≡ true
    → is_nonempty (group_at key (sort_groups leq groups)) ≡ true
unfolding sort_groups group_at get sorted
sort_groups-is_nonempty key leq [] h = h
sort_groups-is_nonempty key leq ((other, []) ∷ groups) h =
    ground (arith, sort_groups-is_nonempty key leq groups)
sort_groups-is_nonempty key leq ((other, found ∷ records) ∷ groups) h =
    elim (Bool-cases (key == other)) [
      | inl same ↦ rw same (insert_sorted-is_nonempty leq found (sorted leq records))
      | inr differs ↦ rw differs (sort_groups-is_nonempty key leq groups (ground arith))
    ]

-- A source that some record has is in the groups of the records.
pub file_groups-is_nonempty :
    (identity : SourceIdentity) (records : List FileRecord)
    → contains (map identity_of_record records) identity ≡ true
    → is_nonempty (group_at identity.key (file_groups records)) ≡ true
unfolding file_groups group_by_key
file_groups-is_nonempty identity records h =
    sort_groups-is_nonempty identity.key _ _ (group_onto-is_nonempty identity records [] h)

visit_item_ok :
    (platform : Platform) (context : ContentContext) (item : DestinationAssignment)
    → is_nonempty (group_at item.source_rel_path_key context.source_files_by_key) ≡ true
    → (content : Content) × (visit_item platform context item ≡ ok content)
unfolding visit_item
visit_item_ok platform context item h =
    elim (List-cases (group_at item.source_rel_path_key context.source_files_by_key)) [
      | inl missing ↦ absurd (ground arith)
      | inr (found, others, e) ↦ rw (e, visit_item) (_, refl)
    ]

visit_items_ok :
    (platform : Platform) (context : ContentContext) (items : List DestinationAssignment)
    → All
        (λ item. is_nonempty (group_at item.source_rel_path_key context.source_files_by_key) ≡ true)
        items
    → (contents : List Content) × (visit_items platform context items ≡ ok contents)
unfolding visit_items
visit_items_ok platform context [] h = ([], refl)
visit_items_ok platform context (item ∷ items) h =
    let (content, e) = visit_item_ok platform context item h.0 in
    let (contents, f) = visit_items_ok platform context items h.1 in
    (content ∷ contents, rw (e, f) refl)

-- The loop over the items that validate ends, in whatever order.
pub visit_items_succeeds :
    (platform : Platform) (context : ContentContext) (records : List FileRecord)
    (items : List DestinationAssignment) (collected : Dict SourceIdentity DestinationAssignment)
    → context.source_files_by_key ≡ file_groups records
    → validate_assignment platform items records ≡ ok collected
    → (contents : List Content) × (visit_items platform context (sorted item_leb items)
        ≡ ok contents)
unfolding validate_assignment
visit_items_succeeds platform context records items collected groups h =
    visit_items_ok platform context (sorted item_leb items) (
      All-sorted item_leb _ items (
        All-map (IsSourced (map identity_of_record records)) _
          (λ item s. rw groups (file_groups-is_nonempty (identity_of_item item) records s)) items
          (elim (Result-cases (collect_items (map identity_of_record records) platform items [])) [
            | inl (all, c) ↦ collect_items-IsSourced platform _ items [] all c
            | inr (why, c) ↦ absurd (ground arith)
          ])))
