-- ===== src/Planner/Assigned.antt =====
-- When an assignment validates (namisync/modules/planner.py).
use nami_sync.Base.{
  ◌≡◌, refl, ap, ◌∙◌, Bool, true, false, not, ◌&&◌, List, [], ◌∷◌, ◌++◌, map, Result, ok, err,
  Result-cases, Bool-cases, inl, inr, contains, arith,
}
use mathlib.Core.List.{append-nil}
use nami_sync.Base.Dict.{Dict, put}
use nami_sync.Base.Lists.{all}
use nami_sync.Models.Records.{FileRecord}
use nami_sync.Paths.{text_eq, validate_relative_path}
use nami_sync.Planner.Assigning.{
  SourceIdentity, source_identity_eq, identity_of_record, identity_of_item, keys_of, validated,
  collect_items, same_sets, validate_assignment,
}
use nami_sync.Planning.Options.{Platform}
use nami_sync.Policies.{DestinationAssignment}

abbrev pub succeeds {ℓ} : {E : Type 0} {A : Type ℓ} → Result E A → Bool
succeeds (ok a) = true
succeeds (err e) = false

-- No source is among those before it.
unfoldable pub are_distinct : List SourceIdentity → List SourceIdentity → Bool
unfolding source_identity_eq
are_distinct seen [] = true
are_distinct seen (identity ∷ identities) =
    not (contains seen identity) && are_distinct (seen ++ identity ∷ []) identities

-- Every target path validates.
unfoldable pub are_valid : Platform → List DestinationAssignment → Bool
unfolding validate_relative_path
are_valid platform = all (λ item. succeeds (validated platform item))

-- Each source is assigned once, and nothing else is.
unfoldable pub is_assignment_of : List DestinationAssignment → List FileRecord → Bool
unfolding source_identity_eq are_distinct
is_assignment_of items records =
    let sources = map identity_of_record records in
    let assigned = map identity_of_item items in
    are_distinct [] assigned && all (contains sources) assigned && all (contains assigned) sources

keys_of-put :
    (identity : SourceIdentity) (item : DestinationAssignment)
    (items : Dict SourceIdentity DestinationAssignment)
    → contains (keys_of items) identity ≡ false
    → keys_of (put identity item items) ≡ keys_of items ++ identity ∷ []
unfolding put
keys_of-put identity item [] h = refl
keys_of-put identity item ((other, v) ∷ items) h = ground (arith, keys_of-put identity item items)

append-cons :
    (xs ys : List SourceIdentity) (x : SourceIdentity) → (xs ++ x ∷ []) ++ ys ≡ xs ++ (x ∷ ys)
append-cons [] ys x = refl
append-cons (z ∷ xs) ys x = ap (λ rest. z ∷ rest) (append-cons xs ys x)

module _ (platform : Platform) (sources : List SourceIdentity) where
  collect_items-succeeds :
      (items : List DestinationAssignment) (seen : Dict SourceIdentity DestinationAssignment)
      → succeeds (collect_items sources platform items seen) ≡ (
          are_valid platform items
          && (all (contains sources) (map identity_of_item items)
              && are_distinct (keys_of seen) (map identity_of_item items)))
  unfolding collect_items are_valid are_distinct
  collect_items-succeeds [] seen = refl
  collect_items-succeeds (item ∷ items) seen =
      let identity = identity_of_item item in
      let rest = collect_items-succeeds items (put identity item seen) in
      elim (Bool-cases (contains (keys_of seen) identity)) [
        | inl again ↦ ground arith
        | inr first ↦ ground (arith, rest, keys_of-put identity item seen first)
      ]

  collect_items-keys :
      (items : List DestinationAssignment)
      (seen collected : Dict SourceIdentity DestinationAssignment)
      → collect_items sources platform items seen ≡ ok collected
      → keys_of collected ≡ keys_of seen ++ map identity_of_item items
  unfolding collect_items
  collect_items-keys [] seen collected h =
      let is : collected ≡ seen = ground arith in rw (is, append-nil) refl
  collect_items-keys (item ∷ items) seen collected h =
      let identity = identity_of_item item in
      let rest = collect_items-keys items (put identity item seen) collected (ground arith) in
      rest
      ∙ rw (keys_of-put identity item seen (ground arith))
          (append-cons (keys_of seen) (map identity_of_item items) identity)

-- The assignment validates exactly if every target path does, every assigned source is a source
-- file, no source is assigned twice, and every source file is assigned.
pub validate_assignment-is_assignment_of :
    (platform : Platform) (items : List DestinationAssignment) (records : List FileRecord)
    → succeeds (validate_assignment platform items records)
      ≡ (are_valid platform items && is_assignment_of items records)
unfolding validate_assignment is_assignment_of same_sets
validate_assignment-is_assignment_of platform items records =
    let sources = map identity_of_record records in
    let known = collect_items-succeeds platform sources items [] in
    elim (Result-cases (collect_items sources platform items [])) [
      | inr (why, e) ↦ ground arith
      | inl (collected, e) ↦
          let keys = collect_items-keys platform sources items [] collected e in
          ground (arith, keys)
    ]
