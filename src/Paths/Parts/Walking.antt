-- ===== src/Paths/Parts/Walking.antt =====
-- The walk from a path to the ancestors above it ends (the loops on `_parent` in
-- namisync/modules/planner.py and in `FilterSet.excludes`).
use nami_sync.Base.{
  ◌≡◌, refl, [], ◌∷◌, map, ℕ, zero, suc, ◌≤◌, ◌<◌, none, some, Option-cases, inl, inr,
  if◌then◌else◌, ◌==◌, ap, ◌∙◌, arith,
}
use nami_sync.Base.Lists.{length}
use nami_sync.Paths.{Text, code_eq, backslash, canonical_separators}
use nami_sync.Paths.Parts.{before_last, parent_of, ancestors_within, ancestors}

length-map : (f : ℕ → ℕ) (path : Text) → length (map f path) ≡ length path
length-map f [] = refl
length-map f (c ∷ path) = omega (arith, length-map f path)

before_last_shorter :
    (path parent : Text) → before_last path ≡ some parent → length parent < length path
unfolding before_last
before_last_shorter [] parent e = ground arith
before_last_shorter (c ∷ path) parent e = elim (Option-cases (before_last path)) [
  | inr (above, f) ↦
      let is : parent ≡ c ∷ above = ground arith in
      rw is (omega (arith, before_last_shorter path above f))
  | inl f ↦ let is : parent ≡ [] = ground arith in rw is (omega arith)
]

pub parent_of_shorter :
    (path parent : Text) → parent_of path ≡ some parent → length parent < length path
unfolding parent_of canonical_separators
parent_of_shorter path parent e = omega (
  arith,
  before_last_shorter (canonical_separators path) parent e,
  length-map (λ c. if c == b'/' then backslash else c) path,
)

-- More rounds than the path is long add nothing.
ancestors_within_enough :
    (few many : ℕ) (path : Text)
    → length path ≤ few
    → length path ≤ many
    → ancestors_within few path ≡ ancestors_within many path
unfolding ancestors_within
ancestors_within_enough zero zero path a b = refl
ancestors_within_enough zero (suc many) path a b = elim (Option-cases (parent_of path)) [
  | inl top ↦ rw (top, ancestors_within) refl
  | inr (parent, e) ↦ absurd (omega (arith, parent_of_shorter path parent e))
]
ancestors_within_enough (suc few) zero path a b = elim (Option-cases (parent_of path)) [
  | inl top ↦ rw (top, ancestors_within) refl
  | inr (parent, e) ↦ absurd (omega (arith, parent_of_shorter path parent e))
]
ancestors_within_enough (suc few) (suc many) path a b = elim (Option-cases (parent_of path)) [
  | inl top ↦ rw (top, ancestors_within) refl
  | inr (parent, e) ↦
      rw (e, ancestors_within)
        (ap (λ rest. parent ∷ rest)
          (ancestors_within_enough few many parent (omega (arith, parent_of_shorter path parent e))
            (omega (arith, parent_of_shorter path parent e))))
]

-- The walk ends at a path without a parent: with as many rounds as the path is long it goes through
-- the parent and then through all that the parent's own walk goes through, and more rounds change
-- nothing.
pub ancestors_end :
    (path : Text) (more : ℕ)
    → length path ≤ more
    → (ancestors_within more path ≡ ancestors path)
      × (ancestors path
          ≡ elim (parent_of path) [ none ↦ [] | some parent ↦ parent ∷ ancestors parent ])
unfolding ancestors
ancestors_end path more h = (
  ancestors_within_enough more (length path) path h (omega arith),
  ancestors_within_enough (length path) (suc (length path)) path (omega arith) (omega arith)
      ∙ (elim (Option-cases (parent_of path)) [
        | inl top ↦ rw (top, ancestors_within) refl
        | inr (parent, e) ↦
            rw (e, ancestors_within)
              (ap (λ rest. parent ∷ rest)
                (ancestors_within_enough (length path) (length parent) parent
                  (omega (arith, parent_of_shorter path parent e)) (omega arith)))
      ]),
)
