-- ===== src/Paths/Parts.antt =====
-- `PureWindowsPath` of a relative path that validates: its components, its parent and its name, and
-- the loops `while parent is not None` of namisync/modules/planner.py and of `FilterSet.excludes`.
pub mod Walking
use nami_sync.Base.{
  Bool, true, false, ◌&&◌, ◌||◌, List, [], ◌∷◌, ◌++◌, ℕ, zero, suc, Option, none, some,
  if◌then◌else◌, Eq, ◌==◌, ltb,
}
use nami_sync.Base.Lists.{length}
use nami_sync.Paths.{Text, text_eq, code_eq, backslash, canonical_separators, split}

-- `len(PureWindowsPath(path).parts)`
unfoldable pub depth : Text → ℕ
unfolding split canonical_separators
depth [] = 0
depth (c ∷ rest) = length (split backslash (canonical_separators (c ∷ rest)))

-- What stands before the last backslash.
unfoldable pub before_last : Text → Option Text
unfolding code_eq
before_last [] = none
before_last (c ∷ path) = elim (before_last path) [
  | some parent ↦ some (c ∷ parent)
  | none ↦ if c == backslash then some [] else none
]

-- `_parent`
unfoldable pub parent_of : Text → Option Text
unfolding before_last canonical_separators
parent_of path = before_last (canonical_separators path)

unfoldable last_component : Text → List Text → Text
last_component component [] = component
last_component component (next ∷ components) = last_component next components

-- `PureWindowsPath(path).name`
unfoldable pub file_name : Text → Text
unfolding last_component split canonical_separators
file_name path = last_component [] (split backslash (canonical_separators path))

-- The values that `parent` takes in `while parent is not None`, at most `fuel` of them.
unfoldable pub ancestors_within : ℕ → Text → List Text
unfolding parent_of
ancestors_within zero path = []
ancestors_within (suc fuel) path = elim (parent_of path) [
  | none ↦ []
  | some parent ↦ parent ∷ ancestors_within fuel parent
]

-- A parent is shorter than its path.
unfoldable pub ancestors : Text → List Text
unfolding ancestors_within
ancestors path = ancestors_within (length path) path

-- `a < b` of Python strings: by the first code point that differs.
unfoldable pub text_ltb : Text → Text → Bool
unfolding code_eq
text_ltb a [] = false
text_ltb [] (d ∷ b) = true
text_ltb (c ∷ a) (d ∷ b) = let rest = text_ltb a b in ltb c d || (c == d && rest)

-- `a <= b` of Python tuples of strings.
unfoldable pub texts_leb : List Text → List Text → Bool
unfolding text_ltb text_eq
texts_leb [] b = true
texts_leb (t ∷ a) [] = false
texts_leb (t ∷ a) (u ∷ b) = let rest = texts_leb a b in text_ltb t u || (t == u && rest)
