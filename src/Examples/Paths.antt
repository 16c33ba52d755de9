-- ===== src/Examples/Paths.antt =====
-- Paths at concrete inputs (namisync/core/pathing.py).
use native.Mathlib.Decide.{ℕ_discrete}
use nami_sync.Base.{◌≡◌, refl, false, ok, err}
use nami_sync.Base.Lists.{All}
use nami_sync.Paths.{
  codes, text_eq, code_eq, PathError, canonical_separators, starts_with, upper_text, split,
  split_head, split_tail, ends_with, check_component, check_components, validate_nonempty,
  uppercase_one_codepoint, validate_relative_path, normalize_relative_path, path_key, backslash,
}
use nami_sync.Paths.Safety.{IsSafe, validate_relative_path-IsSafe}
use nami_sync.Examples.Selections.{ascii_upper}

validate_relative_path-IsSafe_example :
    (codes "a\\b.txt" ≡ canonical_separators (codes "a/b.txt"))
    × All IsSafe (split backslash (codes "a\\b.txt"))
    × (normalize_relative_path ascii_upper false (codes "a/b.txt")
        ≡ ok (path_key ascii_upper (codes "a/b.txt")))
unfolding validate_relative_path validate_nonempty check_components check_component ends_with split
    split_head split_tail starts_with upper_text canonical_separators uppercase_one_codepoint
    text_eq code_eq ℕ_discrete
validate_relative_path-IsSafe_example =
    validate_relative_path-IsSafe ascii_upper false b'a' (codes "/b.txt") (codes "a\\b.txt") refl

climbing_test :
    validate_relative_path ascii_upper false (codes "a/../b") ≡ err PathError.unsafe_component
unfolding validate_relative_path validate_nonempty check_components check_component ends_with split
    split_head split_tail starts_with upper_text canonical_separators uppercase_one_codepoint
    text_eq code_eq ℕ_discrete
climbing_test = refl
