-- ===== src/Paths/Safety.antt =====
-- What a validated path promises (namisync/core/pathing.py).
use nami_sync.Base.{
  ◌≡◌, refl, Bool, false, List, [], ◌∷◌, ℕ, contains, ok, Result-cases, inl, inr, arith,
}
use nami_sync.Base.Lists.{All}
use nami_sync.Paths.{
  Text, text_eq, code_eq, codes, backslash, canonical_separators, split, check_component,
  check_components, validate_nonempty, validate_relative_path, normalize_relative_path, path_key,
  ends_with,
}

-- A component that stays where it is: it has a name, is neither `.` nor `..`, has no drive or stream
-- qualifier, and does not end in a way that Windows drops.
abbrev pub IsSafe : Text → Type 0
IsSafe component =
    (contains ([] ∷ codes "." ∷ codes ".." ∷ []) component ≡ false)
    × (contains component b':' ≡ false)
    × (ends_with (b' ' ∷ b'.' ∷ []) component ≡ false)

check_component-IsSafe :
    (upper : ℕ → Text) (component : Text)
    → check_component upper component ≡ ok tt
    → IsSafe component
unfolding check_component
check_component-IsSafe upper component h = ground arith

check_components-All :
    (upper : ℕ → Text) (components : List Text)
    → check_components upper components ≡ ok tt
    → All IsSafe components
unfolding check_components
check_components-All upper [] h = tt
check_components-All upper (component ∷ components) h =
    elim (Result-cases (check_component upper component)) [
      | inr (e, c) ↦ ground arith
      | inl (u, c) ↦ (
        check_component-IsSafe upper component c,
        check_components-All upper components (ground arith),
      )
    ]

validate_nonempty-IsSafe :
    (upper : ℕ → Text) (value canonical : Text)
    → validate_nonempty upper value ≡ ok canonical
    → (canonical ≡ canonical_separators value) × All IsSafe (split backslash canonical)
unfolding validate_nonempty
validate_nonempty-IsSafe upper value canonical h =
    elim (Result-cases (check_components upper (split backslash (canonical_separators value)))) [
      | inr (e, c) ↦ ground arith
      | inl (u, c) ↦
          let is : canonical ≡ canonical_separators value = ground arith in
          (is, rw is (check_components-All upper (split backslash (canonical_separators value)) c))
    ]

-- A path that is not empty and passes validation comes back with its separators made canonical, and
-- each of its components is safe: it has a name, is neither `.` nor `..`, has no drive or stream
-- qualifier, and ends neither in a space nor in a dot. Its normal form is its comparison key.
pub validate_relative_path-IsSafe :
    (upper : ℕ → Text) (allow_root : Bool) (c : ℕ) (rest canonical : Text)
    → validate_relative_path upper allow_root (c ∷ rest) ≡ ok canonical
    → (canonical ≡ canonical_separators (c ∷ rest))
      × All IsSafe (split backslash canonical)
      × (normalize_relative_path upper allow_root (c ∷ rest) ≡ ok (path_key upper (c ∷ rest)))
unfolding validate_relative_path normalize_relative_path path_key
validate_relative_path-IsSafe upper allow_root c rest canonical h =
    let checked : validate_nonempty upper (c ∷ rest) ≡ ok canonical = ground arith in
    let (is, safe) = validate_nonempty-IsSafe upper (c ∷ rest) canonical checked in
    (is, safe, rw h (rw is refl))
