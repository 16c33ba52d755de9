-- ===== src/Paths.antt =====
-- Relative paths and their comparison keys (namisync/core/pathing.py). A text is the list of its
-- code points; `upper` is Unicode's uppercase mapping of one code point, from Python's `str.upper`.
pub mod Safety
pub mod Parts
use native.Mathlib.Decide.{ℕ_discrete}
use Prim.Native.Char.{code}
use nami_sync.Base.{
  Bool, true, false, ◌||◌, ◌&&◌, String, List, [], ◌∷◌, ◌++◌, map, ℕ, Result, ok, err, ◌>>=◌, ◌>>◌,
  raise_if, if◌then◌else◌, leb, Eq, ◌==◌, contains,
}
use nami_sync.Base.Lists.{any, drop}

abbrev pub Text : Type 0
Text = List ℕ

Text_dec : Discrete Text
Text_dec = hlevel ℕ_discrete

instance unfoldable pub text_eq : Eq Text
unfolding Text_dec
text_eq = record { dec = Text_dec }

instance unfoldable pub code_eq : Eq ℕ
code_eq = record { dec = ℕ_discrete }

abbrev pub codes : String → Text
codes String.[] = []
codes (String.◌∷◌ c s) = code c ∷ codes s

abbrev pub backslash : ℕ
backslash = 92

-- `PathValidationError`, by what is wrong.
pub data PathError : Type 0 where
  has_nul unpaired_surrogate empty absolute device_namespace unsafe_component qualifier
        ambiguous_suffix device_name :
      PathError

-- `value.startswith(prefix)`
unfoldable pub starts_with : Text → Text → Bool
unfolding code_eq
starts_with [] value = true
starts_with (c ∷ prefix) [] = false
starts_with (c ∷ prefix) (d ∷ value) = c == d && starts_with prefix value

-- `value.replace("/", "\\")`
unfoldable pub canonical_separators : Text → Text
unfolding code_eq
canonical_separators = map (λ c. if c == b'/' then backslash else c)

-- `value.split(separator)`: the first component, and the others.
unfoldable pub split_head : ℕ → Text → Text
unfolding code_eq
split_head separator [] = []
split_head separator (c ∷ value) =
    let rest = split_head separator value in if c == separator then [] else c ∷ rest

unfoldable pub split_tail : ℕ → Text → List Text
unfolding code_eq split_head
split_tail separator [] = []
split_tail separator (c ∷ value) =
    let rest = split_tail separator value in
    if c == separator then split_head separator value ∷ rest else rest

unfoldable pub split : ℕ → Text → List Text
unfolding split_head split_tail
split separator value = split_head separator value ∷ split_tail separator value

abbrev is_letter : ℕ → Bool
is_letter c = leb b'A' c && leb c b'Z' || leb b'a' c && leb c b'z'

-- `_DRIVE_PREFIX`
abbrev has_drive : Text → Bool
has_drive (c ∷ d ∷ value) = is_letter c && leb b':' d && leb d b':'
has_drive _ = false

-- The last code point is one of `suffixes`.
unfoldable pub ends_with : List ℕ → Text → Bool
unfolding code_eq
ends_with suffixes [] = false
ends_with suffixes (c ∷ []) = contains suffixes c
ends_with suffixes (c ∷ d ∷ value) = ends_with suffixes (d ∷ value)

-- `_RESERVED_BASENAMES`
abbrev reserved_basenames : List Text
reserved_basenames = map codes (
    "CON" ∷ "PRN" ∷ "AUX" ∷ "NUL" ∷ "COM1" ∷ "COM2" ∷ "COM3" ∷ "COM4" ∷ "COM5" ∷ "COM6" ∷ "COM7"
    ∷ "COM8" ∷ "COM9" ∷ "LPT1" ∷ "LPT2" ∷ "LPT3" ∷ "LPT4" ∷ "LPT5" ∷ "LPT6" ∷ "LPT7" ∷ "LPT8"
    ∷ "LPT9" ∷ [])

-- `_DEVICE_PREFIXES`
abbrev device_prefixes : List Text
device_prefixes = map codes ("\\\\?\\" ∷ "\\\\.\\" ∷ "\\??\\" ∷ [])

-- `PureWindowsPath(value).is_absolute()`: a drive and a root, or a share.
abbrev is_absolute : Text → Bool
is_absolute value =
    has_drive value && starts_with (backslash ∷ []) (drop 2 value)
    || starts_with (backslash ∷ backslash ∷ []) value

module _ (upper : ℕ → Text) where
  -- `value.upper()`
  unfoldable pub upper_text : Text → Text
  upper_text [] = []
  upper_text (c ∷ value) = upper c ++ upper_text value

  abbrev single : ℕ → Text → ℕ
  single c (u ∷ []) = u
  single c _ = c

  -- `_uppercase_one_codepoint`
  unfoldable pub uppercase_one_codepoint : Text → Text
  uppercase_one_codepoint = map (λ c. single c (upper c))

  -- The loop over the components, each by the tests in their order.
  unfoldable pub check_component : Text → Result PathError (Unit {0})
  unfolding text_eq code_eq ends_with split_head uppercase_one_codepoint
  check_component component = do
    raise_if (contains ([] ∷ codes "." ∷ codes ".." ∷ []) component) PathError.unsafe_component
    raise_if (contains component b':') PathError.qualifier
    raise_if (ends_with (b' ' ∷ b'.' ∷ []) component) PathError.ambiguous_suffix
    raise_if (contains reserved_basenames (uppercase_one_codepoint (split_head b'.' component)))
        PathError.device_name

  unfoldable pub check_components : List Text → Result PathError (Unit {0})
  check_components [] = ok tt
  check_components (component ∷ components) =
      let rest = check_components components in check_component component >> rest

  unfoldable pub validate_nonempty : Text → Result PathError Text
  unfolding canonical_separators starts_with upper_text split check_components
  validate_nonempty value =
      let canonical = canonical_separators value in
      do
        raise_if (starts_with (backslash ∷ []) canonical || has_drive canonical) PathError.absolute
        raise_if (any (λ prefix. starts_with prefix (upper_text canonical)) device_prefixes)
            PathError.device_namespace
        check_components (split backslash canonical)
        raise_if (is_absolute canonical) PathError.absolute
        ok canonical

  abbrev is_surrogate : ℕ → Bool
  is_surrogate c = leb 0xd800 c && leb c 0xdfff

  -- `validate_relative_path`
  unfoldable pub validate_relative_path : Bool → Text → Result PathError Text
  unfolding code_eq validate_nonempty
  validate_relative_path allow_root value = do
    raise_if (contains value 0) PathError.has_nul
    raise_if (any is_surrogate value) PathError.unpaired_surrogate
    elim value [
      | [] ↦ if allow_root then ok [] else err PathError.empty
      | c ∷ rest ↦ validate_nonempty (c ∷ rest)
    ]

  -- `normalize_relative_path`
  unfoldable pub normalize_relative_path : Bool → Text → Result PathError Text
  unfolding validate_relative_path uppercase_one_codepoint
  normalize_relative_path allow_root value = do
    canonical ← validate_relative_path allow_root value
    ok (uppercase_one_codepoint canonical)

  -- The key of a path that is valid.
  unfoldable pub path_key : Text → Text
  unfolding uppercase_one_codepoint canonical_separators
  path_key value = uppercase_one_codepoint (canonical_separators value)
