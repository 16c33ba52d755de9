-- ===== src/Payloads/Hex.antt =====
-- `bytes.hex` and `bytes.fromhex`, which payloads use for digests (namisync/workflows/payloads.py).
use Prim.Native.Nat.{◌/◌, ◌%◌, ◌*◌, ◌<◌}
use nami_sync.Base.{
  ◌≡◌, refl, Bool, true, false, ◌&&◌, ◌||◌, List, [], ◌∷◌, ℕ, ◌+◌, ◌-◌, Result, ok, err, ◌>>=◌,
  if◌then◌else◌, ltb, leb, ◌==◌, arith,
}
use nami_sync.Base.Lists.{All}
use nami_sync.Paths.{Text, code_eq}
use nami_sync.Payloads.{PayloadError}

hex_digit : ℕ → ℕ
hex_digit n = if ltb n 10 then b'0' + n else b'a' + n - 10

-- `bytes.hex()`
pub hex : List ℕ → Text
hex [] = []
hex (byte ∷ bytes) = hex_digit (byte / 16) ∷ hex_digit (byte % 16) ∷ hex bytes

digit_value : ℕ → Result PayloadError ℕ
digit_value c =
    if leb b'0' c && leb c b'9'
    then ok (c - b'0')
    else if leb b'a' c && leb c b'f'
    then ok (c - b'a' + 10)
    else if leb b'A' c && leb c b'F'
    then ok (c - b'A' + 10)
    else err PayloadError.refused_value

is_space : ℕ → Bool
unfolding code_eq
is_space c = c == b' ' || leb 9 c && leb c 13

-- `bytes.fromhex(value)`, which skips white space before a byte
pub from_hex : Text → Result PayloadError (List ℕ)
from_hex [] = ok []
from_hex (c ∷ []) = if is_space c then ok [] else err PayloadError.refused_value
from_hex (c ∷ d ∷ value) = elim (is_space c) [
  | true ↦ from_hex (d ∷ value)
  | false ↦ do
    high ← digit_value c
    low ← digit_value d
    bytes ← from_hex value
    ok ((high * 16 + low) ∷ bytes)
]

digit_value-hex_digit : (n : ℕ) → n < 16 → digit_value (hex_digit n) ≡ ok n
unfolding digit_value hex_digit
digit_value-hex_digit n h = ground arith

is_space-hex_digit : (n : ℕ) → n < 16 → is_space (hex_digit n) ≡ false
unfolding is_space hex_digit
is_space-hex_digit n h = ground arith

-- Digits read back as the bytes that they show.
pub from_hex-hex :
    (bytes : List ℕ) → All (λ byte. byte < 256) bytes → from_hex (hex bytes) ≡ ok bytes
unfolding from_hex hex
from_hex-hex [] h = refl
from_hex-hex (byte ∷ bytes) (small, h) =
    let high : byte / 16 < 16 = omega arith in
    let low : byte % 16 < 16 = omega arith in
    let whole : byte / 16 * 16 + byte % 16 ≡ byte = omega arith in
    rw
      (
        is_space-hex_digit (byte / 16) high,
        from_hex,
        digit_value-hex_digit (byte / 16) high,
        digit_value-hex_digit (byte % 16) low,
        from_hex-hex bytes h,
        whole,
      )
      refl
