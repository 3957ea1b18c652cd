-- ===== src/Encoding/Hex.antt =====
-- src/util.rs, `hex_encode` and `hex_decode`.
pub mod Roundtrip
mod Tests
use rust_tor_proxy.Prelude.{
  ℕ, ◌+◌, ◌-◌, ◌*◌, ◌/◌, ◌%◌, Bool, ◌&&◌, List, [], ◌∷◌, get_or, leb, ◌==◌, if◌then◌else◌, Text,
  codes, length, Result, ok, err, invalid_data, ◌>>=◌,
}

-- `HEX`
abbrev pub hex_digits : Text
hex_digits = codes "0123456789ABCDEF"

-- `hex_encode`: a byte's high digit, then its low one.
unfoldable pub hex_encode : List ℕ → Text
hex_encode [] = []
hex_encode (b ∷ bytes) =
    get_or hex_digits (b / 16) 0 ∷ get_or hex_digits (b % 16) 0 ∷ hex_encode bytes

-- The closure `nibble`.
unfoldable pub nibble : ℕ → Result ℕ
nibble c =
    if leb b'0' c && leb c b'9'
    then ok (c - b'0')
    else if leb b'a' c && leb c b'f'
    then ok (c - b'a' + 10)
    else if leb b'A' c && leb c b'F'
    then ok (c - b'A' + 10)
    else err (invalid_data "invalid hex character")

-- The pairs of an even number of characters; `nibble(p[0])? << 4` leaves the low four bits free.
unfoldable pub hex_pairs : Text → Result (List ℕ)
hex_pairs [] = ok []
hex_pairs (a ∷ []) = ok []
hex_pairs (a ∷ b ∷ rest) = do
  high ← nibble a
  low ← nibble b
  others ← hex_pairs rest
  ok ((high * 16 % 256 + low) ∷ others)

-- `hex_decode`
unfoldable pub hex_decode : Text → Result (List ℕ)
hex_decode s = if length s % 2 == 0 then hex_pairs s else err (invalid_data "odd-length hex string")
