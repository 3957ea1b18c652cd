-- ===== src/Encoding/Base32.antt =====
-- src/crypto/base32.rs. The `u16` accumulators keep what they shift out of use, and wrap; `|` joins bits
-- that do not meet, and is `+`.
pub mod Roundtrip
pub mod Shape
mod Tests
use rust_tor_proxy.Prelude.{
  ℕ, zero, suc, ◌+◌, ◌-◌, ◌*◌, ◌/◌, ◌%◌, ◌^◌, Bool, not, ◌&&◌, ◌||◌, Option, none, some, List, [],
  ◌∷◌, ◌++◌, get_or, leb, ◌==◌, if◌then◌else◌, Text, codes, Result, ok, err, invalid_data, ◌>>=◌,
  u16_mod,
}

-- `ALPHABET`
abbrev pub alphabet : Text
alphabet = codes "abcdefghijklmnopqrstuvwxyz234567"

-- `value`
unfoldable pub value : ℕ → Option ℕ
value c =
    if leb b'a' c && leb c b'z'
    then some (c - b'a')
    else if leb b'A' c && leb c b'Z'
    then some (c - b'A')
    else if leb b'2' c && leb c b'7'
    then some (c - b'2' + 26)
    else none

-- The check after the loop.
unfoldable pub decode_end : ℕ → ℕ → Result (List ℕ)
decode_end acc bits =
    if leb 5 bits || not (acc % 2 ^ bits == 0)
    then err (invalid_data "truncated base32 group")
    else ok []

-- The byte that is complete, if one is.
abbrev push_byte : ℕ → ℕ → Result (List ℕ) → Result (List ℕ)
push_byte acc bits more =
    if leb 8 bits then (more >>= λ rest. ok (acc / 2 ^ (bits - 8) % 256 ∷ rest)) else more

abbrev pub turn : ℕ → ℕ → Option ℕ → (ℕ → ℕ → Result (List ℕ)) → Result (List ℕ)
turn acc bits none more = err (invalid_data "invalid base32 character")
turn acc bits (some v) more =
    let acc' = acc * 32 % u16_mod + v in
    push_byte acc' (bits + 5) (more acc' (if leb 8 (bits + 5) then bits + 5 - 8 else bits + 5))

-- The loop of `decode`, which stops at padding.
unfoldable pub decode_from : ℕ → ℕ → Text → Result (List ℕ)
unfolding value decode_end
decode_from acc bits [] = decode_end acc bits
decode_from acc bits (c ∷ cs) =
    let more = turn acc bits (value c) (λ acc' bits'. decode_from acc' bits' cs) in
    if c == b'=' then decode_end acc bits else more

-- `decode`
unfoldable pub decode : Text → Result (List ℕ)
unfolding decode_from
decode input = decode_from 0 0 input

abbrev pub letter : ℕ → ℕ
letter v = get_or alphabet v 0

-- The inner loop of `encode`: the characters, and the bits that are left. Each turn takes five bits away,
-- so the bits are fuel enough.
unfoldable pub emitted : ℕ → ℕ → ℕ → Text × ℕ
emitted zero acc bits = ([], bits)
emitted (suc fuel) acc bits =
    let (chars, left) = emitted fuel acc (bits - 5) in
    if leb 5 bits then (letter (acc / 2 ^ (bits - 5) % 32) ∷ chars, left) else ([], bits)

unfoldable pub encode_from : ℕ → ℕ → List ℕ → Text
unfolding emitted
encode_from acc bits [] =
    if leb 1 bits then letter (acc * 2 ^ (5 - bits) % u16_mod % 32) ∷ [] else []
encode_from acc bits (byte ∷ bytes) =
    let acc' = acc * 256 % u16_mod + byte in
    let (chars, left) = emitted (bits + 8) acc' (bits + 8) in chars ++ encode_from acc' left bytes

-- `encode`
unfoldable pub encode : List ℕ → Text
unfolding encode_from
encode bytes = encode_from 0 0 bytes
