-- ===== src/Encoding/Base64.antt =====
-- src/util.rs, `base64_decode` and `base64_encode_unpadded`. The `u32` accumulator keeps what it shifts
-- out of use, and wraps; `|` joins bits that do not meet, and is `+`.
pub mod Roundtrip
mod Tests
use rust_tor_proxy.Prelude.{
  ℕ, ◌+◌, ◌-◌, ◌*◌, ◌/◌, ◌%◌, ◌^◌, Bool, not, ◌&&◌, ◌||◌, Option, none, some, List, [], ◌∷◌, get_or,
  leb, ◌==◌, if◌then◌else◌, Text, codes, Result, ok, err, invalid_data, ◌>>=◌, u32_mod,
}

-- `B64_ALPHABET`
abbrev pub b64_alphabet : Text
b64_alphabet = codes "ABCDEFGHIJKLMNOPQRSTUVWXYZabcdefghijklmnopqrstuvwxyz0123456789+/"

-- `b64_value`
unfoldable pub b64_value : ℕ → Option ℕ
b64_value c =
    if leb b'A' c && leb c b'Z'
    then some (c - b'A')
    else if leb b'a' c && leb c b'z'
    then some (c - b'a' + 26)
    else if leb b'0' c && leb c b'9'
    then some (c - b'0' + 52)
    else if c == b'+'
    then some 62
    else if c == b'/'
    then some 63
    else none

-- What a character does to the loop of `base64_decode`.
pub data Mark : Type 0 where
  stop skip bad : Mark
  digit : ℕ → Mark

abbrev mark_of : Option ℕ → Mark
mark_of none = bad
mark_of (some v) = digit v

unfoldable pub mark : ℕ → Mark
unfolding b64_value
mark c =
    if c == b'='
    then stop
    else if c == 32 || (c == 9 || (c == 13 || c == 10))
    then skip
    else mark_of (b64_value c)

-- The check after the loop.
unfoldable pub decode_end : ℕ → ℕ → Result (List ℕ)
decode_end acc bits =
    if leb 6 bits || not (acc % 2 ^ bits == 0)
    then err (invalid_data "truncated base64 group")
    else ok []

-- The byte that is complete, if one is.
abbrev push_byte : ℕ → ℕ → Result (List ℕ) → Result (List ℕ)
push_byte acc bits more =
    if leb 8 bits then (more >>= λ rest. ok (acc / 2 ^ (bits - 8) % 256 ∷ rest)) else more

-- One turn of the loop; `more` is the rest of it.
abbrev pub turn : ℕ → ℕ → Mark → (ℕ → ℕ → Result (List ℕ)) → Result (List ℕ)
turn acc bits stop more = decode_end acc bits
turn acc bits skip more = more acc bits
turn acc bits bad more = err (invalid_data "invalid base64 character")
turn acc bits (digit v) more =
    let acc' = acc * 64 % u32_mod + v in
    push_byte acc' (bits + 6) (more acc' (if leb 8 (bits + 6) then bits + 6 - 8 else bits + 6))

unfoldable pub decode_from : ℕ → ℕ → Text → Result (List ℕ)
unfolding mark decode_end
decode_from acc bits [] = decode_end acc bits
decode_from acc bits (c ∷ cs) = turn acc bits (mark c) (λ acc' bits'. decode_from acc' bits' cs)

-- `base64_decode`
unfoldable pub base64_decode : Text → Result (List ℕ)
unfolding decode_from
base64_decode input = decode_from 0 0 input

abbrev pub letter : ℕ → ℕ
letter v = get_or b64_alphabet v 0

-- `base64_encode_unpadded`
unfoldable pub base64_encode_unpadded : List ℕ → Text
base64_encode_unpadded [] = []
base64_encode_unpadded (a ∷ []) =
    letter (a * 65536 / 262144 % 64) ∷ letter (a * 65536 / 4096 % 64) ∷ []
base64_encode_unpadded (a ∷ b ∷ []) =
    let n = a * 65536 + b * 256 in
    letter (n / 262144 % 64) ∷ letter (n / 4096 % 64) ∷ letter (n / 64 % 64) ∷ []
base64_encode_unpadded (a ∷ b ∷ c ∷ rest) =
    let n = a * 65536 + b * 256 + c in
    letter (n / 262144 % 64)
    ∷ letter (n / 4096 % 64)
    ∷ letter (n / 64 % 64)
    ∷ letter (n % 64)
    ∷ base64_encode_unpadded rest
