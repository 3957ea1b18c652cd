-- ===== src/Extensions/Tests.antt =====
-- Runs of the extension codec, and instances of what is proved of it.
use rust_tor_proxy.Prelude.{◌≡◌, refl, List, [], ◌∷◌, ok, err, invalid_data}
use rust_tor_proxy.Extensions.{
  Extension, encode_fields, encode_extensions, decode_fields, decode_extensions,
}

abbrev answer : List Extension
answer = record { kind = 2; body = 31 ∷ [] } ∷ record { kind = 7; body = [] } ∷ []

encode_answer : encode_extensions answer ≡ ok (2 ∷ 2 ∷ 1 ∷ 31 ∷ 7 ∷ 0 ∷ [])
unfolding encode_extensions encode_fields
encode_answer = refl

decode_answer : decode_extensions (2 ∷ 2 ∷ 1 ∷ 31 ∷ 7 ∷ 0 ∷ []) ≡ ok answer
unfolding decode_extensions decode_fields
decode_answer = refl

decode_short :
    decode_extensions (1 ∷ 2 ∷ 3 ∷ 31 ∷ [])
    ≡ err (invalid_data "truncated handshake extension body")
unfolding decode_extensions decode_fields
decode_short = refl
