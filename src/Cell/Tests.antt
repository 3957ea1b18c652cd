-- ===== src/Cell/Tests.antt =====
-- Runs of src/tor/cell.rs, and instances of what is proved of it.
use rust_tor_proxy.Prelude.{
  ◌<◌, ◌≡◌, refl, inl, [], ◌∷◌, ◌++◌, length, some, ok, err, invalid_data, arith,
}
use rust_tor_proxy.Cell.{
  Cell, new, encode, try_parse, is_variable_length, circ_id_bytes, length_bytes, be_u16,
}
use rust_tor_proxy.Cell.Bytes.{be16}
use rust_tor_proxy.Cell.Roundtrip.{IsFramed, try_parse-encode}

abbrev versions : Cell
versions = record { circ_id = 258; command = 7; body = 0 ∷ 3 ∷ 0 ∷ 4 ∷ [] }

encode-versions : encode versions 2 ≡ 1 ∷ 2 ∷ 7 ∷ 0 ∷ 4 ∷ 0 ∷ 3 ∷ 0 ∷ 4 ∷ []
unfolding encode circ_id_bytes length_bytes is_variable_length be16
encode-versions = refl

be_u16_short : be_u16 (1 ∷ 2 ∷ 3 ∷ []) 2 ≡ err (invalid_data "truncated u16")
unfolding be_u16
be_u16_short = refl

versions-IsFramed : IsFramed versions 2
unfolding is_variable_length
versions-IsFramed = record { width_of = inl (refl, omega arith); fits = omega arith }

try_parse-encode_example :
    try_parse (encode versions 2 ++ (9 ∷ 9 ∷ [])) 2
    ≡ ok (some (versions, length (encode versions 2)))
try_parse-encode_example = try_parse-encode versions 2 (9 ∷ 9 ∷ []) versions-IsFramed

versions_long : 6 < length (encode versions 2)
unfolding encode circ_id_bytes length_bytes is_variable_length be16
versions_long = omega arith

new-versions : new 258 7 (0 ∷ 3 ∷ 0 ∷ 4 ∷ []) ≡ ok versions
unfolding new is_variable_length
new-versions = refl
