-- ===== src/Encoding/Base32/Tests.antt =====
-- Runs of base32.
use rust_tor_proxy.Prelude.{◌≡◌, refl, [], ◌∷◌, codes, ok}
use rust_tor_proxy.Encoding.Base32.{
  decode, encode, value, decode_from, decode_end, encode_from, emitted,
}

encode-hi : encode (104 ∷ 105 ∷ []) ≡ codes "nbuq"
unfolding encode encode_from emitted
encode-hi = refl

decode-capitals : decode (codes "NBUQ") ≡ ok (104 ∷ 105 ∷ [])
unfolding decode decode_from decode_end value
decode-capitals = refl
