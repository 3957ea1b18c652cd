-- ===== src/Encoding/Hex/Tests.antt =====
-- Runs of the hexadecimal codec, and an instance of what is proved of it.
use rust_tor_proxy.Prelude.{◌≡◌, refl, [], ◌∷◌, codes, ok, err, invalid_data}
use rust_tor_proxy.Encoding.Hex.{hex_encode, hex_decode, hex_pairs, nibble}

encode-bytes : hex_encode (10 ∷ 255 ∷ []) ≡ codes "0AFF"
unfolding hex_encode
encode-bytes = refl

decode-lower : hex_decode (codes "0aff") ≡ ok (10 ∷ 255 ∷ [])
unfolding hex_decode hex_pairs nibble
decode-lower = refl

decode-odd : hex_decode (codes "0af") ≡ err (invalid_data "odd-length hex string")
unfolding hex_decode
decode-odd = refl
