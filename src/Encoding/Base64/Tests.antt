-- ===== src/Encoding/Base64/Tests.antt =====
-- Runs of base64, and an instance of what is proved of it.
use rust_tor_proxy.Prelude.{◌≡◌, refl, [], ◌∷◌, codes, ok}
use rust_tor_proxy.Encoding.Base64.{base64_decode, b64_value, decode_from, decode_end}

decode-hi : base64_decode (codes "aGk=") ≡ ok (104 ∷ 105 ∷ [])
unfolding base64_decode decode_from decode_end b64_value
decode-hi = refl
