-- ===== src/Consensus/Signatures.antt =====
-- src/tor/dir/consensus.rs, `signed_length`, `signatures`, `parse_signature` and `required_certificates`.
pub mod Blocks
use rust_tor_proxy.Prelude.{
  ℕ, zero, suc, ◌+◌, Bool, Option, none, some, List, [], ◌∷◌, length, take, drop, retain, map, ◌==◌,
  if◌then◌else◌, Text, codes, split_once, split_whitespace, find, Result, ok, err, invalid_data,
}
use rust_tor_proxy.Encoding.Hex.{hex_decode}
use rust_tor_proxy.Netdoc.{line_start_of, object, number_from}
use rust_tor_proxy.Consensus.Authority.{is_authority}

pub record Signature : Type 0 where
  pub algorithm : Text
  pub identity : ℕ
  pub signing_key_digest : ℕ
  pub value : List ℕ

abbrev pub keyword : Text
keyword = codes "directory-signature "

abbrev pub end_marker : Text
end_marker = codes "-----END SIGNATURE-----"

abbrev length_from : Option ℕ → Result ℕ
length_from none = err (invalid_data "consensus has no directory-signature")
length_from (some start) = ok (start + length keyword)

-- `signed_length`
unfoldable pub signed_length : Text → Result ℕ
unfolding line_start_of
signed_length text = length_from (line_start_of text keyword)

-- The 20 bytes of `hex_decode(..).ok()?.try_into().ok()?`, as a number.
abbrev pub twenty : Result (List ℕ) → Option ℕ
twenty (err e) = none
twenty (ok bytes) = if length bytes == 20 then some (number_from 0 bytes) else none

abbrev signature_of : Text → Option ℕ → Option ℕ → Result (List ℕ) → Option Signature
signature_of algorithm none key value = none
signature_of algorithm (some id) none value = none
signature_of algorithm (some id) (some key) (err e) = none
signature_of algorithm (some id) (some key) (ok bytes) =
    some (record { algorithm = algorithm; identity = id; signing_key_digest = key; value = bytes })

-- `parse_signature`, on the fields of its arguments.
unfoldable pub parse_signature_fields : List Text → Text → Option Signature
unfolding hex_decode object
parse_signature_fields (identity_hex ∷ key_hex ∷ []) body =
    signature_of (codes "sha1") (twenty (hex_decode identity_hex)) (twenty (hex_decode key_hex))
      (object body (codes "SIGNATURE"))
parse_signature_fields (algorithm ∷ identity_hex ∷ key_hex ∷ []) body =
    signature_of algorithm (twenty (hex_decode identity_hex)) (twenty (hex_decode key_hex))
      (object body (codes "SIGNATURE"))
parse_signature_fields fields body = none

unfoldable pub parse_signature : Text → Text → Option Signature
unfolding split_whitespace
parse_signature args body = parse_signature_fields (split_whitespace args) body

abbrev pub past_keyword : Text → Option ℕ → Option (Text × Text)
past_keyword rest none = none
past_keyword rest (some start) = split_once 10 (drop (start + length keyword) rest)

-- The arguments of a block and what follows their line; the keyword of the first block is taken already.
unfoldable pub block_of : Bool → Text → Option (Text × Text)
unfolding line_start_of split_once
block_of Bool.true rest = split_once 10 rest
block_of Bool.false rest = past_keyword rest (line_start_of rest keyword)

abbrev pub end_of : Option ℕ → Option ℕ
end_of none = none
end_of (some i) = some (i + length end_marker)

abbrev pub push_signature : Option Signature → List Signature → List Signature
push_signature none out = out
push_signature (some signature) out = signature ∷ out

-- A turn of the loop: the block, and the text after it; `none` where the loop breaks.
abbrev pub end_block : Text → Text → Option ℕ → Option (Option Signature × Text)
end_block args body none = none
end_block args body (some stop) = some (parse_signature args (take stop body), drop stop body)

abbrev pub split_block : Option (Text × Text) → Option (Option Signature × Text)
split_block none = none
split_block (some (args, body)) = end_block args body (end_of (find end_marker body))

-- The loop of `signatures`. Each turn takes the 23 characters of a marker off the text, so the text's length is fuel
-- enough.
unfoldable pub signature_blocks : ℕ → Bool → Text → List Signature
unfolding find
signature_blocks zero first rest = []
signature_blocks (suc fuel) first rest = elim (split_block (block_of first rest)) [
  | none ↦ []
  | some (signature, rest') ↦ push_signature signature (signature_blocks fuel Bool.false rest')
]

-- `signatures`
unfoldable pub signatures : Text → List Signature
signatures tail = signature_blocks (suc (length tail)) Bool.true tail

abbrev certificates_of : Text → Result ℕ → List (ℕ × ℕ)
certificates_of text (err e) = []
certificates_of text (ok signed_len) =
    map (λ s. (s.identity, s.signing_key_digest))
      (retain (λ s. is_authority s.identity) (signatures (drop signed_len text)))

-- `required_certificates`
unfoldable pub required_certificates : Text → List (ℕ × ℕ)
unfolding signed_length
required_certificates text = certificates_of text (signed_length text)
