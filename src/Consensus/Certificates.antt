-- ===== src/Consensus/Certificates.antt =====
-- src/tor/dir/authority.rs: `KeyCertificate`, `parse_key_certificates` and `serialize`. `sha1` and the operations
-- of RSA keys are parameters; a fingerprint is a number, as every identity of 20 bytes.
pub mod Trusted
use rust_tor_proxy.Prelude.{
  ℕ, zero, suc, ◌+◌, Bool, true, false, not, ◌&&◌, Option, none, some, List, [], ◌∷◌, ◌++◌, length,
  take, drop, any, leb, ◌==◌, if◌then◌else◌, Text, codes, text_eq, split, split_once, find,
  trim_end, as_bytes, Error, Result, ok, err, invalid_data, ◌>>=◌,
}
use rust_tor_proxy.Encoding.Hex.{hex_decode}
use rust_tor_proxy.Encoding.Dates.{parse_datetime}
use rust_tor_proxy.Netdoc.{item, line_start_of, line_end_after, object, number_from}
use rust_tor_proxy.Consensus.Authority.{is_authority}

-- A `KeyCertificate`, over the type of RSA keys.
pub record KeyCertificate (Key : Type 0) : Type 0 where
  pub v3ident : ℕ
  pub signing_key_digest : ℕ
  pub signing_key : Key
  pub text : Text

-- `KeyCertificate::matches`, and the condition of `parse_and_verify`'s search.
abbrev pub matches : {Key : Type 0} → KeyCertificate Key → ℕ → ℕ → Bool
matches cert v3ident digest = cert.v3ident == v3ident && cert.signing_key_digest == digest

abbrev pub find_cert :
    {Key : Type 0} → ℕ → ℕ → List (KeyCertificate Key) → Option (KeyCertificate Key)
find_cert v3ident digest [] = none
find_cert v3ident digest (cert ∷ certs) =
    if matches cert v3ident digest then some cert else find_cert v3ident digest certs

abbrev first_field : List Text → Text → Text
first_field [] whole = whole
first_field (f ∷ fs) whole = f

abbrev datetime_in : Error → Option (Text × Text) → Result ℕ
datetime_in bad none = err bad
datetime_in bad (some (date, time)) = parse_datetime date (first_field (split b' ' time) time)

-- The date and time that an item has, as a certificate and a consensus both read it; the errors are the caller's.
abbrev pub timestamp_in : Error → Error → Option Text → Result ℕ
timestamp_in missing bad none = err missing
timestamp_in missing bad (some args) = datetime_in bad (split_once b' ' args)

abbrev pub or_missing {ℓ} : {A : Type ℓ} → Error → Option A → Result A
or_missing e none = err e
or_missing e (some a) = ok a

abbrev pub twenty_bytes : List ℕ → Result ℕ
twenty_bytes bytes =
    if length bytes == 20
    then ok (number_from 0 bytes)
    else err (invalid_data "key certificate fingerprint is not 20 bytes")

-- A condition that returns an error where it fails.
abbrev pub ensure : Bool → Error → Result {0} Unit
ensure true e = ok tt
ensure false e = err e

abbrev end_marker : Text
end_marker = codes "-----END SIGNATURE-----"

abbrev cut_at : Text → Option ℕ → Option (Text × Text)
cut_at body none = none
cut_at body (some i) = some (take (i + length end_marker) body, drop (i + length end_marker) body)

abbrev from_start : Text → Option ℕ → Option (Text × Text)
from_start rest none = none
from_start rest (some start) = cut_at (drop start rest) (find end_marker (drop start rest))

-- The next certificate's text and what follows it; `none` where the loop ends.
unfoldable pub next_certificate : Text → Option (Text × Text)
unfolding line_start_of find
next_certificate rest = from_start rest (line_start_of rest (codes "dir-key-certificate-version"))

-- The body of the loop: a certificate that parses and is an authority's goes to the front of the rest.
abbrev pub keep_parsed :
    {Key : Type 0}
    → Result (KeyCertificate Key)
    → List (KeyCertificate Key)
    → List (KeyCertificate Key)
keep_parsed (err e) rest = rest
keep_parsed (ok cert) rest = if is_authority cert.v3ident then cert ∷ rest else rest

-- The RSA key in the object that follows the text's first line with this keyword.
abbrev pub key_after : {Key : Type 0} → (List ℕ → Result Key) → Text → Text → Error → Result Key
key_after from_pkcs1_der text keyword missing = do
  start ← or_missing missing (line_start_of text keyword)
  der ← object (drop start text) (codes "RSA PUBLIC KEY")
  from_pkcs1_der der

module _ {Key : Type 0} (sha1 : List ℕ → List ℕ) (from_pkcs1_der : List ℕ → Result Key)
    (fingerprint : Key → ℕ) (verify_digest : Key → List ℕ → List ℕ → Bool) where
  -- `KeyCertificate::parse`
  unfoldable pub parse : Text → ℕ → Result (KeyCertificate Key)
  unfolding item line_start_of line_end_after object hex_decode
  parse text now = do
    version ←
        or_missing (invalid_data "key certificate has no version")
          (item text (codes "dir-key-certificate-version"))
    _ ←
        ensure (text_eq version (codes "3"))
          (invalid_data "unsupported key certificate version {version}")
    digits ←
        or_missing (invalid_data "key certificate has no fingerprint")
          (item text (codes "fingerprint"))
    bytes ← hex_decode digits
    v3ident ← twenty_bytes bytes
    expires ←
        timestamp_in (invalid_data "key certificate has no dir-key-expires")
          (invalid_data "bad dir-key-expires") (item text (codes "dir-key-expires"))
    _ ← ensure (not (leb expires now)) (invalid_data "key certificate expired at {}")
    identity_key ←
        key_after from_pkcs1_der text (codes "dir-identity-key")
          (invalid_data "key certificate has no dir-identity-key")
    _ ←
        ensure (fingerprint identity_key == v3ident)
          (invalid_data "key certificate fingerprint does not match its identity key")
    signing_key ←
        key_after from_pkcs1_der text (codes "dir-signing-key")
          (invalid_data "key certificate has no dir-signing-key")
    signed_end ←
        or_missing (invalid_data "key certificate has no dir-key-certification")
          (line_end_after text (codes "dir-key-certification"))
    signature ← object (drop signed_end text) (codes "SIGNATURE")
    _ ←
        ensure (verify_digest identity_key (sha1 (as_bytes (take signed_end text))) signature)
          (invalid_data "key certificate is not signed by its own identity key")
    ok (record {
      v3ident = v3ident;
      signing_key_digest = fingerprint signing_key;
      signing_key = signing_key;
      text = text;
    })

  -- The loop of `parse_key_certificates`; each turn takes a marker off the text.
  unfoldable pub certificates_from : ℕ → Text → ℕ → List (KeyCertificate Key)
  certificates_from zero rest now = []
  certificates_from (suc fuel) rest now = elim (next_certificate rest) [
    | none ↦ []
    | some (body, rest') ↦ keep_parsed (parse body now) (certificates_from fuel rest' now)
  ]

  -- `parse_key_certificates`
  unfoldable pub parse_key_certificates : Text → ℕ → List (KeyCertificate Key)
  parse_key_certificates text now = certificates_from (suc (length text)) text now

-- The loop of `serialize`, with the pairs that it has seen.
unfoldable pub serialize_unseen : {Key : Type 0} → List (ℕ × ℕ) → List (KeyCertificate Key) → Text
unfolding trim_end
serialize_unseen seen [] = []
serialize_unseen seen (cert ∷ certs) =
    let repeat = any (λ (k : ℕ × ℕ). k.0 == cert.v3ident && k.1 == cert.signing_key_digest) seen in
    let skipped = serialize_unseen seen certs in
    let written = serialize_unseen (seen ++ ((cert.v3ident, cert.signing_key_digest) ∷ [])) certs in
    if repeat then skipped else trim_end cert.text ++ (10 ∷ written)

-- `serialize`
unfoldable pub serialize : {Key : Type 0} → List (KeyCertificate Key) → Text
serialize certs = serialize_unseen [] certs
