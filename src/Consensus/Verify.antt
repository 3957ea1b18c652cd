-- ===== src/Consensus/Verify.antt =====
-- src/tor/dir/consensus.rs, `parse_and_verify`, `timestamp`, `shared_random` and `Consensus`.
pub mod Signed
pub mod Accepted
use rust_tor_proxy.Prelude.{
  ℕ, Bool, not, ◌&&◌, Option, none, some, List, [], ◌∷◌, ◌++◌, length, get_elem?, take, drop, any,
  ltb, leb, ◌==◌, if◌then◌else◌, Text, codes, text_eq, lines, split, split_once, split_whitespace,
  as_bytes, retain, Result, ok, err, invalid_data, ◌>>=◌,
}
use rust_tor_proxy.Path.Relay.{RouterStatus, has, BandwidthWeights}
use rust_tor_proxy.Netdoc.{item, base64_fixed}
use rust_tor_proxy.Consensus.Authority.{is_authority, required_signatures}
use rust_tor_proxy.Consensus.Certificates.{KeyCertificate, find_cert, timestamp_in}
use rust_tor_proxy.Consensus.Params.{Params, from_document}
use rust_tor_proxy.Consensus.Routers.{parse_routers}
use rust_tor_proxy.Consensus.Signatures.{Signature, signatures, signed_length}

pub record Consensus : Type 0 where
  pub valid_after : ℕ
  pub fresh_until : ℕ
  pub valid_until : ℕ
  pub routers : List RouterStatus
  pub params : Params
  pub shared_rand_current : Option (List ℕ)
  pub shared_rand_previous : Option (List ℕ)

-- `is_live`, `bandwidth_weights` and `count_with`
unfoldable pub is_live : Consensus → ℕ → Bool
is_live consensus now = ltb now consensus.valid_until

abbrev pub bandwidth_weights : Consensus → BandwidthWeights
bandwidth_weights consensus = consensus.params.bandwidth_weights

unfoldable pub count_with : Consensus → ℕ → ℕ
count_with consensus flags = length (retain (λ r. has r flags) consensus.routers)

abbrev decoded : Result (List ℕ) → Option (List ℕ)
decoded (err e) = none
decoded (ok bytes) = some bytes

abbrev value_in : Option Text → Option (List ℕ)
value_in none = none
value_in (some value) = decoded (base64_fixed 32 value)

abbrev second_field : Option Text → Option Text
second_field none = none
second_field (some args) = get_elem? (split_whitespace args) 1

-- `shared_random`
unfoldable pub shared_random : Text → Text → Option (List ℕ)
unfolding item base64_fixed split_whitespace
shared_random text keyword = value_in (second_field (item text keyword))

-- `timestamp`
unfoldable pub timestamp : Text → Text → Result ℕ
unfolding item
timestamp text keyword =
    timestamp_in (invalid_data "consensus has no {keyword}") (invalid_data "bad {keyword}")
      (item text keyword)

-- `digest`, from those of the signed text; another algorithm is ignored.
unfoldable pub digest_for : Text → List ℕ → List ℕ → Option (List ℕ)
unfolding text_eq
digest_for algorithm digest_sha1 digest_sha256 =
    if text_eq algorithm (codes "sha256")
    then some digest_sha256
    else if text_eq algorithm (codes "sha1")
    then some digest_sha1
    else none

-- The checks of `parse_and_verify`, in their order.
abbrev pub check_header : List Text → Result {0} Unit
check_header [] = err (invalid_data "empty consensus")
check_header (header ∷ rest) =
    if text_eq header (codes "network-status-version 3 microdesc")
    then ok tt
    else err (invalid_data "not a microdescriptor consensus: {header:?}")

abbrev pub check_signers : ℕ → Result {0} Unit
check_signers n =
    if ltb n required_signatures
    then err (invalid_data "consensus has {} valid authority signatures, need {needed}")
    else ok tt

abbrev pub check_expiry : ℕ → ℕ → Result {0} Unit
check_expiry now valid_until =
    if leb valid_until now then err (invalid_data "consensus expired at {}") else ok tt

abbrev pub check_routers : List RouterStatus → Result {0} Unit
check_routers [] = err (invalid_data "consensus lists no routers")
check_routers (r ∷ rs) = ok tt

module _ {Key : Type 0} (sha1 sha256 : List ℕ → List ℕ)
    (verify_digest : Key → List ℕ → List ℕ → Bool) where
  -- Whether the signature counts: each `continue` of the loop is `false`.
  abbrev pub verifies : Signature → List ℕ → Option (KeyCertificate Key) → Bool
  verifies signature digest none = Bool.false
  verifies signature digest (some cert) =
      is_authority signature.identity && verify_digest cert.signing_key digest signature.value

  abbrev pub checks : List (KeyCertificate Key) → Signature → Option (List ℕ) → Bool
  checks certs signature none = Bool.false
  checks certs signature (some digest) =
      verifies signature digest (find_cert signature.identity signature.signing_key_digest certs)

  -- One turn of the loop over the signatures.
  unfoldable pub count_signature :
      List (KeyCertificate Key) → List ℕ → List ℕ → List ℕ → Signature → List ℕ
  count_signature certs digest_sha1 digest_sha256 signers signature =
      if checks certs signature (digest_for signature.algorithm digest_sha1 digest_sha256)
        && not (any (λ s. s == signature.identity) signers)
      then signers ++ (signature.identity ∷ [])
      else signers

  abbrev pub count_signatures :
      List (KeyCertificate Key) → List ℕ → List ℕ → List ℕ → List Signature → List ℕ
  count_signatures certs digest_sha1 digest_sha256 signers [] = signers
  count_signatures certs digest_sha1 digest_sha256 signers (signature ∷ rest) =
      count_signatures certs digest_sha1 digest_sha256
        (count_signature certs digest_sha1 digest_sha256 signers signature) rest

  -- `signers`
  unfoldable pub signers_of : Text → List (KeyCertificate Key) → ℕ → List ℕ
  unfolding as_bytes signatures
  signers_of text certs signed_len =
      let signed = as_bytes (take signed_len text) in
      count_signatures certs (sha1 signed) (sha256 signed) [] (signatures (drop signed_len text))

  -- `parse_and_verify`
  unfoldable pub parse_and_verify : Text → List (KeyCertificate Key) → ℕ → Result Consensus
  unfolding lines signed_length
  parse_and_verify text certs now = do
    _ ← check_header (lines text)
    signed_len ← signed_length text
    _ ← check_signers (length (signers_of text certs signed_len))
    valid_after ← timestamp text (codes "valid-after")
    fresh_until ← timestamp text (codes "fresh-until")
    valid_until ← timestamp text (codes "valid-until")
    _ ← check_expiry now valid_until
    let routers = parse_routers (take signed_len text)
    _ ← check_routers routers
    ok (record {
      valid_after = valid_after;
      fresh_until = fresh_until;
      valid_until = valid_until;
      routers = routers;
      params = from_document text;
      shared_rand_current = shared_random text (codes "shared-rand-current-value");
      shared_rand_previous = shared_random text (codes "shared-rand-previous-value");
    })
