-- ===== src/Consensus/Verify/Accepted.antt =====
-- src/tor/dir/consensus.rs, `parse_and_verify`: what an accepted consensus was checked for.
use rust_tor_proxy.Prelude.{
  ℕ, ◌≤◌, ◌≡◌, ◌≢◌, refl, subst, arith, true, Bool, List, [], ◌∷◌, length, take, All, Text, codes,
  lines, distinct, ok, bind_ok, ok_injective, ltb,
}
use rust_tor_proxy.Path.Relay.{RouterStatus}
use rust_tor_proxy.Consensus.Authority.{required_signatures}
use rust_tor_proxy.Consensus.Params.Ranges.{Allowed, from_document-Allowed}
use rust_tor_proxy.Consensus.Routers.{parse_routers}
use rust_tor_proxy.Consensus.Routers.Usable.{IsUsable, parse_routers-All_usable}
use rust_tor_proxy.Consensus.Signatures.{signed_length}
use rust_tor_proxy.Consensus.Certificates.{KeyCertificate}
use rust_tor_proxy.Consensus.Verify.{
  Consensus, is_live, timestamp, signers_of, check_header, check_signers, check_expiry,
  check_routers, parse_and_verify,
}
use rust_tor_proxy.Consensus.Verify.Signed.{Endorsed, signers_of-Endorsed}

check_signers-enough : (n : ℕ) → check_signers n ≡ ok tt → required_signatures ≤ n
check_signers-enough n h = ground arith

check_expiry-live :
    (now valid_until : ℕ) → check_expiry now valid_until ≡ ok tt → ltb now valid_until ≡ true
check_expiry-live now valid_until h = ground arith

check_routers-some : (rs : List RouterStatus) → check_routers rs ≡ ok tt → rs ≢ []
check_routers-some [] h = absurd (ground arith)
check_routers-some (r ∷ rs) h = λ e. absurd (ground arith)

module _ {Key : Type 0} (sha1 sha256 : List ℕ → List ℕ)
    (verify_digest : Key → List ℕ → List ℕ → Bool) where
  -- What is known of a consensus that was accepted at the time `now`.
  pub record IsVerified (text : Text) (certs : List (KeyCertificate Key)) (now : ℕ)
      (consensus : Consensus) : Type 0 where
    pub signed_len : ℕ
    pub signed : signed_length text ≡ ok signed_len
    pub signers : List ℕ
    pub enough : required_signatures ≤ length signers
    pub different : distinct signers ≡ true
    pub endorsed : All (Endorsed sha1 sha256 verify_digest text certs signed_len) signers
    pub live : is_live consensus now ≡ true
    pub relays : consensus.routers ≡ parse_routers (take signed_len text)
    pub not_empty : consensus.routers ≢ []
    pub usable : All IsUsable consensus.routers
    pub allowed : Allowed consensus.params

  -- A consensus is accepted only with the signatures of at least five different known authorities, each on the first
  -- part of the text and under a key that a given certificate of that authority names. It is then live, and its relays
  -- are those of the signed part alone, at least one, all of which can be used; its parameters are in their ranges.
  pub parse_and_verify-IsVerified :
      (text : Text) (certs : List (KeyCertificate Key)) (now : ℕ) (consensus : Consensus)
      → parse_and_verify sha1 sha256 verify_digest text certs now ≡ ok consensus
      → IsVerified text certs now consensus
  unfolding parse_and_verify is_live
  parse_and_verify-IsVerified text certs now consensus h =
      let (_, _, h₁) = bind_ok (check_header (lines text)) _ consensus h in
      let (signed_len, signed, h₂) = bind_ok (signed_length text) _ consensus h₁ in
      let signers = signers_of sha1 sha256 verify_digest text certs signed_len in
      let (_, enough, h₃) = bind_ok (check_signers (length signers)) _ consensus h₂ in
      let (valid_after, _, h₄) = bind_ok (timestamp text (codes "valid-after")) _ consensus h₃ in
      let (fresh_until, _, h₅) = bind_ok (timestamp text (codes "fresh-until")) _ consensus h₄ in
      let (valid_until, _, h₆) = bind_ok (timestamp text (codes "valid-until")) _ consensus h₅ in
      let (_, live, h₇) = bind_ok (check_expiry now valid_until) _ consensus h₆ in
      let routers = parse_routers (take signed_len text) in
      let (_, some_routers, h₈) = bind_ok (check_routers routers) _ consensus h₇ in
      let (different, endorsed) =
        signers_of-Endorsed sha1 sha256 verify_digest text certs signed_len in
      subst (IsVerified text certs now) (ok_injective _ consensus h₈) (record {
        signed_len = signed_len;
        signed = signed;
        signers = signers;
        enough = check_signers-enough (length signers) enough;
        different = different;
        endorsed = endorsed;
        live = check_expiry-live now valid_until live;
        relays = refl;
        not_empty = check_routers-some routers some_routers;
        usable = parse_routers-All_usable (take signed_len text);
        allowed = from_document-Allowed text;
      })
