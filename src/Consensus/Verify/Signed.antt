-- ===== src/Consensus/Verify/Signed.antt =====
-- src/tor/dir/consensus.rs, `parse_and_verify`: whose signatures are counted.
use mathlib.Core.List.{Memᴰ}
use mathlib.Core.Option.{some-injective}
use rust_tor_proxy.Prelude.{
  ℕ, ◌≡◌, refl, arith, Bool, true, Bool-cases, inl, inr, Option, none, some, List, [], ◌∷◌, take,
  drop, All, All-append, Text, as_bytes, has_identity, distinct, distinct-append, if◌then◌else◌,
  sym, subst,
}
use rust_tor_proxy.Consensus.Authority.{is_authority}
use rust_tor_proxy.Consensus.Signatures.{Signature, signatures}
use rust_tor_proxy.Consensus.Certificates.{KeyCertificate, matches, find_cert}
use rust_tor_proxy.Consensus.Verify.{
  digest_for, verifies, checks, count_signature, count_signatures, signers_of,
}

pub find_cert-Mem :
    {Key : Type 0} (v3ident digest : ℕ) (certs : List (KeyCertificate Key))
    (cert : KeyCertificate Key)
    → find_cert v3ident digest certs ≡ some cert
    → Memᴰ cert certs × (matches cert v3ident digest ≡ true)
find_cert-Mem v3ident digest [] cert e = absurd (ground arith)
find_cert-Mem v3ident digest (c ∷ certs) cert e = elim (Bool-cases (matches c v3ident digest)) [
  | inl found ↦
      let same : c ≡ cert =
        some-injective c cert (
          subst (λ b. (if b then some c else find_cert v3ident digest certs) ≡ some cert) found
            e) in
      (Memᴰ.head (sym same), subst (λ x. matches x v3ident digest ≡ true) same found)
  | inr other ↦
      let (later, named) =
        find_cert-Mem v3ident digest certs cert (
          subst (λ b. (if b then some c else find_cert v3ident digest certs) ≡ some cert) other
            e) in
      (Memᴰ.tail later, named)
]

module _ {Key : Type 0} (sha1 sha256 : List ℕ → List ℕ)
    (verify_digest : Key → List ℕ → List ℕ → Bool) where
  -- What makes an identity count as a signer of the first `signed_len` characters: a listed signature, by a known
  -- authority, which a given certificate's key verifies on a digest of exactly those characters.
  pub record Endorsed (text : Text) (certs : List (KeyCertificate Key)) (signed_len identity : ℕ)
      : Type 0 where
    pub signature : Signature
    pub listed : Memᴰ signature (signatures (drop signed_len text))
    pub signer : signature.identity ≡ identity
    pub known : is_authority identity ≡ true
    pub cert : KeyCertificate Key
    pub given : Memᴰ cert certs
    pub named : matches cert identity signature.signing_key_digest ≡ true
    pub digest : List ℕ
    pub algorithm :
        digest_for signature.algorithm
          (sha1 (as_bytes (take signed_len text)))
          (sha256 (as_bytes (take signed_len text)))
        ≡ some digest
    pub verified : verify_digest cert.signing_key digest signature.value ≡ true

  verifies-Endorsed :
      (text : Text) (certs : List (KeyCertificate Key)) (signed_len : ℕ) (signature : Signature)
      (digest : List ℕ) (found : Option (KeyCertificate Key))
      → Memᴰ signature (signatures (drop signed_len text))
      → digest_for signature.algorithm
          (sha1 (as_bytes (take signed_len text)))
          (sha256 (as_bytes (take signed_len text)))
        ≡ some digest
      → find_cert signature.identity signature.signing_key_digest certs ≡ found
      → verifies sha1 sha256 verify_digest signature digest found ≡ true
      → Endorsed text certs signed_len signature.identity
  verifies-Endorsed text certs signed_len signature digest none listed e e' h =
      absurd (ground arith)
  verifies-Endorsed text certs signed_len signature digest (some cert) listed e e' h =
      let (given, named) =
        find_cert-Mem signature.identity signature.signing_key_digest certs cert e' in
      record {
        signature = signature;
        listed = listed;
        signer = refl;
        known = ground arith;
        cert = cert;
        given = given;
        named = named;
        digest = digest;
        algorithm = e;
        verified = ground arith;
      }

  checks-Endorsed :
      (text : Text) (certs : List (KeyCertificate Key)) (signed_len : ℕ) (signature : Signature)
      (algorithm : Option (List ℕ))
      → Memᴰ signature (signatures (drop signed_len text))
      → digest_for signature.algorithm
          (sha1 (as_bytes (take signed_len text)))
          (sha256 (as_bytes (take signed_len text)))
        ≡ algorithm
      → checks sha1 sha256 verify_digest certs signature algorithm ≡ true
      → Endorsed text certs signed_len signature.identity
  checks-Endorsed text certs signed_len signature none listed e h = absurd (ground arith)
  checks-Endorsed text certs signed_len signature (some digest) listed e h =
      verifies-Endorsed text certs signed_len signature digest _ listed e refl h

  -- What the loop keeps: the signers counted so far are different, and each is endorsed.
  abbrev Counted : Text → List (KeyCertificate Key) → ℕ → List ℕ → Type 0
  Counted text certs signed_len signers =
      (distinct signers ≡ true) × All (Endorsed text certs signed_len) signers

  count_signature-Counted :
      (text : Text) (certs : List (KeyCertificate Key)) (signed_len : ℕ) (signers : List ℕ)
      (signature : Signature)
      → Memᴰ signature (signatures (drop signed_len text))
      → Counted text certs signed_len signers
      → let signed = as_bytes (take signed_len text) in
        Counted text certs signed_len (
          count_signature sha1 sha256 verify_digest certs
            (sha1 signed)
            (sha256 signed)
            signers
            signature)
  unfolding count_signature
  count_signature-Counted text certs signed_len signers signature listed (different, endorsed) =
      let signed = as_bytes (take signed_len text) in
      let algorithm = digest_for signature.algorithm (sha1 signed) (sha256 signed) in
      elim (Bool-cases (checks sha1 sha256 verify_digest certs signature algorithm)) [
        | inr refused ↦ rw refused (different, endorsed)
        | inl valid ↦ elim (Bool-cases (has_identity signature.identity signers)) [
          | inl again ↦ rw (valid, again) (different, endorsed)
          | inr fresh ↦
              rw (valid, fresh)
                (
                  distinct-append signature.identity signers different fresh,
                  All-append (Endorsed text certs signed_len) signers signature.identity endorsed
                      (checks-Endorsed text certs signed_len signature algorithm listed refl valid),
                )
        ]
      ]

  count_signatures-Counted :
      (text : Text) (certs : List (KeyCertificate Key)) (signed_len : ℕ) (signers : List ℕ)
      (rest : List Signature)
      → ((s : Signature) → Memᴰ s rest → Memᴰ s (signatures (drop signed_len text)))
      → Counted text certs signed_len signers
      → let signed = as_bytes (take signed_len text) in
        Counted text certs signed_len (
          count_signatures sha1 sha256 verify_digest certs
            (sha1 signed)
            (sha256 signed)
            signers
            rest)
  count_signatures-Counted text certs signed_len signers [] listed h = h
  count_signatures-Counted text certs signed_len signers (signature ∷ rest) listed h =
      let signed = as_bytes (take signed_len text) in
      count_signatures-Counted text certs signed_len
        (count_signature sha1 sha256 verify_digest certs (sha1 signed) (sha256 signed) signers
          signature)
        rest (λ s m. listed s (Memᴰ.tail m))
        (count_signature-Counted text certs signed_len signers signature
          (listed signature (Memᴰ.head refl)) h)

  pub signers_of-Endorsed :
      (text : Text) (certs : List (KeyCertificate Key)) (signed_len : ℕ)
      → let signers = signers_of sha1 sha256 verify_digest text certs signed_len in
        (distinct signers ≡ true) × All (Endorsed text certs signed_len) signers
  unfolding signers_of
  signers_of-Endorsed text certs signed_len =
      count_signatures-Counted text certs signed_len [] (signatures (drop signed_len text))
        (λ s m. m) (refl, tt)
