-- ===== src/Consensus/Certificates/Trusted.antt =====
-- src/tor/dir/authority.rs: what `parse_key_certificates` lets through.
use rust_tor_proxy.Prelude.{
  ℕ, zero, suc, ◌<◌, ◌≡◌, refl, subst, arith, Bool, true, false, not, Bool-cases, Option-cases, inl,
  inr, Option, none, some, List, ◌++◌, ◌⊎◌, sym, ◌∙◌, Result-cases, take-append-drop, All, take,
  drop, length, Text, codes, as_bytes, leb, ◌==◌, Error, Result, ok, err, invalid_data, bind_ok,
  ok_injective, text_eq,
}
use rust_tor_proxy.Encoding.Hex.{hex_decode}
use rust_tor_proxy.Netdoc.{item, line_start_of, line_end_after, object}
use rust_tor_proxy.Netdoc.Prefix.{line_start_of-bound, line_start_of-append, object-drop-append}
use rust_tor_proxy.Consensus.Authority.{is_authority}
use rust_tor_proxy.Consensus.Certificates.{
  KeyCertificate, timestamp_in, or_missing, twenty_bytes, ensure, key_after, parse, keep_parsed,
  next_certificate, certificates_from, parse_key_certificates,
}

pub ensure-true : (b : Bool) (e : Error) → ensure b e ≡ ok tt → b ≡ true
ensure-true true e h = refl
ensure-true false e h = absurd (ground arith)

or_missing-some :
    {A : Type 0} (e : Error) (o : Option A) (a : A) → or_missing e o ≡ ok a → o ≡ some a
or_missing-some e none a h = absurd (ground arith)
or_missing-some e (some b) a h = rw (ok_injective b a h)

abbrev pub no_identity_key : Error
no_identity_key = invalid_data "key certificate has no dir-identity-key"

abbrev pub no_signing_key : Error
no_signing_key = invalid_data "key certificate has no dir-signing-key"

-- A key that the first part of a text holds is the key that the whole text is read as.
key_after-append :
    {Key : Type 0} (from_pkcs1_der : List ℕ → Result Key) (text more keyword : Text) (e : Error)
    (key : Key)
    → key_after from_pkcs1_der text keyword e ≡ ok key
    → key_after from_pkcs1_der (text ++ more) keyword e ≡ ok key
key_after-append from_pkcs1_der text more keyword e key h =
    let (start, at, h₁) = bind_ok (or_missing e (line_start_of text keyword)) _ key h in
    let (der, found, h₂) = bind_ok (object (drop start text) (codes "RSA PUBLIC KEY")) _ key h₁ in
    let line = or_missing-some e (line_start_of text keyword) start at in
    rw
      (
        line_start_of-append text keyword more start line,
        object-drop-append text more (codes "RSA PUBLIC KEY") start der
            (line_start_of-bound text keyword start line) found,
      )
      h₂

-- The first part of a text holds no key behind this keyword, or holds this one.
abbrev pub Covers : {Key : Type 0} → (List ℕ → Result Key) → Text → Text → Error → Key → Type 0
Covers from_pkcs1_der part keyword missing key =
    ((e : Error) × (key_after from_pkcs1_der part keyword missing ≡ err e))
    ⊎ (key_after from_pkcs1_der part keyword missing ≡ ok key)

key_after-Covers :
    {Key : Type 0} (from_pkcs1_der : List ℕ → Result Key) (n : ℕ) (text keyword : Text)
    (missing : Error) (key : Key)
    → key_after from_pkcs1_der text keyword missing ≡ ok key
    → Covers from_pkcs1_der (take n text) keyword missing key
key_after-Covers {Key} from_pkcs1_der n text keyword missing key h =
    elim (Result-cases (key_after from_pkcs1_der (take n text) keyword missing)) [
      | inl (e, bad) ↦ inl (e, bad)
      | inr (k, good) ↦
          let whole : key_after from_pkcs1_der text keyword missing ≡ ok k =
            subst (λ t. key_after from_pkcs1_der t keyword missing ≡ ok k) (take-append-drop n text)
              (key_after-append from_pkcs1_der (take n text) (drop n text) keyword missing k
                good) in
          let same : k ≡ key = ok_injective k key (sym whole ∙ h) in
          inr (subst (λ x. key_after from_pkcs1_der (take n text) keyword missing ≡ ok x) same good)
    ]

module _ {Key : Type 0} (sha1 : List ℕ → List ℕ) (from_pkcs1_der : List ℕ → Result Key)
    (fingerprint : Key → ℕ) (verify_digest : Key → List ℕ → List ℕ → Bool) where
  -- A certificate whose text holds an identity key that has the identity as its fingerprint, and that signed the text
  -- up to the end of its dir-key-certification line; the signing key is the one behind the text's first
  -- dir-signing-key line, which is the signed part's own where that part has one. It had not expired at `now`.
  pub record IsSelfSigned (cert : KeyCertificate Key) (now : ℕ) : Type 0 where
    pub identity_key : Key
    pub identity_named :
        key_after from_pkcs1_der cert.text (codes "dir-identity-key") no_identity_key
        ≡ ok identity_key
    pub identity : (fingerprint identity_key == cert.v3ident) ≡ true
    pub signing : cert.signing_key_digest ≡ fingerprint cert.signing_key
    pub signing_named :
        key_after from_pkcs1_der cert.text (codes "dir-signing-key") no_signing_key
        ≡ ok cert.signing_key
    pub signed_end : ℕ
    pub part : line_end_after cert.text (codes "dir-key-certification") ≡ some signed_end
    pub covered :
        Covers from_pkcs1_der
          (take signed_end cert.text)
          (codes "dir-signing-key")
          no_signing_key
          cert.signing_key
    pub signature : List ℕ
    pub sealed : object (drop signed_end cert.text) (codes "SIGNATURE") ≡ ok signature
    pub verified :
        verify_digest identity_key (sha1 (as_bytes (take signed_end cert.text))) signature ≡ true
    pub expires : ℕ
    pub dated :
        timestamp_in
          (invalid_data "key certificate has no dir-key-expires")
          (invalid_data "bad dir-key-expires")
          (item cert.text (codes "dir-key-expires"))
        ≡ ok expires
    pub unexpired : now < expires

  leb_false : (a b : ℕ) → not (leb a b) ≡ true → b < a
  leb_false a b h = ground arith

  pub parse-IsSelfSigned :
      (text : Text) (now : ℕ) (cert : KeyCertificate Key)
      → parse sha1 from_pkcs1_der fingerprint verify_digest text now ≡ ok cert
      → IsSelfSigned cert now
  unfolding parse
  parse-IsSelfSigned text now cert h =
      let (version, _, h₁) =
        bind_ok (or_missing _ (item text (codes "dir-key-certificate-version"))) _ cert h in
      let (_, _, h₂) = bind_ok (ensure (text_eq version (codes "3")) _) _ cert h₁ in
      let (digits, _, h₃) = bind_ok (or_missing _ (item text (codes "fingerprint"))) _ cert h₂ in
      let (bytes, _, h₄) = bind_ok (hex_decode digits) _ cert h₃ in
      let (v3ident, _, h₅) = bind_ok (twenty_bytes bytes) _ cert h₄ in
      let (expires, dated, h₆) =
        bind_ok (timestamp_in _ _ (item text (codes "dir-key-expires"))) _ cert h₅ in
      let (_, unexpired, h₇) = bind_ok (ensure (not (leb expires now)) _) _ cert h₆ in
      let (identity_key, identity_named, h₈) =
        bind_ok (key_after from_pkcs1_der text (codes "dir-identity-key") _) _ cert h₇ in
      let (_, identity, h₉) = bind_ok (ensure (fingerprint identity_key == v3ident) _) _ cert h₈ in
      let (signing_key, signing_named, h₁₀) =
        bind_ok (key_after from_pkcs1_der text (codes "dir-signing-key") _) _ cert h₉ in
      let (signed_end, part, h₁₁) =
        bind_ok (or_missing _ (line_end_after text (codes "dir-key-certification"))) _ cert h₁₀ in
      let (signature, sealed, h₁₂) =
        bind_ok (object (drop signed_end text) (codes "SIGNATURE")) _ cert h₁₁ in
      let (_, verified, h₁₃) =
        bind_ok
          (ensure (verify_digest identity_key (sha1 (as_bytes (take signed_end text))) signature) _)
          _ cert h₁₂ in
      subst (λ c. IsSelfSigned c now) (ok_injective _ cert h₁₃)
        (record {
          identity_key = identity_key;
          identity_named = identity_named;
          identity = ensure-true _ _ identity;
          signing = refl;
          signing_named = signing_named;
          signed_end = signed_end;
          part = or_missing-some _ _ signed_end part;
          covered =
              key_after-Covers from_pkcs1_der signed_end text (codes "dir-signing-key")
                no_signing_key signing_key signing_named;
          signature = signature;
          sealed = sealed;
          verified = ensure-true _ _ verified;
          expires = expires;
          dated = dated;
          unexpired = leb_false expires now (ensure-true _ _ unexpired);
        })

  -- A certificate of a known authority.
  abbrev pub Trusted : ℕ → KeyCertificate Key → Type 0
  Trusted now cert = (is_authority cert.v3ident ≡ true) × IsSelfSigned cert now

  keep_parsed-All :
      (now : ℕ) (parsed : Result (KeyCertificate Key)) (rest : List (KeyCertificate Key))
      → ((cert : KeyCertificate Key) → parsed ≡ ok cert → IsSelfSigned cert now)
      → All (Trusted now) rest
      → All (Trusted now) (keep_parsed parsed rest)
  keep_parsed-All now (err e) rest h all = all
  keep_parsed-All now (ok cert) rest h all = elim (Bool-cases (is_authority cert.v3ident)) [
    | inl known ↦ rw known ((known, h cert refl), all)
    | inr unknown ↦ rw unknown all
  ]

  certificates_from-All :
      (fuel : ℕ) (rest : Text) (now : ℕ)
      → All
          (Trusted now)
          (certificates_from sha1 from_pkcs1_der fingerprint verify_digest fuel rest now)
  unfolding certificates_from
  certificates_from-All zero rest now = tt
  certificates_from-All (suc fuel) rest now = elim (Option-cases (next_certificate rest)) [
    | inl e ↦ rw (certificates_from, e) tt
    | inr ((body, rest'), e) ↦
        rw (certificates_from, e)
          (keep_parsed-All now _ _ (parse-IsSelfSigned body now)
            (certificates_from-All fuel rest' now))
  ]

  -- Every certificate that `parse_key_certificates` returns belongs to a known authority, had not expired, and is signed
  -- by the identity key whose fingerprint is that authority's identity; its signing key's fingerprint is the digest
  -- that a consensus names it by.
  pub parse_key_certificates-All-Trusted :
      (text : Text) (now : ℕ)
      → All
          (Trusted now)
          (parse_key_certificates sha1 from_pkcs1_der fingerprint verify_digest text now)
  unfolding parse_key_certificates
  parse_key_certificates-All-Trusted text now = certificates_from-All (suc (length text)) text now
