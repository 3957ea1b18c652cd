-- ===== src/Consensus/Chain.antt =====
-- src/tor/dir/authority.rs and consensus.rs together: from the authorities' identities to an accepted consensus.
use mathlib.Core.List.{Memᴰ}
use rust_tor_proxy.Prelude.{
  ℕ, ◌≤◌, ◌≡◌, Bool, true, subst, sym, List, [], ◌∷◌, All, length, Text, distinct, Result, ok,
}
use rust_tor_proxy.Consensus.Authority.{required_signatures}
use rust_tor_proxy.Consensus.Signatures.{signed_length}
use rust_tor_proxy.Consensus.Certificates.{KeyCertificate, parse_key_certificates}
use rust_tor_proxy.Consensus.Certificates.Trusted.{Trusted, parse_key_certificates-All-Trusted}
use rust_tor_proxy.Consensus.Verify.{Consensus, parse_and_verify}
use rust_tor_proxy.Consensus.Verify.Signed.{Endorsed}
use rust_tor_proxy.Consensus.Verify.Accepted.{parse_and_verify-IsVerified}

All-Mem : {A : Type 0} (P : A → Type 0) (xs : List A) (a : A) → All P xs → Memᴰ a xs → P a
All-Mem P [] a all m = elim m [ ]
All-Mem P (x ∷ xs) a (h, all) (Memᴰ.head e) = subst P (sym e) h
All-Mem P (x ∷ xs) a (h, all) (Memᴰ.tail m) = All-Mem P xs a all m

All-map :
    {A : Type 0} (P Q : A → Type 0) (xs : List A) → ((a : A) → P a → Q a) → All P xs → All Q xs
All-map P Q [] f all = tt
All-map P Q (x ∷ xs) f (h, all) = (f x h, All-map P Q xs f all)

module _ {Key : Type 0} (sha1 sha256 : List ℕ → List ℕ) (from_pkcs1_der : List ℕ → Result Key)
    (fingerprint : Key → ℕ) (verify_digest : Key → List ℕ → List ℕ → Bool) (key_text : Text)
    (loaded : ℕ) where
  abbrev pub loaded_certificates : List (KeyCertificate Key)
  loaded_certificates =
      parse_key_certificates sha1 from_pkcs1_der fingerprint verify_digest key_text loaded

  -- An authority stands behind the signed part: it signed it with the key of a certificate that its identity key signed.
  pub record IsVouched (text : Text) (signed_len identity : ℕ) : Type 0 where
    pub endorsed : Endorsed sha1 sha256 verify_digest text loaded_certificates signed_len identity
    pub trusted : Trusted sha1 from_pkcs1_der fingerprint verify_digest loaded endorsed.cert

  -- Enough different authorities stand behind it.
  pub record HasMajority (text : Text) : Type 0 where
    pub signed_len : ℕ
    pub signed : signed_length text ≡ ok signed_len
    pub signers : List ℕ
    pub enough : required_signatures ≤ length signers
    pub different : distinct signers ≡ true
    pub vouched : All (IsVouched text signed_len) signers

  -- A consensus that is accepted with the certificates that `parse_key_certificates` read has a majority of the
  -- authorities behind its signed part. Each signed it with the key behind the first dir-signing-key line of a
  -- certificate that had not expired and whose text, up to the end of its dir-key-certification line, that authority's
  -- identity key signed; where that part holds a signing key, it is this one.
  pub parse_and_verify-parse_key_certificates :
      (text : Text) (now : ℕ) (consensus : Consensus)
      → parse_and_verify sha1 sha256 verify_digest text loaded_certificates now ≡ ok consensus
      → HasMajority text
  parse_and_verify-parse_key_certificates text now consensus h =
      let v =
        parse_and_verify-IsVerified sha1 sha256 verify_digest text loaded_certificates now consensus
          h in
      let all =
        parse_key_certificates-All-Trusted sha1 from_pkcs1_der fingerprint verify_digest key_text
          loaded in
      record {
        signed_len = v.signed_len;
        signed = v.signed;
        signers = v.signers;
        enough = v.enough;
        different = v.different;
        vouched =
            All-map _ (IsVouched text v.signed_len) v.signers
              (λ identity e. record {
                endorsed = e;
                trusted =
                    All-Mem (Trusted sha1 from_pkcs1_der fingerprint verify_digest loaded)
                      loaded_certificates e.cert all e.given;
              })
              v.endorsed;
      }
