-- ===== src/Relay/Outward.antt =====
-- Cells that the client seals arrive.
use rust_tor_proxy.Prelude.{
  ℕ, zero, suc, ◌<◌, ◌≡◌, refl, ap, ◌∙◌, arith, true, text_eq, some, List, [], ◌∷◌, ◌++◌, length,
  ◌/◌, ◌%◌, take-length_append, u16_mod,
}
use rust_tor_proxy.Cell.Bytes.{be16, u16_of, u16_of-be16}
use rust_tor_proxy.Relay.{Crypto, IsCrypto, Hop}
use rust_tor_proxy.Relay.Seal.{with_digest, zeros, header, digested, layered, sealed}
use rust_tor_proxy.Relay.Peer.{read_message, arrives}

-- A body as it is built: its header with a zero digest, and what comes after.
abbrev pub plain_body : ℕ → ℕ → List ℕ → List ℕ → List ℕ
plain_body relay_command stream_id message pad =
    header relay_command stream_id (length message) zeros ++ (message ++ pad)

-- A digest of four bytes, written out.
pub four_bytes :
    (xs : List ℕ)
    → length xs ≡ 4
    → (a : ℕ) × (b : ℕ) × (c : ℕ) × (d : ℕ) × (xs ≡ a ∷ b ∷ c ∷ d ∷ [])
four_bytes (a ∷ b ∷ c ∷ d ∷ []) h = (a, b, c, d, refl)
four_bytes [] h = ground arith
four_bytes (a ∷ []) h = ground arith
four_bytes (a ∷ b ∷ []) h = ground arith
four_bytes (a ∷ b ∷ c ∷ []) h = ground arith
four_bytes (a ∷ b ∷ c ∷ d ∷ e ∷ xs) h = ground arith

pub with_digest-zeros :
    (c s : ℕ) (message pad digest : List ℕ)
    → length digest ≡ 4
    → with_digest zeros (with_digest digest (plain_body c s message pad))
      ≡ plain_body c s message pad
unfolding with_digest be16
with_digest-zeros c s message pad digest h = let (d₀, d₁, d₂, d₃, e) = four_bytes digest h in rw (e)

pub text_eq_refl : (xs : List ℕ) → text_eq xs xs ≡ true
unfolding text_eq
text_eq_refl [] = refl
text_eq_refl (x ∷ xs) = grind (arith, text_eq_refl xs)

module _ (k : Crypto) (lawful : IsCrypto k) where
  read_bytes :
      (d : k.Digest) (c s : ℕ) (message pad : List ℕ) (d₀ d₁ d₂ d₃ : ℕ)
      → k.prefix d 4 ≡ d₀ ∷ d₁ ∷ d₂ ∷ d₃ ∷ []
      → s < 65536
      → length message < 65536
      → read_message k d (with_digest (d₀ ∷ d₁ ∷ d₂ ∷ d₃ ∷ []) (plain_body c s message pad))
        ≡ some (record { relay_command = c; stream_id = s; message = message })
  unfolding with_digest read_message be16
  read_bytes d c s message pad d₀ d₁ d₂ d₃ e hs hm =
      let whole : u16_of (s / 256 % 256) (s % 256) ≡ s = u16_of-be16 s hs in
      let counted : u16_of (length message % u16_mod / 256 % 256) (length message % u16_mod % 256)
          ≡ length message =
        unfold u16_of in omega arith in
      rw (e, text_eq_refl (d₀ ∷ d₁ ∷ d₂ ∷ d₃ ∷ []), whole, counted, take-length_append message pad)

  pub read_message-plain_body :
      (d : k.Digest) (c s : ℕ) (message pad : List ℕ)
      → s < 65536
      → length message < 65536
      → read_message k d (with_digest (k.prefix d 4) (plain_body c s message pad))
        ≡ some (record { relay_command = c; stream_id = s; message = message })
  read_message-plain_body d c s message pad hs hm =
      let (d₀, d₁, d₂, d₃, e) =
        four_bytes (k.prefix d 4) (lawful.length-prefix d 4 (omega arith)) in
      ap (λ x. read_message k d (with_digest x (plain_body c s message pad))) e
      ∙ read_bytes d c s message pad d₀ d₁ d₂ d₃ e hs hm

  -- A cipher that opens what it sealed is where it was after the sealing.
  pub apply-opened :
      (c : k.Cipher) (body : List ℕ) → (k.apply c (k.apply c body).0).1 ≡ (k.apply c body).1
  apply-opened c body = lawful.apply-length c (k.apply c body).0 body (lawful.length-apply c body)

  pub arrives-sealed :
      (hops : List (Hop k)) (hop c s : ℕ) (message pad : List ℕ)
      → hop < length hops
      → s < 65536
      → length message < 65536
      → arrives k hops hop (sealed k hops hop (plain_body c s message pad)).0 ≡ (
        some (record { relay_command = c; stream_id = s; message = message }),
        (sealed k hops hop (plain_body c s message pad)).1,
      )
  unfolding arrives sealed digested layered
  arrives-sealed [] hop c s message pad h small short = ground arith
  arrives-sealed (h ∷ hs) zero c s message pad bound small short =
      let P = plain_body c s message pad in
      let D = k.update h.forward_digest P in
      let B = with_digest (k.prefix D 4) P in
      let same : with_digest zeros B ≡ P =
        with_digest-zeros c s message pad (k.prefix D 4) (lawful.length-prefix D 4 (omega arith)) in
      rw (
        lawful.apply-apply h.forward_cipher B,
        apply-opened h.forward_cipher B,
        same,
        read_message-plain_body D c s message pad small short,
      )
  arrives-sealed (h ∷ hs) (suc hop) c s message pad bound small short =
      let P = plain_body c s message pad in
      let X = sealed k hs hop P in
      rw (
        lawful.apply-apply h.forward_cipher X.0,
        apply-opened h.forward_cipher X.0,
        arrives-sealed hs hop c s message pad (omega arith) small short,
      )
