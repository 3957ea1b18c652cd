-- ===== src/Relay/Inward.antt =====
-- Cells that a relay seals are opened by the client, and what nobody claims leaves the digests alone.
use rust_tor_proxy.Prelude.{
  ℕ, zero, suc, ◌<◌, ◌≡◌, refl, ap, ap₂, subst, ◌∙◌, arith, Option, none, some, List, [], ◌∷◌,
  length, map,
}
use rust_tor_proxy.Cell.Bytes.{be16}
use rust_tor_proxy.Relay.{Crypto, IsCrypto, Hop}
use rust_tor_proxy.Relay.Seal.{with_digest, Opened, recognised, decrypt_inbound, settle}
use rust_tor_proxy.Relay.Peer.{sealed_back, digest_at}
use rust_tor_proxy.Relay.Outward.{
  plain_body, four_bytes, text_eq_refl, with_digest-zeros, apply-opened,
}

-- No hop before `hop` takes the body for its own.
pub data Passed (k : Crypto) : List (Hop k) → ℕ → List ℕ → Type 0 where
  here : {h : Hop k} {hs : List (Hop k)} {body : List ℕ} → Passed k (h ∷ hs) zero body
  there :
      {h : Hop k} {hs : List (Hop k)} {hop : ℕ} {body : List ℕ}
      → recognised k h (k.apply h.backward_cipher body).0 ≡ none
      → Passed k hs hop (k.apply h.backward_cipher body).0
      → Passed k (h ∷ hs) (suc hop) body

-- What a cell that nobody claims leaves of a hop.
abbrev pub moved_on : {k : Crypto} → List ℕ → Hop k → Hop k
moved_on {k} body h = record h { backward_cipher = (k.apply h.backward_cipher body).1 }

module _ (k : Crypto) (lawful : IsCrypto k) where
  recognised_bytes :
      (h : Hop k) (c s : ℕ) (message pad : List ℕ) (D : k.Digest) (d₀ d₁ d₂ d₃ : ℕ)
      → k.prefix D 4 ≡ d₀ ∷ d₁ ∷ d₂ ∷ d₃ ∷ []
      → k.update h.backward_digest (plain_body c s message pad) ≡ D
      → recognised k h (with_digest (d₀ ∷ d₁ ∷ d₂ ∷ d₃ ∷ []) (plain_body c s message pad))
        ≡ some (k.prefix D 20, D)
  unfolding with_digest recognised be16
  recognised_bytes h c s message pad D d₀ d₁ d₂ d₃ e fed = rw (
    fed,
    lawful.take-prefix D 4 20 (omega arith) (omega arith),
    e,
    text_eq_refl (d₀ ∷ d₁ ∷ d₂ ∷ d₃ ∷ []),
  )

  recognised-sealed :
      (h : Hop k) (c s : ℕ) (message pad : List ℕ)
      → let D = k.update h.backward_digest (plain_body c s message pad) in
        recognised k h (with_digest (k.prefix D 4) (plain_body c s message pad))
        ≡ some (k.prefix D 20, D)
  recognised-sealed h c s message pad =
      let D = k.update h.backward_digest (plain_body c s message pad) in
      let (d₀, d₁, d₂, d₃, e) =
        four_bytes (k.prefix D 4) (lawful.length-prefix D 4 (omega arith)) in
      ap (λ x. recognised k h (with_digest x (plain_body c s message pad))) e
      ∙ recognised_bytes h c s message pad D d₀ d₁ d₂ d₃ e refl

  -- A cell that the relay at `hop` seals, and that no hop before it takes for its own, is opened by the
  -- client as that relay built it, with the digest of that relay, and leaves both ends in the same state.
  pub decrypt_inbound-sealed_back :
      (hops : List (Hop k)) (hop c s : ℕ) (message pad : List ℕ)
      → hop < length hops
      → Passed k hops hop (sealed_back k hops hop (plain_body c s message pad)).0
      → decrypt_inbound k hops (sealed_back k hops hop (plain_body c s message pad)).0 ≡ (
        some (record {
          index = hop;
          body = plain_body c s message pad;
          digest = digest_at k hops hop (plain_body c s message pad);
        }),
        (sealed_back k hops hop (plain_body c s message pad)).1,
      )
  unfolding decrypt_inbound sealed_back digest_at
  decrypt_inbound-sealed_back [] hop c s message pad bound passed = ground arith
  decrypt_inbound-sealed_back (h ∷ hs) zero c s message pad bound passed =
      let P = plain_body c s message pad in
      let D = k.update h.backward_digest P in
      let B = with_digest (k.prefix D 4) P in
      rw (
        lawful.apply-apply h.backward_cipher B,
        apply-opened k lawful h.backward_cipher B,
        recognised-sealed h c s message pad,
        with_digest-zeros c s message pad (k.prefix D 4) (lawful.length-prefix D 4 (omega arith)),
      )
  decrypt_inbound-sealed_back (h ∷ hs) (suc hop) c s message pad bound (there missed passed) =
      let X = sealed_back k hs hop (plain_body c s message pad) in
      let opened = lawful.apply-apply h.backward_cipher X.0 in
      let missed' : recognised k h X.0 ≡ none =
        subst (λ b. recognised k h b ≡ none) opened missed in
      let passed' : Passed k hs hop X.0 = subst (λ b. Passed k hs hop b) opened passed in
      rw (
        opened,
        apply-opened k lawful h.backward_cipher X.0,
        missed',
        decrypt_inbound-sealed_back hs hop c s message pad (omega arith) passed',
      )

  settle-none :
      (moved : Hop k) (hs : List (Hop k)) (inner : List ℕ) (rest : Option Opened × List (Hop k))
      (claim : Option (List ℕ × k.Digest)) (after : List (Hop k))
      → (rest.0 ≡ none → rest.1 ≡ after)
      → (settle k moved hs inner rest claim).0 ≡ none
      → (settle k moved hs inner rest claim).1 ≡ moved ∷ after
  settle-none moved hs inner rest (some (full, trial)) after ih e = ground arith
  settle-none moved hs inner (none, left) none after ih e = ap (λ x. moved ∷ x) (ih refl)
  settle-none moved hs inner (some o, left) none after ih e = ground arith

  map-moved_on :
      (hops : List (Hop k)) (body other : List ℕ)
      → length body ≡ length other
      → map (moved_on body) hops ≡ map (moved_on other) hops
  map-moved_on [] body other same = refl
  map-moved_on (h ∷ hs) body other same =
      ap₂ (λ c after. record h { backward_cipher = c } ∷ after)
        (lawful.apply-length h.backward_cipher body other same) (map-moved_on hs body other same)

  -- Where no hop claims a cell the running digests and the outward state of every hop are as before, but
  -- the inward cipher of every hop has moved on by the length of the cell.
  pub decrypt_inbound-none :
      (hops : List (Hop k)) (body : List ℕ)
      → (decrypt_inbound k hops body).0 ≡ none
      → (decrypt_inbound k hops body).1 ≡ map (moved_on body) hops
  unfolding decrypt_inbound
  decrypt_inbound-none [] body e = refl
  decrypt_inbound-none (h ∷ hs) body e =
      let inner = (k.apply h.backward_cipher body).0 in
      settle-none (moved_on body h) hs inner (decrypt_inbound k hs inner) (recognised k h inner)
        (map (moved_on body) hs)
        (λ missed.
          decrypt_inbound-none hs inner missed
          ∙ map-moved_on hs inner body (lawful.length-apply h.backward_cipher body))
        e
