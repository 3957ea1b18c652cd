-- ===== src/Relay/Peer.antt =====
-- The far end of a circuit, as the tests of src/tor/circuit.rs have it (`PeerHop`): each relay holds the
-- state of the client's hop for it, takes its layer off what passes, and checks what is for it.
use rust_tor_proxy.Prelude.{
  ℕ, zero, suc, ◌&&◌, Option, none, some, List, [], ◌∷◌, take, drop, get_or, ◌==◌, if◌then◌else◌,
  text_eq,
}
use rust_tor_proxy.Cell.Bytes.{u16_of}
use rust_tor_proxy.Relay.{Crypto, Hop, relay_header_len}
use rust_tor_proxy.Relay.Seal.{with_digest, zeros}

pub record Message : Type 0 where
  pub relay_command : ℕ
  pub stream_id : ℕ
  pub message : List ℕ

module _ (k : Crypto) where
  -- A plain body, checked against the running digest.
  unfoldable pub read_message : k.Digest → List ℕ → Option Message
  read_message d body =
      if get_or body 1 0 == 0
        && (get_or body 2 0 == 0 && text_eq (take 4 (drop 5 body)) (k.prefix d 4))
      then some (record {
        relay_command = get_or body 0 0;
        stream_id = u16_of (get_or body 3 0) (get_or body 4 0);
        message = take (u16_of (get_or body 9 0) (get_or body 10 0)) (drop relay_header_len body);
      })
      else none

  -- A cell from the client passes the relays up to `hop`: what that one reads, and the states afterwards.
  unfoldable pub arrives : List (Hop k) → ℕ → List ℕ → Option Message × List (Hop k)
  arrives [] hop body = (none, [])
  arrives (h ∷ hs) zero body =
      let (plain, c) = k.apply h.forward_cipher body in
      let d = k.update h.forward_digest (with_digest zeros plain) in
      (read_message d plain, record h { forward_digest = d; forward_cipher = c } ∷ hs)
  arrives (h ∷ hs) (suc hop) body =
      let (inner, c) = k.apply h.forward_cipher body in
      let (m, after) = arrives hs hop inner in (m, record h { forward_cipher = c } ∷ after)

  -- A cell from the relay at `hop`: digested and sealed there, then sealed by each relay towards the client.
  unfoldable pub sealed_back : List (Hop k) → ℕ → List ℕ → List ℕ × List (Hop k)
  sealed_back [] hop plain = (plain, [])
  sealed_back (h ∷ hs) zero plain =
      let d = k.update h.backward_digest plain in
      let (body, c) = k.apply h.backward_cipher (with_digest (k.prefix d 4) plain) in
      (body, record h { backward_cipher = c; backward_digest = d } ∷ hs)
  sealed_back (h ∷ hs) (suc hop) plain =
      let (inner, after) = sealed_back hs hop plain in
      let (body, c) = k.apply h.backward_cipher inner in
      (body, record h { backward_cipher = c } ∷ after)

  -- The digest in full that such a cell leaves at the relay.
  unfoldable pub digest_at : List (Hop k) → ℕ → List ℕ → List ℕ
  digest_at [] hop plain = []
  digest_at (h ∷ hs) zero plain = k.prefix (k.update h.backward_digest plain) 20
  digest_at (h ∷ hs) (suc hop) plain = digest_at hs hop plain
