-- ===== src/Relay/Conversation.antt =====
-- A run of messages on one circuit: what the client sends and what its relays read.
use rust_tor_proxy.Prelude.{
  ℕ, suc, zero, ◌<◌, ◌≤◌, ◌≡◌, refl, sym, ap, subst, ◌∙◌, false, inl, Option, none, some, List, [],
  ◌∷◌, length, map, Result, ok, err,
}
use rust_tor_proxy.Cell.{Cell}
use rust_tor_proxy.Relay.{Crypto, IsCrypto, Hop}
use rust_tor_proxy.Relay.Seal.{Outbound, build_relay_cell}
use rust_tor_proxy.Relay.Peer.{Message, arrives}
use rust_tor_proxy.Relay.Sent.{Fills, message_of, build_relay_cell-Arrives}

-- A message, and the hop that it is for.
pub record Order : Type 0 where
  pub hop : ℕ
  pub relay_command : ℕ
  pub stream_id : ℕ
  pub message : List ℕ

-- A message that a circuit of `n` hops can carry.
pub record IsCarried (n : ℕ) (m : Order) : Type 0 where
  pub reaches : m.hop < n
  pub is_u16 : m.stream_id < 65536
  pub fits : length m.message ≤ 498

pub data AllCarried (n : ℕ) : List Order → Type 0 where
  none_left : AllCarried n []
  one_more : {m : Order} {ms : List Order} → IsCarried n m → AllCarried n ms → AllCarried n (m ∷ ms)

module _ (k : Crypto) where
  abbrev delivered : List (Hop k) → ℕ → Result Cell → Option Message × List (Hop k)
  delivered relays hop (err e) = (none, relays)
  delivered relays hop (ok cell) = arrives k relays hop cell.body

  -- What the relays read, when the client sends one message after another.
  unfoldable pub conversation :
      (ℕ → Result (List ℕ)) → ℕ → Outbound k → List (Hop k) → List Order → List (Option Message)
  conversation fill circ_id o relays [] = []
  conversation fill circ_id o relays (m ∷ ms) =
      let (o', sent) =
        build_relay_cell k fill o circ_id m.hop m.relay_command m.stream_id m.message false in
      let (got, relays') = delivered relays m.hop sent in
      got ∷ conversation fill circ_id o' relays' ms

  length-arrives :
      (hops : List (Hop k)) (hop : ℕ) (body : List ℕ)
      → length (arrives k hops hop body).1 ≡ length hops
  unfolding arrives
  length-arrives [] hop body = refl
  length-arrives (h ∷ hs) zero body = refl
  length-arrives (h ∷ hs) (suc hop) body =
      ap suc (length-arrives hs hop (k.apply h.forward_cipher body).0)

  -- Relays that start from the client's state read every message that the client sends them, whichever
  -- hops the messages are for, in order and unchanged, where the hops exist and the messages fit a cell.
  pub conversation-map :
      (lawful : IsCrypto k) (fill : ℕ → Result (List ℕ)) (circ_id : ℕ) (o : Outbound k)
      (ms : List Order)
      → Fills fill
      → AllCarried (length o.hops) ms
      → conversation fill circ_id o o.hops ms
        ≡ map (λ m. some (message_of m.relay_command m.stream_id m.message)) ms
  unfolding conversation
  conversation-map lawful fill circ_id o [] fills none_left = refl
  conversation-map lawful fill circ_id o (m ∷ ms) fills (one_more carried rest) =
      let (o', cell, sent, left, command, there) =
        build_relay_cell-Arrives k lawful fill o circ_id m.hop m.relay_command m.stream_id m.message
          false fills carried.reaches carried.is_u16 carried.fits (inl refl) in
      let kept : length o'.hops ≡ length o.hops =
        sym (ap (λ r. length r.1) there.is_read) ∙ length-arrives o.hops m.hop cell.body in
      rw (
        sent,
        there.is_read,
        conversation-map lawful fill circ_id o' ms fills
            (subst (λ n. AllCarried n ms) (sym kept) rest),
      )
