-- ===== src/Relay/Seal.antt =====
-- src/tor/circuit.rs, `build_relay_cell` and `decrypt_inbound`: a relay cell on its way out and in.
use rust_tor_proxy.Prelude.{
  ℕ, zero, suc, ◌+◌, ◌-◌, ◌%◌, Bool, not, ◌||◌, Option, none, some, List, [], ◌∷◌, ◌++◌, length,
  take, drop, replicate, get_or, ltb, leb, ◌==◌, if◌then◌else◌, text_eq, Result, ok, err,
  invalid_data, ◌>>=◌, u16_mod,
}
use rust_tor_proxy.Cell
use rust_tor_proxy.Cell.{Cell, cell_body_len}
use rust_tor_proxy.Cell.Bytes.{be16}
use rust_tor_proxy.Flow.{relay_data_max}
use rust_tor_proxy.Relay.{Crypto, Hop, relay_header_len}

abbrev pub cmd_relay : ℕ
cmd_relay = 3

abbrev pub cmd_relay_early : ℕ
cmd_relay_early = 9

-- The body before its digest and its layers: `fill` gives random bytes, as many as it is asked for.
unfoldable pub padding : (ℕ → Result (List ℕ)) → ℕ → Result (List ℕ)
padding fill pad_start =
    if ltb (pad_start + 4) cell_body_len
    then (do random ← fill (cell_body_len - (pad_start + 4)); ok (replicate 4 0 ++ random))
    else ok (replicate (cell_body_len - pad_start) 0)

abbrev pub header : ℕ → ℕ → ℕ → List ℕ → List ℕ
header relay_command stream_id len digest =
    relay_command ∷ 0 ∷ 0 ∷ (be16 stream_id ++ (digest ++ be16 (len % u16_mod)))

-- `body[5..9].copy_from_slice(digest)`
unfoldable pub with_digest : List ℕ → List ℕ → List ℕ
with_digest digest body = take 5 body ++ (digest ++ drop 9 body)

abbrev pub zeros : List ℕ
zeros = 0 ∷ 0 ∷ 0 ∷ 0 ∷ []

-- What the peeling found: the hop, the body with its digest zeroed, and the digest in full.
pub record Opened : Type 0 where
  pub index : ℕ
  pub body : List ℕ
  pub digest : List ℕ

abbrev pub command_of : Bool → ℕ
command_of early = if early then cmd_relay_early else cmd_relay

module _ (k : Crypto) where
  -- `target.forward_digest.update(&body)`: the digest that the body gets, and the hops afterwards.
  unfoldable pub digested : List (Hop k) → ℕ → List ℕ → List ℕ × List (Hop k)
  digested [] hop body = (zeros, [])
  digested (h ∷ hs) zero body =
      let d = k.update h.forward_digest body in (k.prefix d 4, record h { forward_digest = d } ∷ hs)
  digested (h ∷ hs) (suc hop) body =
      let (digest, after) = digested hs hop body in (digest, h ∷ after)

  -- The layers, from the hop that the cell is for to the first.
  unfoldable pub layered : List (Hop k) → ℕ → List ℕ → List ℕ × List (Hop k)
  layered [] hop body = (body, [])
  layered (h ∷ hs) zero body =
      let (sealed, c) = k.apply h.forward_cipher body in
      (sealed, record h { forward_cipher = c } ∷ hs)
  layered (h ∷ hs) (suc hop) body =
      let (inner, after) = layered hs hop body in
      let (sealed, c) = k.apply h.forward_cipher inner in
      (sealed, record h { forward_cipher = c } ∷ after)

  -- The end of `build_relay_cell`: the body on the wire, and the hops afterwards.
  unfoldable pub sealed : List (Hop k) → ℕ → List ℕ → List ℕ × List (Hop k)
  sealed hops hop plain =
      let (digest, hashed) = digested hops hop plain in
      layered hashed hop (with_digest digest plain)

  -- What `build_relay_cell` uses of a circuit: its hops, and how many RELAY_EARLY cells are left.
  pub record Outbound : Type 0 where
    pub hops : List (Hop k)
    pub relay_early_left : ℕ

  abbrev pub spend_early : Bool → Outbound → Result Outbound
  spend_early early s =
      if early
      then (if s.relay_early_left == 0
          then err (invalid_data "circuit has no RELAY_EARLY cells left")
          else ok (record s { relay_early_left = s.relay_early_left - 1 }))
      else ok s

  abbrev sealed_cell : ℕ → Bool → Outbound → List ℕ × List (Hop k) → Outbound × Result Cell
  sealed_cell circ_id early s (body, hops) =
      (record s { hops = hops }, Cell.new circ_id (command_of early) body)

  abbrev padded :
      ℕ → ℕ → ℕ → ℕ → List ℕ → Bool → Outbound → Result (List ℕ) → Outbound × Result Cell
  padded circ_id hop relay_command stream_id message early s (err e) = (s, err e)
  padded circ_id hop relay_command stream_id message early s (ok pad) =
      sealed_cell circ_id early s (
        sealed s.hops hop
          (header relay_command stream_id (length message) zeros ++ (message ++ pad)))

  abbrev budgeted :
      (ℕ → Result (List ℕ))
      → ℕ
      → ℕ
      → ℕ
      → ℕ
      → List ℕ
      → Bool
      → Outbound
      → Result Outbound
      → Outbound × Result Cell
  budgeted fill circ_id hop relay_command stream_id message early s (err e) = (s, err e)
  budgeted fill circ_id hop relay_command stream_id message early s (ok s') =
      padded circ_id hop relay_command stream_id message early s'
        (padding fill (relay_header_len + length message))

  -- `build_relay_cell`
  unfoldable pub build_relay_cell :
      (ℕ → Result (List ℕ)) → Outbound → ℕ → ℕ → ℕ → ℕ → List ℕ → Bool → Outbound × Result Cell
  build_relay_cell fill s circ_id hop relay_command stream_id message early =
      if ltb relay_data_max (length message)
      then (s, err (invalid_data "relay message body too long"))
      else if leb (length s.hops) hop
      then (s, err (invalid_data "relay cell addressed to a nonexistent hop"))
      else budgeted fill circ_id hop relay_command stream_id message early s (spend_early early s)

  -- What a hop makes of a body with its layer off: the digest in full, if the cell is for it.
  abbrev claimed_by : Hop k → List ℕ → k.Digest → Option (List ℕ × k.Digest)
  claimed_by h body trial =
      let full = k.prefix trial 20 in
      if text_eq (take 4 full) (take 4 (drop 5 body)) then some (full, trial) else none

  unfoldable pub recognised : Hop k → List ℕ → Option (List ℕ × k.Digest)
  recognised h body =
      if not (get_or body 1 0 == 0) || not (get_or body 2 0 == 0)
      then none
      else claimed_by h body (k.update h.backward_digest (with_digest zeros body))

  abbrev next_hop : Option Opened → Option Opened
  next_hop none = none
  next_hop (some o) = some (record o { index = suc o.index })

  -- A hop's turn: its own claim, or what the hops behind it found.
  abbrev pub settle :
      Hop k
      → List (Hop k)
      → List ℕ
      → Option Opened × List (Hop k)
      → Option (List ℕ × k.Digest)
      → Option Opened × List (Hop k)
  settle moved hs inner rest (some (full, trial)) = (
    some (record { index = 0; body = with_digest zeros inner; digest = full }),
    record moved { backward_digest = trial } ∷ hs,
  )
  settle moved hs inner (found, after) none = (next_hop found, moved ∷ after)

  -- `decrypt_inbound`, and the hops afterwards.
  unfoldable pub decrypt_inbound : List (Hop k) → List ℕ → Option Opened × List (Hop k)
  decrypt_inbound [] body = (none, [])
  decrypt_inbound (h ∷ hs) body =
      let (inner, c) = k.apply h.backward_cipher body in
      settle (record h { backward_cipher = c }) hs inner (decrypt_inbound hs inner)
        (recognised h inner)
