-- ===== src/Relay/Sent.antt =====
-- `build_relay_cell` as a whole: what is sent arrives, one message after another.
use rust_tor_proxy.Prelude.{
  ℕ, zero, suc, ◌+◌, ◌-◌, ◌<◌, ◌≤◌, ◌≡◌, refl, ◌∙◌, arith, Bool, true, false, some, List, [], ◌∷◌,
  ◌++◌, length, replicate, append-nil, length-append, length-replicate, ltb, leb, if◌then◌else◌,
  ◌==◌, Result, ok, ◌⊎◌, inl, inr, Bool-cases,
}
use rust_tor_proxy.Cell
use rust_tor_proxy.Cell.{Cell, cell_body_len, is_variable_length}
use rust_tor_proxy.Cell.Bytes.{be16}
use rust_tor_proxy.Relay.{Crypto, IsCrypto, Hop}
use rust_tor_proxy.Relay.Seal.{
  Outbound, spend_early, build_relay_cell, padding, sealed, digested, layered, with_digest,
  command_of,
}
use rust_tor_proxy.Flow.{relay_data_max}
use rust_tor_proxy.Relay.Peer.{Message, arrives}
use rust_tor_proxy.Relay.Outward.{plain_body, arrives-sealed, four_bytes}

-- `rand::fill` gives the bytes that it is asked for.
abbrev pub Fills : (ℕ → Result (List ℕ)) → Type 0
Fills fill = (n : ℕ) → (random : List ℕ) × (fill n ≡ ok random) × (length random ≡ n)

padding-length :
    (fill : ℕ → Result (List ℕ)) (pad_start : ℕ)
    → Fills fill
    → pad_start ≤ 509
    → (pad : List ℕ) × (padding fill pad_start ≡ ok pad) × (length pad ≡ 509 - pad_start)
padding-length fill pad_start fills bound = elim (Bool-cases (ltb (pad_start + 4) 509)) [
  | inl e ↦
      let (random, filled, n) = fills (509 - (pad_start + 4)) in
      (replicate 4 0 ++ random, unfold padding in rw (e, filled), ground arith)
  | inr e ↦ (
    replicate (509 - pad_start) 0,
    unfold padding in rw (e),
    length-replicate (509 - pad_start) 0,
  )
]

pub length-with_digest :
    (c s : ℕ) (message pad digest : List ℕ)
    → length digest ≡ 4
    → length (with_digest digest (plain_body c s message pad)) ≡ 11 + length message + length pad
unfolding with_digest be16
length-with_digest c s message pad digest h =
    let (d₀, d₁, d₂, d₃, e) = four_bytes digest h in rw (e, length-append message pad) (omega arith)

-- The message that a relay reads.
abbrev pub message_of : ℕ → ℕ → List ℕ → Message
message_of c s message = record { relay_command = c; stream_id = s; message = message }

module _ (k : Crypto) (lawful : IsCrypto k) where
  length-layered :
      (hops : List (Hop k)) (hop : ℕ) (body : List ℕ)
      → length (layered k hops hop body).0 ≡ length body
  unfolding layered
  length-layered [] hop body = refl
  length-layered (h ∷ hs) zero body = lawful.length-apply h.forward_cipher body
  length-layered (h ∷ hs) (suc hop) body =
      lawful.length-apply h.forward_cipher (layered k hs hop body).0 ∙ length-layered hs hop body

  length-digested :
      (hops : List (Hop k)) (hop : ℕ) (body : List ℕ) → length (digested k hops hop body).0 ≡ 4
  unfolding digested
  length-digested [] hop body = refl
  length-digested (h ∷ hs) zero body =
      lawful.length-prefix (k.update h.forward_digest body) 4 (omega arith)
  length-digested (h ∷ hs) (suc hop) body = length-digested hs hop body

  length-sealed :
      (hops : List (Hop k)) (hop c s : ℕ) (message pad : List ℕ)
      → length (sealed k hops hop (plain_body c s message pad)).0 ≡ 11 + length message + length pad
  unfolding sealed
  length-sealed hops hop c s message pad =
      let P = plain_body c s message pad in
      let (digest, hashed) = digested k hops hop P in
      length-layered hashed hop (with_digest digest P)
      ∙ length-with_digest c s message pad digest (length-digested hops hop P)

  new-full :
      (circ_id : ℕ) (early : Bool) (body : List ℕ)
      → length body ≡ 509
      → Cell.new circ_id (command_of early) body
        ≡ ok (record { circ_id = circ_id; command = command_of early; body = body })
  unfolding Cell.new is_variable_length
  new-full circ_id true body full = rw (full, append-nil body)
  new-full circ_id false body full = rw (full, append-nil body)

  -- A cell is as long as a frame, and the relays that hold the client's state read it as it was meant and
  -- are left with the client's state.
  pub record Arrives (hops : List (Hop k)) (hop c s : ℕ) (message : List ℕ) (cell : Cell)
      (after : List (Hop k)) : Type 0 where
    pub is_full : length cell.body ≡ 509
    pub is_read : arrives k hops hop cell.body ≡ (some (message_of c s message), after)

  -- What is left of the budget of RELAY_EARLY cells.
  abbrev pub budget_after : Bool → ℕ → ℕ
  budget_after early left = if early then left - 1 else left

  spent :
      (early : Bool) (o : Outbound k)
      → early ≡ false ⊎ 0 < o.relay_early_left
      → spend_early k early o
        ≡ ok (record o { relay_early_left = budget_after early o.relay_early_left })
  spent false o h = refl
  spent true o (inl h) = ground arith
  spent true o (inr h) =
      let some_left : (o.relay_early_left == 0) ≡ false = ground arith in rw (some_left)

  pub build_relay_cell-Arrives :
      (fill : ℕ → Result (List ℕ)) (o : Outbound k) (circ_id hop c s : ℕ) (message : List ℕ)
      (early : Bool)
      → Fills fill
      → hop < length o.hops
      → s < 65536
      → length message ≤ 498
      → early ≡ false ⊎ 0 < o.relay_early_left
      → (o' : Outbound k) × (cell : Cell) × (build_relay_cell k fill o circ_id hop c s message early
          ≡ (o', ok cell))
        × (o'.relay_early_left ≡ budget_after early o.relay_early_left)
        × (cell.command ≡ command_of early)
        × Arrives o.hops hop c s message cell o'.hops
  unfolding build_relay_cell
  build_relay_cell-Arrives fill o circ_id hop c s message early fills bound small short allowed =
      let (pad, padded, n) = padding-length fill (11 + length message) fills (omega arith) in
      let out = sealed k o.hops hop (plain_body c s message pad) in
      let full : length out.0 ≡ 509 = length-sealed o.hops hop c s message pad ∙ omega arith in
      let fits : ltb relay_data_max (length message) ≡ false = ground arith in
      let exists : leb (length o.hops) hop ≡ false = ground arith in
      (
        record { hops = out.1; relay_early_left = budget_after early o.relay_early_left },
        record { circ_id = circ_id; command = command_of early; body = out.0 },
        rw (fits, exists, spent early o allowed, padded, new-full circ_id early out.0 full),
        refl,
        refl,
        record {
          is_full = full;
          is_read = arrives-sealed k lawful o.hops hop c s message pad bound small (omega arith);
        },
      )
