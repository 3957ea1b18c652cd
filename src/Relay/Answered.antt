-- ===== src/Relay/Answered.antt =====
-- What a relay sends is dispatched as it was meant, and data is acknowledged with the relay's own digest.
use rust_tor_proxy.Prelude.{
  ℕ, zero, suc, ◌+◌, ◌-◌, ◌/◌, ◌%◌, ◌<◌, ◌≤◌, ◌≡◌, refl, sym, ap, ◌∙◌, arith, true, false, inl,
  some, List, [], ◌∷◌, ◌++◌, length, append-nil, length-append, take-length_append, ltb, Result, ok,
  err, u16_mod,
}
use rust_tor_proxy.Cell.{Cell}
use rust_tor_proxy.Cell.Bytes.{be16, u16_of, u16_of-be16}
use rust_tor_proxy.Flow.{relay_data_max, note_received}
use rust_tor_proxy.Relay.{Crypto, IsCrypto, Hop, relay_data, relay_sendme}
use rust_tor_proxy.Relay.Seal.{with_digest}
use rust_tor_proxy.Relay.Peer.{arrives, sealed_back, digest_at}
use rust_tor_proxy.Relay.Outward.{plain_body}
use rust_tor_proxy.Relay.Inward.{Passed, decrypt_inbound-sealed_back}
use rust_tor_proxy.Relay.Sent.{Fills, message_of, length-with_digest, build_relay_cell-Arrives}
use rust_tor_proxy.Relay.Circuit.{Circuit, lookup}
use rust_tor_proxy.Relay.Handle.{
  handle_relay, dispatch, opened, Outcome, after, on_data_cell, deliver, acknowledge, send_prebuilt,
  sendme_payload,
}

-- The circuit once a hop's cell is open, before its message is looked at.
abbrev pub taken : {k : Crypto} → List ℕ → List (Hop k) → Circuit k → Circuit k
taken digest hops c = record c { out = record c.out { hops = hops }; last_recv_digest = digest }

-- The first cell that is handed to the channel is a SENDME with this digest, as the relay at `hop` reads it.
pub record Quotes (k : Crypto) (hops : List (Hop k)) (hop : ℕ) (digest : List ℕ) (cells : List Cell)
    : Type 0 where
  pub cell : Cell
  pub others : List Cell
  pub left : List (Hop k)
  pub is_first : cells ≡ cell ∷ others
  pub is_read :
      arrives k hops hop cell.body ≡ (some (message_of relay_sendme 0 (1 ∷ 0 ∷ 20 ∷ digest)), left)

module _ (k : Crypto) (lawful : IsCrypto k) where
  length-sealed_back :
      (hops : List (Hop k)) (hop c s : ℕ) (message pad : List ℕ)
      → length (sealed_back k hops hop (plain_body c s message pad)).0
        ≡ 11 + length message + length pad
  unfolding sealed_back be16
  length-sealed_back [] hop c s message pad = rw (length-append message pad) (omega arith)
  length-sealed_back (h ∷ hs) zero c s message pad =
      let P = plain_body c s message pad in
      let D = k.update h.backward_digest P in
      lawful.length-apply h.backward_cipher (with_digest (k.prefix D 4) P)
      ∙ length-with_digest c s message pad (k.prefix D 4) (lawful.length-prefix D 4 (omega arith))
  length-sealed_back (h ∷ hs) (suc hop) c s message pad =
      lawful.length-apply h.backward_cipher (sealed_back k hs hop (plain_body c s message pad)).0
      ∙ length-sealed_back hs hop c s message pad

  length-digest_at :
      (hops : List (Hop k)) (hop : ℕ) (plain : List ℕ)
      → hop < length hops
      → length (digest_at k hops hop plain) ≡ 20
  unfolding digest_at
  length-digest_at [] hop plain bound = ground arith
  length-digest_at (h ∷ hs) zero plain bound =
      lawful.length-prefix (k.update h.backward_digest plain) 20 (omega arith)
  length-digest_at (h ∷ hs) (suc hop) plain bound = length-digest_at hs hop plain (omega arith)

  length-sealed_back_hops :
      (hops : List (Hop k)) (hop : ℕ) (plain : List ℕ)
      → length (sealed_back k hops hop plain).1 ≡ length hops
  unfolding sealed_back
  length-sealed_back_hops [] hop plain = refl
  length-sealed_back_hops (h ∷ hs) zero plain = refl
  length-sealed_back_hops (h ∷ hs) (suc hop) plain = ap suc (length-sealed_back_hops hs hop plain)

  module _ (fill : ℕ → Result (List ℕ)) (send : Cell → Result (Unit {0})) (circ_id : ℕ) where
    opened-plain_body :
        (now hop cmd s : ℕ) (message pad digest : List ℕ) (hops : List (Hop k)) (c : Circuit k)
        → s < 65536
        → length message ≤ 498
        → opened k fill send circ_id now
            (
              some (record { index = hop; body = plain_body cmd s message pad; digest = digest }),
              hops,
            )
            c
          ≡ dispatch k fill send circ_id now hop cmd s message (taken digest hops c)
    unfolding be16
    opened-plain_body now hop cmd s message pad digest hops c small short =
        let whole : u16_of (s / 256 % 256) (s % 256) ≡ s = u16_of-be16 s small in
        let counted : u16_of (length message % u16_mod / 256 % 256) (length message % u16_mod % 256)
            ≡ length message =
          unfold u16_of in omega arith in
        let fits : ltb relay_data_max (length message) ≡ false = ground arith in
        rw (counted, fits, whole, take-length_append message pad)

    -- A message that the relay at `hop` seals, and that no hop before it takes for its own, is dispatched as
    -- it was sent, from that hop, on a circuit that is in step with its relays again.
    pub handle_relay-sealed_back :
        (now hop cmd s : ℕ) (message pad : List ℕ) (c : Circuit k)
        → hop < length c.out.hops
        → s < 65536
        → length message ≤ 498
        → length pad ≡ 498 - length message
        → Passed k c.out.hops hop (sealed_back k c.out.hops hop (plain_body cmd s message pad)).0
        → handle_relay k fill send circ_id now
            (sealed_back k c.out.hops hop (plain_body cmd s message pad)).0
            c
          ≡ dispatch k fill send circ_id now hop cmd s message (
              taken
                (digest_at k c.out.hops hop (plain_body cmd s message pad))
                (sealed_back k c.out.hops hop (plain_body cmd s message pad)).1
                c)
    unfolding handle_relay
    handle_relay-sealed_back now hop cmd s message pad c bound small short padded passed =
        let P = plain_body cmd s message pad in
        let full : length (sealed_back k c.out.hops hop P).0 ≡ 509 =
          length-sealed_back c.out.hops hop cmd s message pad ∙ omega arith in
        rw
          (full, decrypt_inbound-sealed_back k lawful c.out.hops hop cmd s message pad bound passed)
          (opened-plain_body now hop cmd s message pad (digest_at k c.out.hops hop P)
            (sealed_back k c.out.hops hop P).1 c small short)

    after-cells :
        (o : Outcome k fill send circ_id) (next : Circuit k → Outcome k fill send circ_id)
        → (more : List Cell) × ((after k fill send circ_id o next).1 ≡ o.1 ++ more)
    after-cells (c, cells, err e) next = ([], sym (append-nil cells))
    after-cells (c, cells, ok accepted) next = ((next c).1, refl)

    acknowledge-Quotes :
        (hop : ℕ) (c : Circuit k)
        → Fills fill
        → hop < length c.out.hops
        → length c.last_recv_digest ≡ 20
        → Quotes k c.out.hops hop c.last_recv_digest
            (acknowledge k fill send circ_id hop (ok true) c).1
    unfolding acknowledge send_prebuilt be16
    acknowledge-Quotes hop c fills bound full =
        let (o', cell, sent, left, command, there) =
          build_relay_cell-Arrives k lawful fill c.out circ_id hop relay_sendme 0
            (sendme_payload c.last_recv_digest) false fills bound (omega arith)
            (rw (full) (omega arith)) (inl refl) in
        record {
          cell = cell;
          others = [];
          left = o'.hops;
          is_first = rw (sent);
          is_read = there.is_read;
        }

    on_data_cell-Quotes :
        (now hop s : ℕ) (message : List ℕ) (c : Circuit k)
        → Fills fill
        → hop < length c.out.hops
        → length c.last_recv_digest ≡ 20
        → (note_received c.flow).1 ≡ ok true
        → Quotes k c.out.hops hop c.last_recv_digest
            (on_data_cell k fill send circ_id now hop s message c).1
    unfolding on_data_cell
    on_data_cell-Quotes now hop s message c fills bound full due =
        let c₁ : Circuit k = record c { flow = (note_received c.flow).0 } in
        let q = acknowledge-Quotes hop c₁ fills bound full in
        let (more, e) =
          after-cells (acknowledge k fill send circ_id hop (note_received c.flow).1 c₁)
            (λ c'. deliver k fill send circ_id now hop s message (lookup s c'.streams) c') in
        record {
          cell = q.cell;
          others = q.others ++ more;
          left = q.left;
          is_first =
              (e ∙ ap (λ r. (acknowledge k fill send circ_id hop r c₁).1 ++ more) due)
              ∙ ap (λ cells. cells ++ more) q.is_first;
          is_read = q.is_read;
        }

    -- Where a cell of data that the relay at `hop` sends makes a SENDME due, that relay is the first to be
    -- answered, and what it reads is a SENDME that quotes the digest it has for its own cell.
    pub handle_relay-Quotes :
        (now hop s : ℕ) (message pad : List ℕ) (c : Circuit k)
        → Fills fill
        → hop < length c.out.hops
        → s < 65536
        → length message ≤ 498
        → length pad ≡ 498 - length message
        → Passed k c.out.hops hop
            (sealed_back k c.out.hops hop (plain_body relay_data s message pad)).0
        → (note_received c.flow).1 ≡ ok true
        → Quotes k
            (sealed_back k c.out.hops hop (plain_body relay_data s message pad)).1
            hop
            (digest_at k c.out.hops hop (plain_body relay_data s message pad))
            (handle_relay k fill send circ_id now
              (sealed_back k c.out.hops hop (plain_body relay_data s message pad)).0
              c).1
    handle_relay-Quotes now hop s message pad c fills bound small short padded passed due =
        let P = plain_body relay_data s message pad in
        rw
          (handle_relay-sealed_back now hop relay_data s message pad c bound small short padded
            passed)
          (unfold dispatch in
            on_data_cell-Quotes now hop s message
              (taken (digest_at k c.out.hops hop P) (sealed_back k c.out.hops hop P).1 c) fills
              (rw (length-sealed_back_hops c.out.hops hop P) bound)
              (length-digest_at c.out.hops hop P bound) due)
