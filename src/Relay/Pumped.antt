-- ===== src/Relay/Pumped.antt =====
-- Whatever arrives, a circuit keeps what it must keep, and when its pump ends no reader is left waiting.
use rust_tor_proxy.Prelude.{
  ℕ, ◌+◌, ◌≡◌, refl, arith, not, ◌||◌, Option, none, some, List, length, take, drop, get_or, ◌==◌,
  ltb, Result, ok, err,
}
use rust_tor_proxy.Cell.{Cell, cell_body_len, be_u16}
use rust_tor_proxy.Flow.{note_sendme, relay_data_max}
use rust_tor_proxy.Cell.Bytes.{u16_of}
use rust_tor_proxy.Relay.{
  Crypto, Hop, relay_header_len, relay_data, relay_end, relay_connected, relay_sendme,
  relay_truncated, relay_extended2, relay_rendezvous2, relay_rendezvous_established,
  relay_introduce_ack, relay_xoff, relay_xon,
}
use rust_tor_proxy.Relay.Seal.{Opened, decrypt_inbound, cmd_relay, cmd_relay_early}
use rust_tor_proxy.Relay.Circuit.{Circuit, at_stream, remove_stream, push_control}
use rust_tor_proxy.Relay.Handle.{
  handle_cell, handle_relay, dispatch, opened, handshaken, on_end_cell, created, first_or,
  end_reason_misc, ended_by, credited, confirmed, told, cmd_created_fast, cmd_created2, cmd_destroy,
  created_fast_len,
}
use rust_tor_proxy.Relay.Kept.{
  count_id-append, count_id-at_stream, count_id-remove_stream, waiting-append,
  waiting-remove_stream, length-push_control-max, Kept, Kept-refl, Kept-trans,
  length-decrypt_inbound,
}
use rust_tor_proxy.Relay.KeptData.{
  at_stream-Kept, other-Kept, hops-Kept, if-Kept, on_data_cell-Kept,
}

module _ (k : Crypto) (fill : ℕ → Result (List ℕ)) (send : Cell → Result (Unit {0}))
    (circ_id : ℕ) where
  on_end_cell-Kept :
      (s : ℕ) (message : List ℕ) (c : Circuit k)
      → Kept k c (on_end_cell k fill send circ_id s message c).0
  on_end_cell-Kept s message c =
      let reason = first_or message end_reason_misc in
      let marked = at_stream s (ended_by reason) c.streams in
      let (left, gone) = remove_stream s marked in
      record {
        same_hops = refl;
        same_early = refl;
        same_next = refl;
        same_streams = λ id.
            (let parted = count_id-remove_stream id s marked in
              let kept = count_id-at_stream id s (ended_by reason) c.streams in
              let joined = count_id-append id c.released gone in omega arith);
        settled =
            (let joined = waiting-append c.released gone in
              let none_waits = waiting-remove_stream s reason c.streams in omega arith);
        bounded_control = ground arith;
      }

  control-Kept :
      (cmd : ℕ) (message : List ℕ) (c : Circuit k)
      → Kept k c (record c { control = push_control cmd message c.control })
  control-Kept cmd message c = record {
    same_hops = refl;
    same_early = refl;
    same_next = refl;
    same_streams = λ id. refl;
    settled = omega arith;
    bounded_control = length-push_control-max cmd message c.control;
  }

  handshaken-Kept :
      (message : List ℕ) (len : Result ℕ) (c : Circuit k)
      → Kept k c (handshaken k fill send circ_id message len c).0
  handshaken-Kept message (err e) c = Kept-refl k c
  handshaken-Kept message (ok len) c =
      if-Kept k c (ltb (length message) (2 + len)) _ _ (Kept-refl k c) (
        other-Kept k c (record c { handshake = some (ok (take len (drop 2 message))) }) refl refl
          refl refl refl)

  created-Kept :
      (body : List ℕ) (len : Result ℕ) (c : Circuit k)
      → Kept k c (created k fill send circ_id body len c).0
  created-Kept body (err e) c = Kept-refl k c
  created-Kept body (ok len) c = if-Kept k c (ltb (length body) (2 + len)) _ _ (Kept-refl k c) (
      other-Kept k c (record c { handshake = some (ok (take len (drop 2 body))) }) refl refl refl
        refl refl)

  dispatch-Kept :
      (now hop cmd s : ℕ) (message : List ℕ) (c : Circuit k)
      → Kept k c (dispatch k fill send circ_id now hop cmd s message c).0
  unfolding dispatch
  dispatch-Kept now hop cmd s message c =
      if-Kept k c (cmd == relay_extended2) _ _ (handshaken-Kept message (be_u16 message 0) c) (
        if-Kept k c (cmd == relay_sendme) _ _
          (if-Kept k c (s == 0) _ _
            (other-Kept k c (record c { flow = (note_sendme c.flow now).0 }) refl refl refl refl
              refl)
            (at_stream-Kept k s credited c))
          (if-Kept k c (cmd == relay_data) _ _
            (on_data_cell-Kept k fill send circ_id now hop s message c)
            (if-Kept k c (cmd == relay_connected) _ _ (at_stream-Kept k s confirmed c) (
              if-Kept k c (cmd == relay_end) _ _ (on_end_cell-Kept s message c) (
                if-Kept k c (cmd == relay_truncated) _ _ (Kept-refl k c) (
                  if-Kept k c (cmd == relay_xoff || cmd == relay_xon) _ _
                    (if-Kept k c (not (first_or message 0 == 0)) _ _ (Kept-refl k c)
                      (at_stream-Kept k s (told (cmd == relay_xoff)) c))
                    (if-Kept k c
                      (cmd == relay_rendezvous_established
                        || (cmd == relay_introduce_ack || cmd == relay_rendezvous2))
                      _ _ (control-Kept cmd message c) (Kept-refl k c))))))))

  opened-Kept :
      (now : ℕ) (o : Option Opened × List (Hop k)) (c : Circuit k)
      → length o.1 ≡ length c.out.hops
      → Kept k c (opened k fill send circ_id now o c).0
  opened-Kept now (none, hops) c same =
      hops-Kept k c (record c { out = record c.out { hops = hops } }) same refl refl refl refl refl
  opened-Kept now (some o, hops) c same =
      let c' : Circuit k = record c {
        out = record c.out { hops = hops };
        last_recv_digest = o.digest;
      } in
      let start : Kept k c c' = hops-Kept k c c' same refl refl refl refl refl in
      let len = u16_of (get_or o.body 9 0) (get_or o.body 10 0) in
      let message = take len (drop relay_header_len o.body) in
      let cmd = get_or o.body 0 0 in
      let s = u16_of (get_or o.body 3 0) (get_or o.body 4 0) in
      if-Kept k c (ltb relay_data_max len) _ _ start (
        Kept-trans k c c' (dispatch k fill send circ_id now o.index cmd s message c').0 start
          (dispatch-Kept now o.index cmd s message c'))

  -- Whatever cell the channel delivers, accepted or not, the circuit has as many hops and as many RELAY_EARLY
  -- cells left, every stream is open or released, none is released while its reader waits, and the queue of
  -- control replies stays bounded.
  pub handle_cell-Kept :
      (now : ℕ) (cell : Cell) (c : Circuit k)
      → Kept k c (handle_cell k fill send circ_id now cell c).0
  unfolding handle_cell handle_relay
  handle_cell-Kept now cell c =
      if-Kept k c (cell.command == cmd_created_fast) _ _
        (if-Kept k c (ltb (length cell.body) created_fast_len) _ _ (Kept-refl k c) (
          other-Kept k c (record c { handshake = some (ok (take created_fast_len cell.body)) }) refl
            refl refl refl refl))
        (if-Kept k c (cell.command == cmd_created2) _ _
          (created-Kept cell.body (be_u16 cell.body 0) c)
          (if-Kept k c (cell.command == cmd_destroy) _ _ (Kept-refl k c) (
            if-Kept k c (cell.command == cmd_relay || cell.command == cmd_relay_early) _ _
              (if-Kept k c (not (length cell.body == cell_body_len)) _ _ (Kept-refl k c) (
                opened-Kept now (decrypt_inbound k c.out.hops cell.body) c
                  (length-decrypt_inbound k c.out.hops cell.body)))
              (Kept-refl k c))))
