-- ===== src/Relay/Handle.antt =====
-- src/tor/circuit.rs, `handle_cell` and `handle_relay`: what a cell from the channel does to a circuit. The
-- outcome has the cells that are handed to the channel in answer; `send` says whether it takes a cell. A
-- time is in microseconds.
use rust_tor_proxy.Prelude.{
  ℕ, ◌+◌, ◌%◌, Bool, true, false, not, ◌&&◌, ◌||◌, Option, none, some, List, [], ◌∷◌, ◌++◌, length,
  take, drop, get_or, ltb, ◌==◌, if◌then◌else◌, Result, Error, ok, err, invalid_data,
  connection_aborted, u32_mod,
}
use rust_tor_proxy.Cell.{Cell, cell_body_len, be_u16}
use rust_tor_proxy.Cell.Bytes.{be16, u16_of}
use rust_tor_proxy.Flow.{relay_data_max, note_received, note_sendme}
use rust_tor_proxy.Relay.{
  Crypto, Hop, relay_header_len, relay_data, relay_end, relay_connected, relay_sendme,
  relay_truncated, relay_extended2, relay_rendezvous2, relay_rendezvous_established,
  relay_introduce_ack, relay_xoff, relay_xon,
}
use rust_tor_proxy.Relay.Seal.{
  Outbound, Opened, build_relay_cell, decrypt_inbound, cmd_relay, cmd_relay_early,
}
use rust_tor_proxy.Relay.Circuit.{
  Circuit, Stream, StreamBuf, stream_window_increment, note_data, push_control, lookup, at_stream,
  remove_stream,
}

abbrev pub cmd_created_fast : ℕ
cmd_created_fast = 6

abbrev pub cmd_destroy : ℕ
cmd_destroy = 4

abbrev pub cmd_created2 : ℕ
cmd_created2 = 11

abbrev pub created_fast_len : ℕ
created_fast_len = 40

abbrev pub end_reason_misc : ℕ
end_reason_misc = 1

abbrev minus_one : ℕ → ℕ
minus_one x = (x + 4294967295) % u32_mod

abbrev pub first_or : List ℕ → ℕ → ℕ
first_or [] other = other
first_or (x ∷ xs) other = x

-- One cell's data in the buffer of its stream.
unfoldable pub buffered : List ℕ → StreamBuf → StreamBuf
buffered message buf = record buf {
  deliver_window = minus_one buf.deliver_window;
  unacked = (buf.unacked + 1) % u32_mod;
  unread = buf.unread ++ message;
}

-- Whether a stream is backed up, and the far end not yet told.
unfoldable pub backed_up : Option ℕ → StreamBuf → Bool
backed_up none buf = false
backed_up (some limit) buf = not buf.xoff_sent && ltb limit (length buf.unread)

abbrev pub credited : StreamBuf → StreamBuf
credited buf = record buf {
  package_window = (buf.package_window + stream_window_increment) % u32_mod;
}

abbrev pub confirmed : StreamBuf → StreamBuf
confirmed buf = record buf { connected = true }

abbrev pub ended_by : ℕ → StreamBuf → StreamBuf
ended_by reason buf = record buf { ended = some reason }

abbrev pub told : Bool → StreamBuf → StreamBuf
told stop buf = record buf { send_blocked = stop }

abbrev pub stopped : StreamBuf → StreamBuf
stopped buf = record buf { xoff_sent = true }

abbrev pub sendme_payload : List ℕ → List ℕ
sendme_payload digest = 1 ∷ (be16 20 ++ digest)

module _ (k : Crypto) (fill : ℕ → Result (List ℕ)) (send : Cell → Result (Unit {0}))
    (circ_id : ℕ) where
  abbrev pub Outcome : Type 0
  Outcome = Circuit k × List Cell × Result (Unit {0})

  abbrev pub done : Circuit k → Outcome
  done c = (c, [], ok tt)

  abbrev pub failed : Error → Circuit k → Outcome
  failed e c = (c, [], err e)

  abbrev pub sent : Circuit k → Cell → Result (Unit {0}) → Outcome
  sent c cell r = (c, cell ∷ [], r)

  abbrev pub built : Circuit k → Outbound k × Result Cell → Outcome
  built c (out, err e) = (record c { out = out }, [], err e)
  built c (out, ok cell) = sent (record c { out = out }) cell (send cell)

  -- `send_prebuilt`
  unfoldable pub send_prebuilt : Circuit k → ℕ → ℕ → ℕ → List ℕ → Outcome
  send_prebuilt c hop relay_command stream_id message =
      built c (build_relay_cell k fill c.out circ_id hop relay_command stream_id message false)

  -- What follows only where the step before succeeded.
  abbrev pub after : Outcome → (Circuit k → Outcome) → Outcome
  after (c, cells, err e) next = (c, cells, err e)
  after (c, cells, ok accepted) next = let (c', more, r) = next c in (c', cells ++ more, r)

  abbrev pub send_xoff : ℕ → ℕ → Bool → Circuit k → Outcome
  send_xoff hop stream_id stop c =
      if stop
      then send_prebuilt (record c { streams = at_stream stream_id stopped c.streams }) hop
          relay_xoff stream_id (0 ∷ [])
      else done c

  -- The data of a cell, to its stream.
  unfoldable pub deliver : ℕ → ℕ → ℕ → List ℕ → Option Stream → Circuit k → Outcome
  deliver now hop stream_id message none c = done c
  deliver now hop stream_id message (some s) c =
      send_xoff hop stream_id (backed_up s.xoff_limit (buffered message s.buf)) (record c {
        streams = at_stream stream_id (buffered message) c.streams;
        meter = note_data c.meter now (length message);
      })

  -- The acknowledgement that is due, before the data is delivered.
  unfoldable pub acknowledge : ℕ → Result Bool → Circuit k → Outcome
  acknowledge hop (err e) c = failed e c
  acknowledge hop (ok false) c = done c
  acknowledge hop (ok true) c =
      send_prebuilt c hop relay_sendme 0 (sendme_payload c.last_recv_digest)

  -- RELAY_DATA
  unfoldable pub on_data_cell : ℕ → ℕ → ℕ → List ℕ → Circuit k → Outcome
  on_data_cell now hop stream_id message c =
      let (flow, due) = note_received c.flow in
      after (acknowledge hop due (record c { flow = flow }))
        λ c'. deliver now hop stream_id message (lookup stream_id c'.streams) c'

  abbrev pub handshaken : List ℕ → Result ℕ → Circuit k → Outcome
  handshaken message (err e) c = failed e c
  handshaken message (ok len) c =
      if ltb (length message) (2 + len)
      then failed (invalid_data "EXTENDED2 length runs past the message") c
      else done (record c { handshake = some (ok (take len (drop 2 message))) })

  abbrev pub on_sendme_cell : ℕ → ℕ → Circuit k → Outcome
  on_sendme_cell now stream_id c =
      if stream_id == 0
      then (let (flow, r) = note_sendme c.flow now in (record c { flow = flow }, [], r))
      else done (record c { streams = at_stream stream_id credited c.streams })

  abbrev pub on_end_cell : ℕ → List ℕ → Circuit k → Outcome
  on_end_cell stream_id message c =
      let ended = at_stream stream_id (ended_by (first_or message end_reason_misc)) c.streams in
      let (left, gone) = remove_stream stream_id ended in
      done (record c { streams = left; released = c.released ++ gone })

  abbrev pub on_xonoff_cell : ℕ → ℕ → List ℕ → Circuit k → Outcome
  on_xonoff_cell relay_command stream_id message c =
      if not (first_or message 0 == 0)
      then failed (invalid_data "unknown XON/XOFF version") c
      else done (record c {
        streams = at_stream stream_id (told (relay_command == relay_xoff)) c.streams;
      })

  -- The arms of `handle_relay`.
  unfoldable pub dispatch : ℕ → ℕ → ℕ → ℕ → List ℕ → Circuit k → Outcome
  dispatch now hop relay_command stream_id message c =
      if relay_command == relay_extended2
      then handshaken message (be_u16 message 0) c
      else if relay_command == relay_sendme
      then on_sendme_cell now stream_id c
      else if relay_command == relay_data
      then on_data_cell now hop stream_id message c
      else if relay_command == relay_connected
      then done (record c { streams = at_stream stream_id confirmed c.streams })
      else if relay_command == relay_end
      then on_end_cell stream_id message c
      else if relay_command == relay_truncated
      then failed (connection_aborted "circuit truncated, reason {reason}") c
      else if relay_command == relay_xoff || relay_command == relay_xon
      then on_xonoff_cell relay_command stream_id message c
      else if relay_command == relay_rendezvous_established
          || (relay_command == relay_introduce_ack || relay_command == relay_rendezvous2)
      then done (record c { control = push_control relay_command message c.control })
      else done c

  abbrev pub opened : ℕ → Option Opened × List (Hop k) → Circuit k → Outcome
  opened now (none, hops) c = done (record c { out = record c.out { hops = hops } })
  opened now (some o, hops) c =
      let c' = record c { out = record c.out { hops = hops }; last_recv_digest = o.digest } in
      let len = u16_of (get_or o.body 9 0) (get_or o.body 10 0) in
      if ltb relay_data_max len
      then failed (invalid_data "relay message length exceeds the cell") c'
      else dispatch now o.index (get_or o.body 0 0) (u16_of (get_or o.body 3 0) (get_or o.body 4 0))
          (take len (drop relay_header_len o.body)) c'

  -- `handle_relay`
  unfoldable pub handle_relay : ℕ → List ℕ → Circuit k → Outcome
  handle_relay now body c =
      if not (length body == cell_body_len)
      then failed (invalid_data "relay cell has the wrong body length") c
      else opened now (decrypt_inbound k c.out.hops body) c

  abbrev pub created : List ℕ → Result ℕ → Circuit k → Outcome
  created body (err e) c = failed e c
  created body (ok len) c =
      if ltb (length body) (2 + len)
      then failed (invalid_data "CREATED2 length runs past the cell") c
      else done (record c { handshake = some (ok (take len (drop 2 body))) })

  -- `handle_cell`
  unfoldable pub handle_cell : ℕ → Cell → Circuit k → Outcome
  handle_cell now cell c =
      if cell.command == cmd_created_fast
      then (if ltb (length cell.body) created_fast_len
          then failed (invalid_data "CREATED_FAST cell is too short") c
          else done (record c { handshake = some (ok (take created_fast_len cell.body)) }))
      else if cell.command == cmd_created2
      then created cell.body (be_u16 cell.body 0) c
      else if cell.command == cmd_destroy
      then failed (connection_aborted "DESTROY received, reason {reason}") c
      else if cell.command == cmd_relay || cell.command == cmd_relay_early
      then handle_relay now cell.body c
      else done c
