-- ===== src/Stream.antt =====
-- src/tor/circuit.rs, `TorStream`: what one connection keeps so that it can be moved to another circuit, and how it
-- reads, writes and asks for more. A wait on the condition variable is an argument: what the stream is when it ends.
pub mod Halves
pub mod Tracked
pub mod Calm
pub mod Windows
pub mod Released
mod Tests
use rust_tor_proxy.Prelude.{
  ℕ, zero, suc, ◌+◌, ◌-◌, ◌*◌, ◌/◌, ◌%◌, min, Bool, true, false, not, ◌&&◌, ◌||◌, Option, none,
  some, List, [], ◌∷◌, ◌++◌, length, take, drop, replicate, ltb, leb, ◌==◌, if◌then◌else◌, Error,
  Result, ok, err, connection_aborted, not_connected, timed_out, stream_end, ◌>>=◌, u32_mod,
}
use rust_tor_proxy.Flow.{relay_data_max}
use rust_tor_proxy.Relay.Circuit.{StreamBuf, stream_window_start, stream_window_increment}

-- `MAX_REPLAY_BYTES` and `MAX_REATTACHES`
abbrev pub max_replay_bytes : ℕ
max_replay_bytes = 16384

abbrev pub max_reattaches : ℕ
max_reattaches = 2

-- `Replay`
pub record Replay : Type 0 where
  pub buffered : List ℕ
  pub allowed : Bool
  pub attempts : ℕ

-- What `TorStream::new` starts with.
abbrev pub new_replay : Replay
new_replay = record { buffered = []; allowed = true; attempts = 0 }

-- The buffer that `open_stream` makes.
abbrev pub new_buf : StreamBuf
new_buf = record {
  unread = [];
  connected = false;
  ended = none;
  error = none;
  deliver_window = stream_window_start;
  package_window = stream_window_start;
  unacked = 0;
  send_blocked = false;
  xoff_sent = false;
}

-- `worth_it` of `may_retry`: RESOLVEFAILED, EXITPOLICY, TIMEOUT and NOROUTE, or a circuit that went away.
unfoldable pub worth_it : Error → Bool
worth_it (stream_end reason) = reason == 4 || (reason == 2 || (reason == 8 || reason == 7))
worth_it (connection_aborted e) = true
worth_it (not_connected e) = true
worth_it _ = false

-- `may_retry`: `movable` says whether `set_reattach` was called.
unfoldable pub may_retry : Bool → Replay → Error → Bool
may_retry movable replay e =
    worth_it e && (movable && (replay.allowed && ltb replay.attempts max_reattaches))

-- `record_written`
unfoldable pub record_written : Replay → List ℕ → Replay
record_written replay chunk =
    if not replay.allowed
    then replay
    else if ltb max_replay_bytes (length replay.buffered + length chunk)
    then record replay { allowed = false; buffered = [] }
    else record replay { buffered = replay.buffered ++ chunk }

-- `note_established`
unfoldable pub note_established : Replay → Replay
note_established replay =
    if replay.allowed then record replay { allowed = false; buffered = [] } else replay

-- The first step of `reattach`, under the lock: the bytes to send again, and what is left.
unfoldable pub take_replay : Replay → List ℕ × Replay
take_replay replay = (replay.buffered, record replay { attempts = replay.attempts + 1 })

-- `buffered.chunks(RELAY_DATA_MAX)`: each chunk takes a byte off at least, so the length is fuel enough.
unfoldable pub chunks_of : ℕ → List ℕ → List (List ℕ)
chunks_of zero bytes = []
chunks_of (suc fuel) [] = []
chunks_of (suc fuel) (b ∷ bytes) =
    take relay_data_max (b ∷ bytes) ∷ chunks_of fuel (drop relay_data_max (b ∷ bytes))

unfoldable pub chunks : List ℕ → List (List ℕ)
chunks bytes = chunks_of (length bytes) bytes

-- What one call of `write` offers.
abbrev pub first_chunk : List ℕ → List ℕ
first_chunk bytes = take (min (length bytes) relay_data_max) bytes

-- What a wait ends in.
pub record Wake : Type 0 where
  pub buf : StreamBuf
  pub is_closed : Bool

-- An `i32` that is not positive.
abbrev pub is_spent : StreamBuf → Bool
is_spent buf = buf.package_window == 0 || leb 2147483648 buf.package_window

-- The error that a stream which ended, or failed, has for its users.
abbrev pub end_of : Option ℕ → Option Error
end_of none = none
end_of (some reason) = some (stream_end reason)

abbrev pub error_of : Option (List ℕ) → Option Error
error_of none = none
error_of (some e) = some (connection_aborted "{err}")

abbrev pub first_of : Option Error → Option Error → Option Error
first_of none e = e
first_of (some e) e' = some e

abbrev pub fail_or : Option Error → Result StreamBuf → Result StreamBuf
fail_or none rest = rest
fail_or (some e) rest = err e

abbrev pub circuit_closed : Error
circuit_closed = connection_aborted "circuit is closed"

-- What `send_stream_data` does once the window is open: the buffer whose cell is then sent.
abbrev pub settle : StreamBuf → Result StreamBuf
settle buf =
    fail_or (end_of buf.ended)
      (ok (record buf { package_window = (buf.package_window + 4294967295) % u32_mod }))

-- `send_stream_data` up to the sending, which `send_data` does. The waits end with the deadline.
unfoldable pub send_stream_data : List Wake → StreamBuf → Result StreamBuf
send_stream_data [] buf =
    if is_spent buf
    then fail_or (first_of (end_of buf.ended) (error_of buf.error))
        (err (timed_out "stream send window stayed empty"))
    else settle buf
send_stream_data (w ∷ waits) buf =
    let later = send_stream_data waits w.buf in
    if is_spent buf
    then fail_or (first_of (end_of buf.ended) (error_of buf.error))
        (if w.is_closed then err circuit_closed else later)
    else settle buf

-- What `read_stream` makes of an end: a clean close reads as the end of the file.
abbrev pub read_end : ℕ → Result (List ℕ)
read_end reason = if reason == 6 || reason == 1 then ok [] else err (stream_end reason)

abbrev pub read_rest :
    Option (List ℕ) → Option ℕ → Option (Result (List ℕ)) → Option (Result (List ℕ))
read_rest (some e) ended later = some (err (connection_aborted "{err}"))
read_rest none (some reason) later = some (read_end reason)
read_rest none none later = later

abbrev pub read_now : ℕ → List ℕ → Option (Result (List ℕ)) → Option (Result (List ℕ))
read_now room [] rest = rest
read_now room (b ∷ bytes) rest = some (ok (take (min (length (b ∷ bytes)) room) (b ∷ bytes)))

abbrev is_empty : List ℕ → Bool
is_empty [] = true
is_empty (b ∷ bytes) = false

-- `read_stream`: what was read, for `out` of `room` bytes; `none` while it waits.
unfoldable pub read_stream : ℕ → List Wake → StreamBuf → Option (Result (List ℕ))
read_stream room [] buf = read_now room buf.unread (read_rest buf.error buf.ended none)
read_stream room (w ∷ waits) buf =
    let later = read_stream room waits w.buf in
    let woken = if w.is_closed && is_empty w.buf.unread then some (err circuit_closed) else later in
    read_now room buf.unread (read_rest buf.error buf.ended woken)

-- The buffer after a read.
abbrev pub drained : ℕ → StreamBuf → StreamBuf
drained room buf = record buf { unread = drop (min (length buf.unread) room) buf.unread }

abbrev pub is_low : StreamBuf → Bool
is_low buf = leb (length buf.unread) (stream_window_increment * relay_data_max)

-- An `i32` below the increment: a negative one, too.
abbrev pub is_acked : StreamBuf → Bool
is_acked buf = ltb buf.unacked stream_window_increment || leb 2147483648 buf.unacked

abbrev pub credited : StreamBuf → StreamBuf
credited buf = record buf {
  unacked = buf.unacked - stream_window_increment;
  deliver_window = (buf.deliver_window + stream_window_increment) % u32_mod;
}

-- The loop of `release_backpressure` under windows where every SENDME can be sent: how many SENDMEs it sends, and the buffer after. Each takes from
-- `unacked`, which is fuel enough.
unfoldable pub release_window : ℕ → StreamBuf → ℕ × StreamBuf
release_window zero buf = (0, buf)
release_window (suc fuel) buf =
    let (n, after) = release_window fuel (credited buf) in
    if is_acked buf || not (is_low buf) then (0, buf) else (n + 1, after)

-- What `?` makes of the answer to a SENDME: the rest of the loop, or the error with the credit already taken.
abbrev sent_or :
    Result {0} Unit → Result {0} Unit × StreamBuf → StreamBuf → Result {0} Unit × StreamBuf
sent_or (ok _) rest after = rest
sent_or (err e) rest after = (err e, after)

-- The same loop with what `send_relay` answers to each SENDME, by its number. The buffer's lock is released for the
-- send; what other threads do to the buffer meanwhile is not part of it.
unfoldable pub release_sent :
    (ℕ → Result {0} Unit) → ℕ → ℕ → StreamBuf → Result {0} Unit × StreamBuf
release_sent answers turn zero buf = (ok tt, buf)
release_sent answers turn (suc fuel) buf =
    let rest = release_sent answers (turn + 1) fuel (credited buf) in
    let next = sent_or (answers turn) rest (credited buf) in
    if is_acked buf || not (is_low buf) then (ok tt, buf) else next

-- The message of the branch for a congestion-controlled circuit: version 0, and no limit.
abbrev pub xon_body : List ℕ
xon_body = replicate 5 0

unfoldable pub release_xon : ℕ → StreamBuf → Option (List ℕ) × StreamBuf
release_xon limit buf =
    if not buf.xoff_sent || ltb (limit / 2) (length buf.unread)
    then (none, buf)
    else (some xon_body, record buf { xoff_sent = false })

-- `close`, on the buffer; the END cell has the reason DONE.
abbrev pub close_end : Option ℕ → Option ℕ
close_end none = some 6
close_end (some reason) = some reason

unfoldable pub close : StreamBuf → StreamBuf
close buf = record buf { ended = close_end buf.ended }

-- A turn of the loops of `read` and `write`: done, or the bytes to send again elsewhere, or the error.
pub data Turn {ℓ} (A : Type ℓ) : Type ℓ where
  finished : A → Replay → Turn A
  moving : List ℕ → Replay → Turn A
  gave_up : Error → Replay → Turn A

abbrev pub retried {ℓ} : {A : Type ℓ} → Bool → Replay → Error → Turn A
retried movable replay e =
    let (bytes, after) = take_replay replay in
    if may_retry movable replay e then moving bytes after else gave_up e replay

-- A turn of `write`, with what `send_stream_data` returned for the chunk.
unfoldable pub write_turn : Bool → Bool → Replay → List ℕ → Result {0} Unit → Turn ℕ
unfolding note_established record_written may_retry take_replay
write_turn connected movable replay chunk (ok _) =
    let seen = if connected then note_established replay else replay in
    finished (length chunk) (record_written seen chunk)
write_turn connected movable replay chunk (err e) =
    let seen = if connected then note_established replay else replay in retried movable seen e

-- A turn of `read`, with what `read_stream` returned.
unfoldable pub read_turn : Bool → Replay → Result (List ℕ) → Turn (List ℕ)
unfolding note_established may_retry take_replay
read_turn movable replay (ok bytes) = finished bytes (note_established replay)
read_turn movable replay (err e) = retried movable replay e
