-- ===== src/Relay/Circuit.antt =====
-- src/tor/circuit.rs: the state of a circuit and of its streams. A stream that left the map is kept, since
-- its reader still holds it.
use rust_tor_proxy.Prelude.{
  ℕ, zero, suc, ◌+◌, ◌-◌, ◌%◌, ◌/◌, Bool, false, not, ◌&&◌, ◌||◌, Option, none, some, List, [], ◌∷◌,
  ◌++◌, length, leb, ◌==◌, if◌then◌else◌, Result, u16_mod, u64_mod, max,
}
use rust_tor_proxy.Flow.{FlowControl}
use rust_tor_proxy.Relay.{Crypto, max_queued_control}
use rust_tor_proxy.Relay.Seal.{Outbound}

abbrev pub stream_window_start : ℕ
stream_window_start = 500

abbrev pub stream_window_increment : ℕ
stream_window_increment = 50

abbrev pub active_gap_ms : ℕ
active_gap_ms = 500

-- `StreamBuf`: an `i32` is its two's complement.
pub record StreamBuf : Type 0 where
  pub unread : List ℕ
  pub connected : Bool
  pub ended : Option ℕ
  pub error : Option (List ℕ)
  pub deliver_window : ℕ
  pub package_window : ℕ
  pub unacked : ℕ
  pub send_blocked : Bool
  pub xoff_sent : Bool

-- `StreamShared`
pub record Stream : Type 0 where
  pub id : ℕ
  pub hop : ℕ
  pub xoff_limit : Option ℕ
  pub buf : StreamBuf

-- `Meter`: instants are microseconds.
pub record Meter : Type 0 where
  pub rx_bytes : ℕ
  pub active_ms : ℕ
  pub last_data_ms : ℕ
  pub wants_probe : Bool
  pub created : ℕ

-- `Meter::note_data`
unfoldable pub note_data : Meter → ℕ → ℕ → Meter
note_data m at len =
    let now = max ((at - m.created) / 1000 % u64_mod) 1 in
    let gap = now - m.last_data_ms in
    record {
      rx_bytes = (m.rx_bytes + len) % u64_mod;
      active_ms =
          (if not (m.last_data_ms == 0) && leb gap active_gap_ms
            then (m.active_ms + gap) % u64_mod
            else m.active_ms);
      last_data_ms = now;
      wants_probe = false;
      created = m.created;
    }

-- What the lock of `State` guards, with the map of streams and the meter.
pub record Circuit (k : Crypto) : Type 0 where
  pub out : Outbound k
  pub flow : FlowControl
  pub next_stream_id : ℕ
  pub handshake : Option (Result (List ℕ))
  pub control : List (ℕ × List ℕ)
  pub last_recv_digest : List ℕ
  pub streams : List Stream
  pub released : List Stream
  pub meter : Meter

abbrev pop_front {ℓ} : {A : Type ℓ} → List A → List A
pop_front [] = []
pop_front (x ∷ xs) = xs

-- `State::push_control`
unfoldable pub push_control : ℕ → List ℕ → List (ℕ × List ℕ) → List (ℕ × List ℕ)
push_control relay_command message control =
    (if leb max_queued_control (length control) then pop_front control else control)
    ++ ((relay_command, message) ∷ [])

abbrev kept_before :
    ℕ × List ℕ → Option (List ℕ) × List (ℕ × List ℕ) → Option (List ℕ) × List (ℕ × List ℕ)
kept_before reply (found, control) = (found, reply ∷ control)

-- `State::take_control`: the reply, and the queue afterwards.
unfoldable pub take_control : ℕ → List (ℕ × List ℕ) → Option (List ℕ) × List (ℕ × List ℕ)
take_control relay_command [] = (none, [])
take_control relay_command ((command, message) ∷ control) =
    let rest = take_control relay_command control in
    if command == relay_command
    then (some message, control)
    else kept_before (command, message) rest

-- `streams.contains_key`
unfoldable pub is_open : ℕ → List Stream → Bool
is_open id [] = false
is_open id (s ∷ ss) = s.id == id || is_open id ss

-- The loop of `alloc_stream_id`: the identifier, and the next one to try.
unfoldable pub try_ids : ℕ → List Stream → ℕ → Option ℕ × ℕ
try_ids zero streams next = (none, next)
try_ids (suc tries) streams next =
    let later = try_ids tries streams ((next + 1) % u16_mod) in
    if next == 0 || is_open next streams then later else (some next, (next + 1) % u16_mod)

-- `alloc_stream_id`
unfoldable pub alloc_stream_id : List Stream → ℕ → Option ℕ × ℕ
alloc_stream_id streams next_stream_id = try_ids 65535 streams next_stream_id

-- `streams.remove`: the streams that are left, and those that went.
unfoldable pub remove_stream : ℕ → List Stream → List Stream × List Stream
remove_stream id [] = ([], [])
remove_stream id (s ∷ ss) =
    let (kept, gone) = remove_stream id ss in
    if s.id == id then (kept, s ∷ gone) else (s ∷ kept, gone)

-- `lookup`, and what is done under the lock of the stream that it finds.
unfoldable pub at_stream : ℕ → (StreamBuf → StreamBuf) → List Stream → List Stream
at_stream id f [] = []
at_stream id f (s ∷ ss) = (if s.id == id then record s { buf = f s.buf } else s) ∷ at_stream id f ss

-- `lookup`
unfoldable pub lookup : ℕ → List Stream → Option Stream
lookup id [] = none
lookup id (s ∷ ss) = if s.id == id then some s else lookup id ss
