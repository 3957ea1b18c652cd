-- ===== src/Relay/Tests.antt =====
-- A cipher and a hash that satisfy what is assumed of them, runs, and the theorems at concrete input.
use rust_tor_proxy.Prelude.{
  ℕ, zero, suc, ◌+◌, ◌%◌, ◌≤◌, ◌≡◌, refl, ap, arith, true, false, List, [], ◌∷◌, length, map, take,
  replicate, length-replicate, ◌==◌, if◌then◌else◌, some, none, Result, ok,
}
use rust_tor_proxy.Relay.{Crypto, IsCrypto, new, CircuitKeys}
use rust_tor_proxy.Cell.{Cell}
use rust_tor_proxy.Cell.Bytes.{be16}
use rust_tor_proxy.Flow.{window, note_received}
use rust_tor_proxy.Relay.Seal.{Outbound, decrypt_inbound, recognised, with_digest}
use rust_tor_proxy.Relay.Peer.{sealed_back, digest_at}
use rust_tor_proxy.Relay.Outward.{plain_body}
use rust_tor_proxy.Relay.Inward.{Passed, here, there, moved_on, decrypt_inbound-none}
use rust_tor_proxy.Relay.Sent.{Fills, message_of}
use rust_tor_proxy.Relay.Conversation.{Order, none_left, one_more, conversation, conversation-map}
use rust_tor_proxy.Relay.Circuit.{Circuit, Stream, StreamBuf, alloc_stream_id}
use rust_tor_proxy.Relay.Alloc.{Allocated, alloc_stream_id-Allocated}
use rust_tor_proxy.Relay.Handle.{handle_relay, dispatch, handle_cell}
use rust_tor_proxy.Relay.Answered.{taken, Quotes, handle_relay-sealed_back, handle_relay-Quotes}
use rust_tor_proxy.Relay.Kept.{Kept}
use rust_tor_proxy.Relay.Pumped.{handle_cell-Kept}
use rust_tor_proxy.Relay.Pump.{Arrival, pump}
use rust_tor_proxy.Relay.Ended.{AreSettled, pump-AreSettled}

abbrev sum : List ℕ → ℕ
sum [] = 0
sum (x ∷ xs) = x + sum xs

abbrev swap : ℕ → ℕ
swap x = if x == 0 then 1 else if x == 1 then 0 else x

abbrev swapped : ℕ → List ℕ → List ℕ
swapped c [] = []
swapped c (x ∷ xs) = (if c % 2 == 0 then swap x else x) ∷ swapped (c + 1) xs

abbrev toy : Crypto
toy = record {
  Cipher = ℕ;
  aes128 = sum;
  aes256 = sum;
  apply = λ c body. (swapped c body, c + length body);
  Digest = ℕ;
  sha1 = 0;
  sha3_256 = 1;
  update = λ d body. d + sum body;
  prefix = λ d n. replicate n (d % 256);
}

swapped-swapped : (c : ℕ) (xs : List ℕ) → swapped c (swapped c xs) ≡ xs
swapped-swapped c [] = refl
swapped-swapped c (x ∷ xs) = grind (arith, swapped-swapped (c + 1) xs)

length-swapped : (c : ℕ) (xs : List ℕ) → length (swapped c xs) ≡ length xs
length-swapped c [] = refl
length-swapped c (x ∷ xs) = ap suc (length-swapped (c + 1) xs)

take-replicate : (m n a : ℕ) → m ≤ n → take m (replicate n a) ≡ replicate m a
take-replicate zero n a h = refl
take-replicate (suc m) zero a h = ground arith
take-replicate (suc m) (suc n) a h = ap (λ xs. a ∷ xs) (take-replicate m n a (omega arith))

toy-IsCrypto : IsCrypto toy
toy-IsCrypto = record {
  apply-apply = swapped-swapped;
  apply-length = λ c body other same. ap (λ n. c + n) same;
  length-apply = length-swapped;
  length-prefix = λ d n h. length-replicate n (d % 256);
  take-prefix = λ d m n h small. take-replicate m n (d % 256) h;
}

abbrev keys : ℕ → CircuitKeys
keys seed = record {
  kf = seed ∷ [];
  kb = (seed + 1) ∷ [];
  df = (seed + 2) ∷ [];
  db = (seed + 3) ∷ [];
}

abbrev three_hops : Outbound toy
three_hops = record {
  hops = new toy (keys 1) ∷ new toy (keys 40) ∷ new toy (keys 90) ∷ [];
  relay_early_left = 8;
}

abbrev sevens : ℕ → Result (List ℕ)
sevens n = ok (replicate n 7)

sevens-Fills : Fills sevens
sevens-Fills n = (replicate n 7, refl, length-replicate n 7)

abbrev accepts_all : Cell → Result (Unit {0})
accepts_all cell = ok tt

abbrev begin_order : Order
begin_order = record {
  hop = 2;
  relay_command = 1;
  stream_id = 7;
  message = 97 ∷ 58 ∷ 56 ∷ 48 ∷ 0 ∷ [];
}

abbrev data_order : Order
data_order = record { hop = 2; relay_command = 2; stream_id = 7; message = 1 ∷ 0 ∷ 1 ∷ [] }

abbrev drop_order : Order
drop_order = record { hop = 0; relay_command = 10; stream_id = 0; message = [] }

conversation-map_example :
    conversation toy sevens 1 three_hops three_hops.hops
      (begin_order ∷ drop_order ∷ data_order ∷ [])
    ≡ some (message_of 1 7 (97 ∷ 58 ∷ 56 ∷ 48 ∷ 0 ∷ []))
      ∷ some (message_of 10 0 [])
      ∷ some (message_of 2 7 (1 ∷ 0 ∷ 1 ∷ []))
      ∷ []
conversation-map_example =
    conversation-map toy toy-IsCrypto sevens 1 three_hops
      (begin_order ∷ drop_order ∷ data_order ∷ []) sevens-Fills
      (one_more (record { reaches = omega arith; is_u16 = omega arith; fits = omega arith })
        (one_more (record { reaches = omega arith; is_u16 = omega arith; fits = omega arith })
          (one_more (record { reaches = omega arith; is_u16 = omega arith; fits = omega arith })
            none_left)))

abbrev quiet_buf : StreamBuf
quiet_buf = record {
  unread = [];
  connected = true;
  ended = none;
  error = none;
  deliver_window = 500;
  package_window = 500;
  unacked = 0;
  send_blocked = false;
  xoff_sent = false;
}

abbrev stream_7 : Stream
stream_7 = record { id = 7; hop = 2; xoff_limit = none; buf = quiet_buf }

abbrev circuit : Circuit toy
circuit = record {
  out = three_hops;
  flow = window 1000 901;
  next_stream_id = 8;
  handshake = none;
  control = [];
  last_recv_digest = replicate 20 0;
  streams = stream_7 ∷ [];
  released = [];
  meter = record {
    rx_bytes = 0;
    active_ms = 0;
    last_data_ms = 0;
    wants_probe = false;
    created = 0;
  };
}

abbrev message : List ℕ
message = 1 ∷ 0 ∷ 1 ∷ []

abbrev pad : List ℕ
pad = replicate 495 0

first_misses :
    Passed toy three_hops.hops 1 (sealed_back toy three_hops.hops 1 (plain_body 2 7 message pad)).0
unfolding sealed_back recognised with_digest be16 new
first_misses = there refl here

handle_relay-sealed_back_example :
    handle_relay toy sevens accepts_all 1 5000
      (sealed_back toy three_hops.hops 1 (plain_body 2 7 message pad)).0
      circuit
    ≡ dispatch toy sevens accepts_all 1 5000 1 2 7 message (
        taken
          (digest_at toy three_hops.hops 1 (plain_body 2 7 message pad))
          (sealed_back toy three_hops.hops 1 (plain_body 2 7 message pad)).1
          circuit)
handle_relay-sealed_back_example =
    handle_relay-sealed_back toy toy-IsCrypto sevens accepts_all 1 5000 1 2 7 message pad circuit
      (omega arith) (omega arith) (omega arith) (length-replicate {A = ℕ} 495 0) first_misses

due : (note_received (window 1000 901)).1 ≡ ok true
unfolding note_received
due = refl

handle_relay-Quotes_example :
    Quotes toy
      (sealed_back toy three_hops.hops 1 (plain_body 2 7 message pad)).1
      1
      (digest_at toy three_hops.hops 1 (plain_body 2 7 message pad))
      (handle_relay toy sevens accepts_all 1 5000
        (sealed_back toy three_hops.hops 1 (plain_body 2 7 message pad)).0
        circuit).1
handle_relay-Quotes_example =
    handle_relay-Quotes toy toy-IsCrypto sevens accepts_all 1 5000 1 7 message pad circuit
      sevens-Fills (omega arith) (omega arith) (omega arith) (length-replicate {A = ℕ} 495 0)
      first_misses due

noise : List ℕ
noise = 9 ∷ 9 ∷ 9 ∷ 9 ∷ []

unclaimed : (decrypt_inbound toy three_hops.hops noise).0 ≡ none
unfolding decrypt_inbound recognised noise new
unclaimed = refl

decrypt_inbound-none_example :
    (decrypt_inbound toy three_hops.hops noise).1 ≡ map (moved_on noise) three_hops.hops
decrypt_inbound-none_example = decrypt_inbound-none toy toy-IsCrypto three_hops.hops noise unclaimed

alloc_stream_id-Allocated_example :
    Allocated (stream_7 ∷ []) 7 (alloc_stream_id (stream_7 ∷ []) 7).0
alloc_stream_id-Allocated_example = alloc_stream_id-Allocated (stream_7 ∷ []) 7 (omega arith)

abbrev queue : List (ℕ × List ℕ)
queue = (39, []) ∷ (40, 0 ∷ []) ∷ (37, 1 ∷ []) ∷ (37, 2 ∷ []) ∷ []

abbrev destroy_cell : Cell
destroy_cell = record { circ_id = 1; command = 4; body = 1 ∷ [] }

handle_cell-Kept_example :
    Kept toy circuit (handle_cell toy sevens accepts_all 1 5000 destroy_cell circuit).0
handle_cell-Kept_example = handle_cell-Kept toy sevens accepts_all 1 5000 destroy_cell circuit

abbrev arrivals : List Arrival
arrivals = record { at = 5000; is_closed = false; cell = destroy_cell } ∷ []

pump-AreSettled_example : AreSettled toy circuit (pump toy sevens accepts_all 1 arrivals circuit)
pump-AreSettled_example = pump-AreSettled toy sevens accepts_all 1 arrivals circuit
