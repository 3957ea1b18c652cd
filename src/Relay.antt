-- ===== src/Relay.antt =====
-- src/tor/circuit.rs: relay cells and the hops that they are sealed for and opened by. A stream cipher
-- and a running hash (src/ffi/aes.rs, src/ffi/hash.rs) are bindings, and stand as parameters.
pub mod Seal
pub mod Peer
pub mod Circuit
pub mod Alloc
pub mod KeptData
pub mod Pumped
pub mod Ended
pub mod Pump
pub mod Kept
pub mod Answered
pub mod Handle
pub mod Control
pub mod Outward
pub mod Conversation
mod Tests
pub mod Sent
pub mod Inward
use rust_tor_proxy.Prelude.{ℕ, ◌≡◌, List, length, take, ◌≤◌}

-- A cipher is its state, which `apply` moves on; a hash is what was fed to it, which `prefix` reads.
pub record Crypto : Type 1 where
  pub Cipher : Type 0
  pub aes128 : List ℕ → Cipher
  pub aes256 : List ℕ → Cipher
  pub apply : Cipher → List ℕ → List ℕ × Cipher
  pub Digest : Type 0
  pub sha1 : Digest
  pub sha3_256 : Digest
  pub update : Digest → List ℕ → Digest
  pub prefix : Digest → ℕ → List ℕ

-- In counter mode the same keystream opens what it sealed, and as much of it is used as there are bytes.
-- A prefix of a hash has the length asked for, up to the 20 bytes of the shortest.
pub record IsCrypto (k : Crypto) : Type 0 where
  pub apply-apply : (c : k.Cipher) (body : List ℕ) → (k.apply c (k.apply c body).0).0 ≡ body
  pub apply-length :
      (c : k.Cipher) (body other : List ℕ)
      → length body ≡ length other
      → (k.apply c body).1 ≡ (k.apply c other).1
  pub length-apply : (c : k.Cipher) (body : List ℕ) → length (k.apply c body).0 ≡ length body
  pub length-prefix : (d : k.Digest) (n : ℕ) → n ≤ 20 → length (k.prefix d n) ≡ n
  pub take-prefix : (d : k.Digest) (m n : ℕ) → m ≤ n → n ≤ 20 → take m (k.prefix d n) ≡ k.prefix d m

abbrev pub relay_data : ℕ
relay_data = 2

abbrev pub relay_end : ℕ
relay_end = 3

abbrev pub relay_connected : ℕ
relay_connected = 4

abbrev pub relay_sendme : ℕ
relay_sendme = 5

abbrev pub relay_truncated : ℕ
relay_truncated = 9

abbrev pub relay_drop : ℕ
relay_drop = 10

abbrev pub relay_extended2 : ℕ
relay_extended2 = 15

abbrev pub relay_rendezvous2 : ℕ
relay_rendezvous2 = 37

abbrev pub relay_rendezvous_established : ℕ
relay_rendezvous_established = 39

abbrev pub relay_introduce_ack : ℕ
relay_introduce_ack = 40

abbrev pub relay_xoff : ℕ
relay_xoff = 43

abbrev pub relay_xon : ℕ
relay_xon = 44

abbrev pub relay_header_len : ℕ
relay_header_len = 11

abbrev pub max_relay_early : ℕ
max_relay_early = 8

abbrev pub max_queued_control : ℕ
max_queued_control = 16

-- `Hop`
pub record Hop (k : Crypto) : Type 0 where
  pub forward_cipher : k.Cipher
  pub backward_cipher : k.Cipher
  pub forward_digest : k.Digest
  pub backward_digest : k.Digest

-- `CircuitKeys` and `HsCircuitKeys`
pub record CircuitKeys : Type 0 where
  pub kf : List ℕ
  pub kb : List ℕ
  pub df : List ℕ
  pub db : List ℕ

module _ (k : Crypto) where
  -- `Hop::build`
  abbrev build : k.Cipher → k.Cipher → k.Digest → List ℕ → List ℕ → Hop k
  build forward backward digest df db = record {
    forward_cipher = forward;
    backward_cipher = backward;
    forward_digest = k.update digest df;
    backward_digest = k.update digest db;
  }

  -- `Hop::new`
  unfoldable pub new : CircuitKeys → Hop k
  new keys = build (k.aes128 keys.kf) (k.aes128 keys.kb) k.sha1 keys.df keys.db

  -- `Hop::virtual_hop`
  unfoldable pub virtual_hop : CircuitKeys → Hop k
  virtual_hop keys = build (k.aes256 keys.kf) (k.aes256 keys.kb) k.sha3_256 keys.df keys.db
