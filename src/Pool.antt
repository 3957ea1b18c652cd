-- ===== src/Pool.antt =====
-- src/tor/pool.rs: the pool's data, the verdict on a circuit, and the operations on its state.
-- A `Circuit` is a shared handle and stands for its circ_id. What the code reads of a circuit while it
-- holds the pool's lock (closed, open streams, delivery) other threads may change; `Net` is what it
-- reads, one value for the time that the lock is held. Instants are milliseconds. An operation
-- returns the circuits that it closes.
pub mod Retire
pub mod Selected
pub mod Ops
pub mod Jobs
pub mod Ledger
pub mod Sweep
pub mod Outcome
pub mod Choice
pub mod Budget
pub mod Order
mod Tests
use rust_tor_proxy.Prelude.{
  ℕ, ◌+◌, ◌-◌, ◌/◌, Bool, true, false, not, ◌&&◌, ◌||◌, Option, none, some, List, [], ◌∷◌, any, ltb,
  leb, ◌==◌, if◌then◌else◌, length,
}
use rust_tor_proxy.Path.Constraints.{PathConstraints}

abbrev pub stub_target : ℕ
stub_target = 3

abbrev pub max_circuits : ℕ
max_circuits = 16

abbrev pub spread_circuits : ℕ
spread_circuits = 4

abbrev pub clean_target : ℕ
clean_target = 6

abbrev pub measure_min_bytes : ℕ
measure_min_bytes = 1048576

abbrev pub measure_min_active_ms : ℕ
measure_min_active_ms = 2000

abbrev pub floor_kbps : ℕ
floor_kbps = 150

abbrev pub streams_per_circuit : ℕ
streams_per_circuit = 4

abbrev pub max_dirty_age : ℕ
max_dirty_age = 600000

abbrev pub max_idle_age : ℕ
max_idle_age = 1800000

abbrev pub stub_max_age : ℕ
stub_max_age = 300000

abbrev pub prediction_window : ℕ
prediction_window = 3600000

abbrev pub max_pending_blame : ℕ
max_pending_blame = 64

abbrev pub default_ports : List ℕ
default_ports = 80 ∷ 443 ∷ []

-- `circuit::Delivery`
pub record Delivery : Type 0 where
  pub bytes : ℕ
  pub active_ms : ℕ

-- `Delivery::kbps`
unfoldable pub kbps : Delivery → ℕ → ℕ → Option ℕ
kbps d min_bytes min_active_ms =
    if d.active_ms == 0 || ltb d.bytes min_bytes || ltb d.active_ms min_active_ms
    then none
    else some (d.bytes / d.active_ms)

pub record Net : Type 0 where
  pub now : ℕ
  pub is_closed : ℕ → Bool
  pub open_streams : ℕ → ℕ
  pub delivery : ℕ → Delivery

-- `microdesc::PortPolicy`
pub record PortPolicy : Type 0 where
  pub is_accept : Bool
  pub ranges : List (ℕ × ℕ)

abbrev same : Bool → Bool → Bool
same true b = b
same false b = not b

-- `PortPolicy::allows`
unfoldable pub allows : PortPolicy → ℕ → Bool
allows p port = same (any (λ r. leb r.0 port && leb port r.1) p.ranges) p.is_accept

pub record Stub : Type 0 where
  pub circuit : ℕ
  pub constraints : PathConstraints
  pub guard_id : ℕ
  pub built : ℕ

-- `Stub::usable`
unfoldable pub stub_usable : Net → Stub → Bool
stub_usable n s = not (n.is_closed s.circuit) && ltb (n.now - s.built) stub_max_age

pub record Pooled : Type 0 where
  pub circuit : ℕ
  pub exit_policy : PortPolicy
  pub guard_id : ℕ
  pub blamed : Bool
  pub built : ℕ
  pub first_used : Option ℕ

pub data Verdict : Type 0 where
  keep expired unresponsive : Verdict
  too_slow : ℕ → Verdict

-- `Verdict::blames_the_path`
unfoldable pub blames_the_path : Verdict → Bool
blames_the_path keep = false
blames_the_path expired = false
blames_the_path unresponsive = true
blames_the_path (too_slow k) = true

abbrev below_floor : Option ℕ → Verdict
below_floor none = keep
below_floor (some k) = if ltb k floor_kbps then too_slow k else keep

-- `judge`
unfoldable pub judge : Delivery → Verdict
unfolding kbps
judge d = below_floor (kbps d measure_min_bytes measure_min_active_ms)

abbrev aged : ℕ → Option ℕ → Bool
aged now none = false
aged now (some at) = leb max_dirty_age (now - at)

-- `Pooled::verdict`
unfoldable pub verdict : Net → Pooled → Verdict
unfolding judge
verdict n c =
    if n.is_closed c.circuit || leb max_idle_age (n.now - c.built)
    then expired
    else if aged n.now c.first_used
    then expired
    else judge (n.delivery c.circuit)

abbrev pub is_keep : Verdict → Bool
is_keep keep = true
is_keep expired = false
is_keep unresponsive = false
is_keep (too_slow k) = false

-- `Pooled::usable`
unfoldable pub usable : Net → Pooled → Bool
usable n c = is_keep (verdict n c)

pub record Prediction : Type 0 where
  pub port : ℕ
  pub last : ℕ

abbrev pub Blame : Type 0
Blame = ℕ × Verdict

pub record State : Type 0 where
  pub stubs : List Stub
  pub circuits : List Pooled
  pub predicted : List Prediction
  pub onion_in_use : ℕ
  pub blamed : List Blame

-- `State::total`
unfoldable pub total : State → ℕ
total s = length s.stubs + length s.circuits + s.onion_in_use

-- `stream_limit`
unfoldable pub stream_limit : ℕ → ℕ
stream_limit allowing = if ltb allowing spread_circuits then 1 else streams_per_circuit
