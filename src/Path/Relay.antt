-- ===== src/Path/Relay.antt =====
-- src/tor/dir/consensus.rs: a relay's entry, its flags, and the bandwidth weights. An identity or a
-- digest is a number, since the code only compares them; a /16 is the number of its two bytes.
use Prim.Native.Nat.{bit_and}
use rust_tor_proxy.Prelude.{ℕ, ◌+◌, ◌*◌, Bool, ◌==◌}

abbrev pub flag_bad_exit : ℕ
flag_bad_exit = 2

abbrev pub flag_exit : ℕ
flag_exit = 4

abbrev pub flag_fast : ℕ
flag_fast = 8

abbrev pub flag_guard : ℕ
flag_guard = 16

abbrev pub flag_middle_only : ℕ
flag_middle_only = 64

abbrev pub flag_running : ℕ
flag_running = 128

abbrev pub flag_stable : ℕ
flag_stable = 256

abbrev pub flag_valid : ℕ
flag_valid = 1024

pub record RouterStatus : Type 0 where
  pub identity : ℕ
  pub microdesc_digest : ℕ
  pub ipv4 : ℕ × ℕ × ℕ × ℕ
  pub or_port : ℕ
  pub flags : ℕ
  pub bandwidth : ℕ

-- `has`
unfoldable pub has : RouterStatus → ℕ → Bool
has r flags = bit_and r.flags flags == flags

-- `subnet16`
unfoldable pub subnet16 : RouterStatus → ℕ
subnet16 r = let (a, b, c, d) = r.ipv4 in a * 256 + b

abbrev pub weight_scale : ℕ
weight_scale = 10000

pub record BandwidthWeights : Type 0 where
  pub wgg : ℕ
  pub wgm : ℕ
  pub wgd : ℕ
  pub wmg : ℕ
  pub wmm : ℕ
  pub wme : ℕ
  pub wmd : ℕ
  pub weg : ℕ
  pub wem : ℕ
  pub wee : ℕ
  pub wed : ℕ

-- `BandwidthWeights::default`
abbrev pub default_weights : BandwidthWeights
default_weights = record {
  wgg = weight_scale;
  wgm = weight_scale;
  wgd = weight_scale;
  wmg = weight_scale;
  wmm = weight_scale;
  wme = weight_scale;
  wmd = weight_scale;
  weg = weight_scale;
  wem = weight_scale;
  wee = weight_scale;
  wed = weight_scale;
}
