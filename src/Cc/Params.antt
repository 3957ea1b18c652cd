-- ===== src/Cc/Params.antt =====
-- src/tor/cc.rs, `Position`, `CcParams`, `CcParams::defaults`: the `cc_*` consensus parameters.
use rust_tor_proxy.Prelude.{ℕ, ◌*◌, ◌≤◌, ◌≡◌, ◌⊎◌, Bool, true, Text, codes, arith}

pub data Position : Type 0 where
  exit onion : Position

unfoldable pub suffix : Position → Text
suffix exit = codes "_exit"
suffix onion = codes "_onion"

abbrev pub outbuf_cells : ℕ
outbuf_cells = 62

abbrev pub int32_max : ℕ
int32_max = 2147483647

pub record CcParams : Type 0 where
  pub alg : ℕ
  pub sendme_inc : ℕ
  pub cwnd_init : ℕ
  pub cwnd_min : ℕ
  pub cwnd_max : ℕ
  pub cwnd_inc : ℕ
  pub cwnd_inc_rate : ℕ
  pub cwnd_inc_pct_ss : ℕ
  pub ewma_cwnd_pct : ℕ
  pub ewma_max : ℕ
  pub ewma_ss : ℕ
  pub rtt_reset_pct : ℕ
  pub vegas_alpha : ℕ
  pub vegas_beta : ℕ
  pub vegas_gamma : ℕ
  pub vegas_delta : ℕ
  pub ss_cap : ℕ
  pub ss_max : ℕ
  pub cwnd_full_gap : ℕ
  pub cwnd_full_minpct : ℕ
  pub cwnd_full_per_cwnd : Bool
  pub xoff_client : ℕ

-- beta, gamma and delta in outbufs, and the slow-start cap
tuning : Position → ℕ × ℕ × ℕ × ℕ
tuning exit = (4, 3, 5, 600)
tuning onion = (6, 4, 7, 475)

unfoldable pub defaults : Position → CcParams
unfolding tuning
defaults position =
    let (beta, gamma, delta, cap_ss) = tuning position in
    record {
      alg = 2;
      sendme_inc = 31;
      cwnd_init = 4 * 31;
      cwnd_min = 31;
      cwnd_max = int32_max;
      cwnd_inc = 31;
      cwnd_inc_rate = 1;
      cwnd_inc_pct_ss = 50;
      ewma_cwnd_pct = 50;
      ewma_max = 10;
      ewma_ss = 2;
      rtt_reset_pct = 100;
      vegas_alpha = 3 * outbuf_cells;
      vegas_beta = beta * outbuf_cells;
      vegas_gamma = gamma * outbuf_cells;
      vegas_delta = delta * outbuf_cells;
      ss_cap = cap_ss;
      ss_max = 5000;
      cwnd_full_gap = 4;
      cwnd_full_minpct = 25;
      cwnd_full_per_cwnd = true;
      xoff_client = 500;
    }

-- The ranges that the documentation of the fields gives, from proposal 324 section 6.5.
pub record InRange (p : CcParams) : Type 0 where
  pub alg : (p.alg ≡ 0) ⊎ (p.alg ≡ 2)
  pub sendme_inc : (1 ≤ p.sendme_inc) × (p.sendme_inc ≤ 254)
  pub cwnd_init : (31 ≤ p.cwnd_init) × (p.cwnd_init ≤ 10000)
  pub cwnd_min : (31 ≤ p.cwnd_min) × (p.cwnd_min ≤ 1000)
  pub cwnd_max : (500 ≤ p.cwnd_max) × (p.cwnd_max ≤ int32_max)
  pub cwnd_inc : (1 ≤ p.cwnd_inc) × (p.cwnd_inc ≤ 1000)
  pub cwnd_inc_rate : (1 ≤ p.cwnd_inc_rate) × (p.cwnd_inc_rate ≤ 250)
  pub cwnd_inc_pct_ss : (1 ≤ p.cwnd_inc_pct_ss) × (p.cwnd_inc_pct_ss ≤ 500)
  pub ewma_cwnd_pct : (1 ≤ p.ewma_cwnd_pct) × (p.ewma_cwnd_pct ≤ 255)
  pub ewma_max : (2 ≤ p.ewma_max) × (p.ewma_max ≤ int32_max)
  pub ewma_ss : (2 ≤ p.ewma_ss) × (p.ewma_ss ≤ int32_max)
  pub rtt_reset_pct : p.rtt_reset_pct ≤ 100
  pub vegas_alpha : p.vegas_alpha ≤ 1000
  pub vegas_beta : p.vegas_beta ≤ 1000
  pub vegas_gamma : p.vegas_gamma ≤ 1000
  pub vegas_delta : p.vegas_delta ≤ int32_max
  pub ss_cap : (100 ≤ p.ss_cap) × (p.ss_cap ≤ int32_max)
  pub ss_max : (500 ≤ p.ss_max) × (p.ss_max ≤ int32_max)
  pub cwnd_full_gap : p.cwnd_full_gap ≤ 32767
  pub cwnd_full_minpct : p.cwnd_full_minpct ≤ 100
  pub xoff_client : (1 ≤ p.xoff_client) × (p.xoff_client ≤ 10000)

pub defaults-InRange : (position : Position) → InRange (defaults position)
unfolding defaults
defaults-InRange exit = ground arith
defaults-InRange onion = ground arith
