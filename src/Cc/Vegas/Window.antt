-- ===== src/Cc/Vegas/Window.antt =====
-- src/tor/cc.rs, `Vegas::clamp_cwnd` and `vegas_update`: where the window may move.
use rust_tor_proxy.Prelude.{ℕ, ◌-◌, ◌≤◌, ◌≡◌, min, max, false, arith}
use rust_tor_proxy.Cc.Vegas.Frame.{reset_min_rtt-SameCells, rearm-SameCells}
use rust_tor_proxy.Cc.Vegas.{
  Vegas, clamp_cwnd, note_full, reset_min_rtt, rearm, vegas_update, adjust_cwnd, steady,
}

-- The largest window, and the smallest: `cwnd_min` unless it stands above the largest.
abbrev pub ceiling_of : Vegas → ℕ
ceiling_of v = max v.cwnd_max 1

abbrev pub floor_of : Vegas → ℕ
floor_of v = min (max v.cwnd_min 1) (ceiling_of v)

pub record InWindow (v : Vegas) : Type 0 where
  pub above : floor_of v ≤ v.cwnd
  pub below : v.cwnd ≤ ceiling_of v

adjust_cwnd-InWindow : (v : Vegas) (queue_use : ℕ) → InWindow (adjust_cwnd v queue_use)
unfolding adjust_cwnd clamp_cwnd
adjust_cwnd-InWindow v queue_use = ground arith

cwnd-reset_min_rtt : (v : Vegas) → (reset_min_rtt v).cwnd ≡ v.cwnd
unfolding reset_min_rtt
cwnd-reset_min_rtt v = ground arith

cwnd-rearm : (v : Vegas) → (rearm v).cwnd ≡ v.cwnd
unfolding rearm
cwnd-rearm v = ground arith

-- `vegas_update` leaves the window that `adjust_cwnd` chose.
pub cwnd-vegas_update :
    (v : Vegas) → (vegas_update v).cwnd ≡ (adjust_cwnd (note_full v) (v.cwnd - v.bdp)).cwnd
unfolding vegas_update
cwnd-vegas_update v =
    let w = adjust_cwnd (note_full v) (v.cwnd - v.bdp) in
    ground (arith, cwnd-reset_min_rtt w, cwnd-rearm (reset_min_rtt w))

-- Whatever the state was, `vegas_update` leaves the window between its floor and its ceiling.
pub vegas_update-InWindow : (v : Vegas) → InWindow (vegas_update v)
unfolding vegas_update
vegas_update-InWindow v =
    let w = adjust_cwnd (note_full v) (v.cwnd - v.bdp) in
    ground (
      arith,
      adjust_cwnd-InWindow (note_full v) (v.cwnd - v.bdp),
      cwnd-reset_min_rtt w,
      cwnd-rearm (reset_min_rtt w),
      reset_min_rtt-SameCells w,
      rearm-SameCells (reset_min_rtt w),
    )

-- Slow start is never entered again.
stays_out-adjust_cwnd :
    (v : Vegas) (queue_use : ℕ)
    → v.in_slow_start ≡ false
    → (adjust_cwnd v queue_use).in_slow_start ≡ false
unfolding adjust_cwnd steady
stays_out-adjust_cwnd v queue_use h = ground arith
