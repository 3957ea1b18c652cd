-- ===== src/Cc/Vegas/Laws.antt =====
-- src/tor/cc.rs, `vegas_update`: the direction in which each phase moves the window.
use rust_tor_proxy.Prelude.{ℕ, ◌+◌, ◌-◌, ◌≤◌, ◌<◌, ◌≡◌, true, false, arith, min, u32_max}
use rust_tor_proxy.Cc.Vegas.Window.{InWindow, cwnd-vegas_update}
use rust_tor_proxy.Cc.Vegas.{
  Vegas, clamp_cwnd, note_full, reset_min_rtt, rearm, vegas_update, adjust_cwnd, slow_start, steady,
  steady_cwnd, ceiling, grow, leave_slow_start,
}

-- What one update of the steady state may do to the window.
pub record SteadyMove (v w : Vegas) : Type 0 where
  pub left : w.in_slow_start ≡ false
  pub bounded : w.cwnd ≤ v.cwnd + v.cwnd_inc
  pub grows : v.cwnd < w.cwnd → (v.next_cc_event ≡ 0) × (v.cwnd - v.bdp < v.vegas_alpha)
  pub shrinks :
      w.cwnd < v.cwnd → (v.next_cc_event ≡ 0) × (min v.vegas_beta v.vegas_delta < v.cwnd - v.bdp)

in_slow_start-tail : (v : Vegas) → (rearm (reset_min_rtt v)).in_slow_start ≡ v.in_slow_start
unfolding rearm reset_min_rtt
in_slow_start-tail v = ground arith

adjust_cwnd-SteadyMove :
    (v : Vegas)
    → v.cwnd_max ≤ u32_max
    → v.in_slow_start ≡ false
    → InWindow v
    → SteadyMove v (adjust_cwnd v (v.cwnd - v.bdp))
unfolding adjust_cwnd steady steady_cwnd clamp_cwnd
adjust_cwnd-SteadyMove v f h i = ground arith

-- `note_full` only notes: it changes no number.
record SameButFull (v w : Vegas) : Type 0 where
  params : w.params ≡ v.params
  cwnd : w.cwnd ≡ v.cwnd
  bdp : w.bdp ≡ v.bdp
  phase : w.in_slow_start ≡ v.in_slow_start
  event : w.next_cc_event ≡ v.next_cc_event

note_full-SameButFull : (v : Vegas) → SameButFull v (note_full v)
unfolding note_full
note_full-SameButFull v = ground arith

-- Out of slow start, an update moves the window only at the end of a period; it grows it by at most
-- one increment and only below alpha, shrinks it only above beta or delta, and never goes back to
-- slow start.
pub vegas_update-SteadyMove :
    (v : Vegas)
    → v.cwnd_max ≤ u32_max
    → v.in_slow_start ≡ false
    → InWindow v
    → SteadyMove v (vegas_update v)
unfolding vegas_update
vegas_update-SteadyMove v f h i =
    let noted = note_full v in
    let adjusted = adjust_cwnd noted (v.cwnd - v.bdp) in
    ground (
      arith,
      cwnd-vegas_update v,
      note_full-SameButFull v,
      adjust_cwnd-SteadyMove noted,
      in_slow_start-tail adjusted,
    )

-- What an update that stays in slow start does.
pub record SlowMove (v w : Vegas) : Type 0 where
  pub grows : v.cwnd ≤ w.cwnd
  pub queue : v.cwnd - v.bdp < v.vegas_gamma
  pub capped : w.cwnd < v.ss_max

-- The slow-start branch before the last clamp, where it does not end slow start.
record Slower (v w : Vegas) (queue_use : ℕ) : Type 0 where
  params : w.params ≡ v.params
  window : InWindow w
  up : v.cwnd ≤ w.cwnd
  queue : queue_use < v.vegas_gamma
  capped : w.cwnd < v.ss_max

ceiling-eq : (v : Vegas) → (ceiling v).in_slow_start ≡ true → (ceiling v ≡ v) × (v.cwnd < v.ss_max)
unfolding ceiling
ceiling-eq v h = ground arith

grow-up :
    (v : Vegas)
    → v.cwnd_max ≤ u32_max
    → InWindow v
    → ((grow v).params ≡ v.params) × InWindow (grow v) × (v.cwnd ≤ (grow v).cwnd)
unfolding grow clamp_cwnd
grow-up v f i = ground arith

slow_start-Slower :
    (v : Vegas) (queue_use : ℕ)
    → v.cwnd_max ≤ u32_max
    → InWindow v
    → (slow_start v queue_use).in_slow_start ≡ true
    → Slower v (slow_start v queue_use) queue_use
unfolding slow_start leave_slow_start
slow_start-Slower v queue_use f i s =
    ground
      (arith, ceiling-eq v, ceiling-eq (grow v), ceiling-eq (leave_slow_start v), grow-up v f i)

adjust_cwnd-SlowMove :
    (v : Vegas)
    → v.cwnd_max ≤ u32_max
    → v.in_slow_start ≡ true
    → InWindow v
    → (adjust_cwnd v (v.cwnd - v.bdp)).in_slow_start ≡ true
    → SlowMove v (adjust_cwnd v (v.cwnd - v.bdp))
unfolding adjust_cwnd clamp_cwnd
adjust_cwnd-SlowMove v f h i s = ground (arith, slow_start-Slower v (v.cwnd - v.bdp) f i)

-- An update that leaves the circuit in slow start did not shrink the window, saw a queue below gamma,
-- and ends below the emergency ceiling `ss_max`.
pub vegas_update-SlowMove :
    (v : Vegas)
    → v.cwnd_max ≤ u32_max
    → v.in_slow_start ≡ true
    → InWindow v
    → (vegas_update v).in_slow_start ≡ true
    → SlowMove v (vegas_update v)
unfolding vegas_update
vegas_update-SlowMove v f h i s =
    let noted = note_full v in
    let adjusted = adjust_cwnd noted (v.cwnd - v.bdp) in
    ground (
      arith,
      cwnd-vegas_update v,
      note_full-SameButFull v,
      adjust_cwnd-SlowMove noted,
      in_slow_start-tail adjusted,
    )
