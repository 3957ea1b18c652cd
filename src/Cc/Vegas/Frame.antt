-- ===== src/Cc/Vegas/Frame.antt =====
-- src/tor/cc.rs, `Vegas`: what the phases of `update_rtt` and `vegas_update` leave alone.
use rust_tor_proxy.Prelude.{ℕ, ◌≡◌, ◌-◌, arith}
use rust_tor_proxy.Cc.Vegas.{
  Vegas, clock_check, fold_sample, update_rtt, note_full, grow, leave_slow_start, ceiling,
  slow_start, steady, adjust_cwnd, reset_min_rtt, rearm, vegas_update,
}

-- The parameters, the counters of cells and the send times are the same.
pub record SameCells (v w : Vegas) : Type 0 where
  pub params : w.params ≡ v.params
  pub sendme_inc : w.sendme_inc ≡ v.sendme_inc
  pub sent : w.sent ≡ v.sent
  pub acked : w.acked ≡ v.acked
  pub marks : w.marks ≡ v.marks

pub trans : {u v w : Vegas} → SameCells u v → SameCells v w → SameCells u w
trans p q = ground arith

clock_check-SameCells : (v : Vegas) (rtt : ℕ) → SameCells v (clock_check v rtt).0
unfolding clock_check
clock_check-SameCells v rtt = ground arith

fold_sample-SameCells : (v : Vegas) (rtt : ℕ) → SameCells v (fold_sample v rtt)
unfolding fold_sample
fold_sample-SameCells v rtt = ground arith

pub update_rtt-SameCells : (v : Vegas) (rtt : ℕ) → SameCells v (update_rtt v rtt).0
unfolding update_rtt
update_rtt-SameCells v rtt =
    ground (arith, clock_check-SameCells v rtt, fold_sample-SameCells (clock_check v rtt).0 rtt)

pub note_full-SameCells : (v : Vegas) → SameCells v (note_full v)
unfolding note_full
note_full-SameCells v = ground arith

slow_start-SameCells : (v : Vegas) (queue_use : ℕ) → SameCells v (slow_start v queue_use)
unfolding slow_start ceiling grow leave_slow_start
slow_start-SameCells v queue_use = ground arith

steady-SameCells : (v : Vegas) (queue_use : ℕ) → SameCells v (steady v queue_use)
unfolding steady
steady-SameCells v queue_use = ground arith

pub adjust_cwnd-SameCells : (v : Vegas) (queue_use : ℕ) → SameCells v (adjust_cwnd v queue_use)
unfolding adjust_cwnd
adjust_cwnd-SameCells v queue_use =
    ground (arith, slow_start-SameCells v queue_use, steady-SameCells v queue_use)

pub reset_min_rtt-SameCells : (v : Vegas) → SameCells v (reset_min_rtt v)
unfolding reset_min_rtt
reset_min_rtt-SameCells v = ground arith

pub rearm-SameCells : (v : Vegas) → SameCells v (rearm v)
unfolding rearm
rearm-SameCells v = ground arith

pub vegas_update-SameCells : (v : Vegas) → SameCells v (vegas_update v)
unfolding vegas_update
vegas_update-SameCells v =
    let noted = note_full v in
    let adjusted = adjust_cwnd noted (v.cwnd - v.bdp) in
    trans (note_full-SameCells v) (
      trans (adjust_cwnd-SameCells noted (v.cwnd - v.bdp))
        (trans (reset_min_rtt-SameCells adjusted) (rearm-SameCells (reset_min_rtt adjusted))))

-- The round-trip estimates and the BDP are the same.
pub record SameTimes (v w : Vegas) : Type 0 where
  pub ewma_rtt_us : w.ewma_rtt_us ≡ v.ewma_rtt_us
  pub min_rtt_us : w.min_rtt_us ≡ v.min_rtt_us
  pub bdp : w.bdp ≡ v.bdp

pub note_full-SameTimes : (v : Vegas) → SameTimes v (note_full v)
unfolding note_full
note_full-SameTimes v = ground arith

pub adjust_cwnd-SameTimes : (v : Vegas) (queue_use : ℕ) → SameTimes v (adjust_cwnd v queue_use)
unfolding adjust_cwnd slow_start ceiling grow leave_slow_start steady
adjust_cwnd-SameTimes v queue_use = ground arith

pub rearm-SameTimes : (v : Vegas) → SameTimes v (rearm v)
unfolding rearm
rearm-SameTimes v = ground arith
