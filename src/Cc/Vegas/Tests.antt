-- ===== src/Cc/Vegas/Tests.antt =====
-- Runs of `Vegas`, and instances of what is proved of it.
use rust_tor_proxy.Prelude.{◌≡◌, refl, true, false, [], ◌∷◌, arith}
use rust_tor_proxy.Cc.Params.{exit, defaults}
use rust_tor_proxy.Cc.Vegas.Inv.{IsValid, on_sendme-IsValid}
use rust_tor_proxy.Cc.Vegas.{
  Vegas, on_sendme, vegas_update, clamp_cwnd, cwnd_update_rate, sendme_per_cwnd, inflight,
  note_full, cwnd_is_full, adjust_cwnd, steady, steady_cwnd, reset_min_rtt, rearm,
}

-- A circuit in slow start, with one increment of 31 cells out since nanosecond 0.
abbrev one_out : Vegas
one_out = record {
  params = defaults exit;
  sendme_inc = 31;
  cwnd = 124;
  sent = 31;
  acked = 0;
  in_slow_start = true;
  cwnd_full = false;
  next_cc_event = 1;
  next_cwnd_event = 4;
  marks = 0 ∷ [];
  ewma_rtt_us = 0;
  min_rtt_us = 0;
  bdp = 0;
  clock_broken = false;
}

one_out-IsValid : IsValid one_out
unfolding defaults
one_out-IsValid = omega arith

-- A window that is full, out of slow start, with no queue.
abbrev settled : Vegas
settled = record one_out {
  in_slow_start = false;
  sent = 124;
  marks = 1 ∷ 2 ∷ 3 ∷ 4 ∷ [];
  ewma_rtt_us = 100;
  min_rtt_us = 100;
  bdp = 124;
  next_cc_event = 0;
}

settled_grows : (vegas_update settled).cwnd ≡ 155
unfolding defaults vegas_update note_full cwnd_is_full inflight adjust_cwnd steady steady_cwnd
    clamp_cwnd reset_min_rtt rearm cwnd_update_rate sendme_per_cwnd
settled_grows = refl

on_sendme-IsValid_example : IsValid (on_sendme one_out 50000).0
on_sendme-IsValid_example = on_sendme-IsValid one_out 50000 one_out-IsValid
