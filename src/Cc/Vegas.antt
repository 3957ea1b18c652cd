-- ===== src/Cc/Vegas.antt =====
-- src/tor/cc.rs, `Vegas`: the sending half of congestion control, one function for each method.
-- An `Instant` is its nanoseconds since some origin. The `u128` products are written without a
-- bound: a product of two `u64` fits.
pub mod Frame
pub mod Rtt
pub mod Window
pub mod Laws
pub mod Cells
pub mod Inv
mod Tests
use rust_tor_proxy.Prelude.{
  ℕ, ◌+◌, ◌-◌, ◌*◌, ◌/◌, ◌%◌, min, max, Bool, true, false, not, ◌&&◌, ◌||◌, List, [], ◌∷◌, ◌++◌,
  ltb, leb, ◌==◌, if◌then◌else◌, u32_max, u64_max, u64_mod, sat_add32, sat_add64, sat_mul64, Result,
  ok, err, invalid_data,
}
use rust_tor_proxy.Cc.Params.{CcParams}

abbrev pub clock_jump_ratio : ℕ
clock_jump_ratio = 5000

pub record Vegas : Type 0 where
  pub params : CcParams
  pub open params use {
    cwnd_init, cwnd_min, cwnd_max, cwnd_inc, cwnd_inc_rate, cwnd_inc_pct_ss, ewma_cwnd_pct,
    ewma_max, ewma_ss, rtt_reset_pct, vegas_alpha, vegas_beta, vegas_gamma, vegas_delta, ss_cap,
    ss_max, cwnd_full_gap, cwnd_full_minpct, cwnd_full_per_cwnd,
  }
  pub sendme_inc : ℕ
  pub cwnd : ℕ
  pub sent : ℕ
  pub acked : ℕ
  pub in_slow_start : Bool
  pub cwnd_full : Bool
  pub next_cc_event : ℕ
  pub next_cwnd_event : ℕ
  pub marks : List ℕ
  pub ewma_rtt_us : ℕ
  pub min_rtt_us : ℕ
  pub bdp : ℕ
  pub clock_broken : Bool

-- `clamp_cwnd`
unfoldable pub clamp_cwnd : Vegas → ℕ → ℕ
clamp_cwnd v cwnd = min (max (max cwnd v.cwnd_min) 1) (max v.cwnd_max 1)

-- `sendme_per_cwnd`
unfoldable pub sendme_per_cwnd : Vegas → ℕ
sendme_per_cwnd v = max (min ((v.cwnd + v.sendme_inc / 2) / v.sendme_inc) u32_max) 1

-- `cwnd_update_rate`
unfoldable pub cwnd_update_rate : Vegas → ℕ
cwnd_update_rate v =
    let step = max v.cwnd_inc_rate 1 * v.sendme_inc in
    if v.in_slow_start then 1 else max (min ((v.cwnd + step / 2) / step) u32_max) 1

-- `inflight`
unfoldable pub inflight : Vegas → ℕ
inflight v = min (v.sent - v.acked) u32_max

-- `can_send`
unfoldable pub can_send : Vegas → Bool
unfolding inflight
can_send v = ltb (inflight v) v.cwnd

-- `Vegas::new`
unfoldable pub new : CcParams → ℕ → Vegas
new params sendme_inc =
    let blank : Vegas = record {
      params = params;
      sendme_inc = max sendme_inc 1;
      cwnd = 0;
      sent = 0;
      acked = 0;
      in_slow_start = true;
      cwnd_full = false;
      next_cc_event = 0;
      next_cwnd_event = 0;
      marks = [];
      ewma_rtt_us = 0;
      min_rtt_us = 0;
      bdp = 0;
      clock_broken = false;
    } in
    let sized = record blank { cwnd = clamp_cwnd blank params.cwnd_init } in
    let paced = record sized { next_cc_event = cwnd_update_rate sized } in
    record paced { next_cwnd_event = sendme_per_cwnd paced }

-- `on_send`
unfoldable pub on_send : Vegas → ℕ → Vegas
on_send v now =
    let sent' = (v.sent + 1) % u64_mod in
    record v {
      sent = sent';
      marks = if sent' % v.sendme_inc == 0 then v.marks ++ (now ∷ []) else v.marks;
    }

-- `cwnd_is_full`
unfoldable pub cwnd_is_full : Vegas → Bool
cwnd_is_full v = leb v.cwnd (inflight v + v.cwnd_full_gap * v.sendme_inc)

-- `cwnd_is_nonfull`
unfoldable pub cwnd_is_nonfull : Vegas → Bool
cwnd_is_nonfull v = ltb (100 * inflight v) (v.cwnd_full_minpct * v.cwnd)

-- `rfc3742_ss_inc`
unfoldable pub rfc3742_ss_inc : Vegas → ℕ
rfc3742_ss_inc v =
    if leb v.cwnd v.ss_cap
    then min ((v.cwnd_inc_pct_ss * v.sendme_inc + 50) / 100) u32_max
    else max (min ((v.sendme_inc * v.ss_cap + 2 * v.cwnd / 2) / (2 * v.cwnd)) u32_max) 1

-- `ewma_n`
unfoldable pub ewma_n : Vegas → ℕ
ewma_n v =
    if v.in_slow_start
    then max v.ewma_ss 2
    else max (min (cwnd_update_rate v * v.ewma_cwnd_pct / 100) v.ewma_max) 2

-- [CLOCK_HEURISTICS], the guards at the head of `update_rtt`: whether the sample is believed.
unfoldable pub clock_check : Vegas → ℕ → Vegas × Bool
clock_check v rtt_us =
    if rtt_us == 0
    then (record v { clock_broken = true }, false)
    else if not (v.ewma_rtt_us == 0) && not v.in_slow_start
    then (if ltb (sat_mul64 v.ewma_rtt_us clock_jump_ratio) rtt_us
        then (v, false)
        else if ltb (sat_mul64 rtt_us clock_jump_ratio) v.ewma_rtt_us
        then (if v.clock_broken then (v, false) else (v, true))
        else (record v { clock_broken = false }, true))
    else (v, true)

-- N_EWMA: the smoothed value after one more sample.
unfoldable pub smooth : ℕ → ℕ → ℕ → ℕ
smooth n rtt_us ewma = min ((rtt_us * 2 + ewma * (n - 1)) / (n + 1)) u64_max

-- The smoothed and smallest round trip and the BDP, at a sample that is believed.
unfoldable pub fold_sample : Vegas → ℕ → Vegas
fold_sample v rtt_us =
    let ewma = if v.ewma_rtt_us == 0 then rtt_us else smooth (ewma_n v) rtt_us v.ewma_rtt_us in
    let smallest = if v.min_rtt_us == 0 || ltb ewma v.min_rtt_us then ewma else v.min_rtt_us in
    record v {
      ewma_rtt_us = ewma;
      min_rtt_us = smallest;
      bdp = if ewma == 0 then v.bdp else min (v.cwnd * smallest / ewma) u32_max;
    }

-- `update_rtt`
unfoldable pub update_rtt : Vegas → ℕ → Vegas × Bool
update_rtt v rtt_us =
    let (v', believed) = clock_check v rtt_us in
    if believed then (fold_sample v' rtt_us, true) else (v', false)

-- The head of `vegas_update`: was the window filled?
unfoldable pub note_full : Vegas → Vegas
note_full v =
    if cwnd_is_full v
    then record v { cwnd_full = true }
    else if cwnd_is_nonfull v
    then record v { cwnd_full = false }
    else v

-- The slow-start branch below gamma: grow a window that was filled, and stop once RFC3742's
-- increment over a whole window is no more than the steady-state one.
unfoldable pub grow : Vegas → Vegas
grow v =
    let step = rfc3742_ss_inc v in
    let grown = record v { cwnd = clamp_cwnd v (sat_add32 v.cwnd step) } in
    if leb (step * sendme_per_cwnd grown) (v.cwnd_inc * v.cwnd_inc_rate)
    then record grown { in_slow_start = false }
    else grown

-- `queue_use` at or above gamma ends slow start, one gamma above the BDP.
unfoldable pub leave_slow_start : Vegas → Vegas
leave_slow_start v = record v {
  in_slow_start = false;
  cwnd = clamp_cwnd v (sat_add32 v.bdp v.vegas_gamma);
}

-- The emergency ceiling.
unfoldable pub ceiling : Vegas → Vegas
ceiling v =
    if leb v.ss_max v.cwnd
    then record v { cwnd = clamp_cwnd v v.ss_max; in_slow_start = false }
    else v

unfoldable pub slow_start : Vegas → ℕ → Vegas
slow_start v queue_use = ceiling (
    if ltb queue_use v.vegas_gamma then (if v.cwnd_full then grow v else v) else leave_slow_start v)

-- The window of the steady-state rules.
unfoldable pub steady_cwnd : Vegas → ℕ → ℕ
steady_cwnd v queue_use =
    if ltb v.vegas_delta queue_use
    then sat_add32 v.bdp v.vegas_delta - v.cwnd_inc
    else if ltb v.vegas_beta queue_use
    then v.cwnd - v.cwnd_inc
    else if v.cwnd_full && ltb queue_use v.vegas_alpha
    then sat_add32 v.cwnd v.cwnd_inc
    else v.cwnd

unfoldable pub steady : Vegas → ℕ → Vegas
steady v queue_use = if v.next_cc_event == 0 then record v { cwnd = steady_cwnd v queue_use } else v

-- The two branches of `vegas_update` and the clamp that follows them.
unfoldable pub adjust_cwnd : Vegas → ℕ → Vegas
adjust_cwnd v queue_use =
    let w = if v.in_slow_start then slow_start v queue_use else steady v queue_use in
    record w { cwnd = clamp_cwnd w w.cwnd }

-- `RTT_min` moves towards the smoothed RTT when the window is at its floor.
unfoldable pub reset_min_rtt : Vegas → Vegas
reset_min_rtt v =
    if not v.in_slow_start && v.cwnd == clamp_cwnd v v.cwnd_min
    then (let pct = min v.rtt_reset_pct 100 in
        let kept = sat_mul64 (v.min_rtt_us / 100) (100 - pct) in
        let fresh = sat_mul64 (v.ewma_rtt_us / 100) pct in
        record v { min_rtt_us = max (sat_add64 kept fresh) 1 })
    else v

-- The end of `vegas_update`: the period counters, and the new period's empty window.
unfoldable pub rearm : Vegas → Vegas
rearm v =
    let a = if v.next_cc_event == 0 then record v { next_cc_event = cwnd_update_rate v } else v in
    let b =
      if a.next_cwnd_event == 0 then record a { next_cwnd_event = sendme_per_cwnd a } else a in
    if b.cwnd_full_per_cwnd
    then (if b.next_cwnd_event == sendme_per_cwnd b then record b { cwnd_full = false } else b)
    else if b.next_cc_event == cwnd_update_rate b
    then record b { cwnd_full = false }
    else b

-- `vegas_update`
unfoldable pub vegas_update : Vegas → Vegas
vegas_update v = rearm (reset_min_rtt (adjust_cwnd (note_full v) (v.cwnd - v.bdp)))

-- The `match` on `marks.pop_front()`: whether the ack gave a usable sample. A clock that went
-- backwards is remembered as broken.
unfoldable pub take_sample : Vegas → ℕ → Vegas × Bool
take_sample v now = elim v.marks [
  | [] ↦ (v, false)
  | sent_at ∷ rest ↦
      let popped = record v { marks = rest } in
      if leb sent_at now
      then update_rtt popped (min ((now - sent_at) / 1000) u64_max)
      else (record popped { clock_broken = true }, false)
]

unfoldable pub tick : Vegas → Vegas
tick v = record v { next_cc_event = v.next_cc_event - 1; next_cwnd_event = v.next_cwnd_event - 1 }

-- `on_sendme`: the new state, and an error where the SENDME acknowledges cells never sent.
unfoldable pub on_sendme : Vegas → ℕ → Vegas × Result (Unit {0})
on_sendme v now =
    if ltb (v.sent - v.acked) v.sendme_inc
    then (v, err (invalid_data "SENDME acknowledged cells that were never sent"))
    else (let (sampled, usable) = take_sample (tick v) now in
        let updated = if usable then vegas_update sampled else sampled in
        (record updated { acked = (updated.acked + updated.sendme_inc) % u64_mod }, ok tt))
