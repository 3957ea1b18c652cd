-- ===== src/Cc/Vegas/Inv.antt =====
-- src/tor/cc.rs, `Vegas`: one invariant for every circuit, kept by every method.
use rust_tor_proxy.Prelude.{
  ℕ, ◌+◌, ◌-◌, ◌/◌, ◌≤◌, ◌<◌, ◌≡◌, refl, min, max, Bool, true, false, List, [], ◌∷◌, arith, u32_max,
  u64_max, u64_mod,
}
use rust_tor_proxy.Cc.Params.{CcParams}
use rust_tor_proxy.Cc.Vegas.Frame.{update_rtt-SameCells}
use rust_tor_proxy.Cc.Vegas.Rtt.{
  IsTimed, Sampled, update_rtt-IsTimed, update_rtt-Sampled, vegas_update-IsTimed,
}
use rust_tor_proxy.Cc.Vegas.Window.{InWindow, vegas_update-InWindow}
use rust_tor_proxy.Cc.Vegas.Cells.{IsCounted, on_send-IsCounted, on_sendme-IsCounted}
use rust_tor_proxy.Cc.Vegas.{
  Vegas, clamp_cwnd, new, on_send, on_sendme, take_sample, tick, update_rtt, clock_check,
  fold_sample, inflight, can_send,
}

pub record IsValid (v : Vegas) : Type 0 where
  pub window : InWindow v
  pub timed : IsTimed v
  pub counted : IsCounted v

-- A new circuit is valid, with its first window the clamped `cwnd_init` and nothing in flight.
pub new-IsValid :
    (p : CcParams) (sendme_inc : ℕ) → IsValid (new p sendme_inc) × (inflight (new p sendme_inc) ≡ 0)
unfolding new clamp_cwnd inflight
new-IsValid p sendme_inc = ground arith

-- With room for one more cell in the 64-bit counter, sending keeps the invariant.
pub on_send-IsValid :
    (v : Vegas) (now : ℕ) → IsValid v → v.sent + 1 < u64_mod → IsValid (on_send v now)
on_send-IsValid v now i h = record {
  window = unfold on_send in ground arith;
  timed = unfold on_send in ground arith;
  counted = on_send-IsCounted v now i.counted h;
}

cwnd-update_rtt : (v : Vegas) (rtt : ℕ) → (update_rtt v rtt).0.cwnd ≡ v.cwnd
unfolding update_rtt clock_check fold_sample
cwnd-update_rtt v rtt = ground arith

-- What the sample of one ack leaves: the window untouched, and estimates that are sound.
record SampleTaken (v w : Vegas) (usable : Bool) : Type 0 where
  params : w.params ≡ v.params
  cwnd : w.cwnd ≡ v.cwnd
  timed : IsTimed w
  sampled : usable ≡ true → Sampled w

take_sample-SampleTaken :
    (v : Vegas) (now : ℕ) (ms : List ℕ)
    → v.marks ≡ ms
    → IsTimed v
    → SampleTaken v (take_sample v now).0 (take_sample v now).1
unfolding take_sample
take_sample-SampleTaken v now [] e t = rw (take_sample, e) (ground arith)
take_sample-SampleTaken v now (sent_at ∷ rest) e t =
    let popped : Vegas = record v { marks = rest } in
    let rtt = min ((now - sent_at) / 1000) u64_max in
    rw (take_sample, e)
      (ground (
        arith,
        cwnd-update_rtt popped rtt,
        update_rtt-SameCells popped rtt,
        update_rtt-IsTimed popped rtt,
        update_rtt-Sampled popped rtt,
      ))

on_sendme-parts :
    (v : Vegas) (now : ℕ) → IsValid v → InWindow (on_sendme v now).0 × IsTimed (on_sendme v now).0
unfolding on_sendme tick
on_sendme-parts v now i =
    let t = tick v in
    let s = (take_sample t now).0 in
    ground (
      arith,
      take_sample-SampleTaken t now v.marks refl,
      vegas_update-InWindow s,
      vegas_update-IsTimed s,
    )

-- A SENDME keeps the invariant, whether it is accepted or refused, whatever the clock says.
pub on_sendme-IsValid : (v : Vegas) (now : ℕ) → IsValid v → IsValid (on_sendme v now).0
on_sendme-IsValid v now i = record {
  window = (on_sendme-parts v now i).0;
  timed = (on_sendme-parts v now i).1;
  counted = on_sendme-IsCounted v now i.counted;
}

-- What a new circuit starts from.
pub new-counters :
    (p : CcParams) (sendme_inc : ℕ)
    → let v = new p sendme_inc in
      (v.sendme_inc ≡ max sendme_inc 1) × (v.sent ≡ 0) × (v.acked ≡ 0) × (v.params ≡ p)
unfolding new
new-counters p sendme_inc = ground arith

-- A send moves `sent` by one and nothing else that the counters depend on.
pub on_send-counters :
    (v : Vegas) (now : ℕ)
    → v.sent + 1 < u64_mod
    → let w = on_send v now in
      (w.sendme_inc ≡ v.sendme_inc)
      × (w.sent ≡ v.sent + 1)
      × (w.acked ≡ v.acked)
      × (w.cwnd ≡ v.cwnd)
      × (w.params ≡ v.params)
unfolding on_send
on_send-counters v now h = (refl, omega arith, refl, refl, refl)

-- Where the window fits 32 bits, `can_send` says that fewer cells than the window are outstanding.
pub can_send_lt : (v : Vegas) → v.cwnd ≤ u32_max → can_send v ≡ true → v.sent - v.acked < v.cwnd
unfolding can_send inflight
can_send_lt v f h = ground arith

pub can_send_ge : (v : Vegas) → can_send v ≡ false → v.cwnd ≤ v.sent - v.acked
unfolding can_send inflight
can_send_ge v h = ground arith

pub can_send_of_lt : (v : Vegas) → v.sent - v.acked < v.cwnd → can_send v ≡ true
unfolding can_send inflight
can_send_of_lt v h = ground arith
