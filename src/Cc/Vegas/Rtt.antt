-- ===== src/Cc/Vegas/Rtt.antt =====
-- src/tor/cc.rs, `Vegas::update_rtt` and the reset of `RTT_min`: the round-trip estimates.
use native.Mathlib.Nat.{mul-le-mul, le_refl}
use rust_tor_proxy.Prelude.{
  ℕ, ◌+◌, ◌-◌, ◌*◌, ◌/◌, ◌≤◌, ◌≡◌, ap, min, max, true, arith, u64_max, div-le_of_le_mul,
  le-div_of_mul_le,
}
use rust_tor_proxy.Cc.Vegas.Frame.{note_full-SameTimes, adjust_cwnd-SameTimes, rearm-SameTimes}
use rust_tor_proxy.Cc.Vegas.{
  Vegas, clock_check, smooth, ewma_n, fold_sample, update_rtt, reset_min_rtt, vegas_update,
  note_full, adjust_cwnd,
}

-- N of the smoothing is at least 2.
pub two-le-ewma_n : (v : Vegas) → 2 ≤ ewma_n v
unfolding ewma_n
two-le-ewma_n v = ground arith

weigh_le : (n x y b : ℕ) → 2 ≤ n → x ≤ b → y ≤ b → x * 2 + y * (n - 1) ≤ b * (n + 1)
weigh_le n x y b h p q = grind arith

le_weigh : (n x y b : ℕ) → 2 ≤ n → b ≤ x → b ≤ y → b * (n + 1) ≤ x * 2 + y * (n - 1)
le_weigh n x y b h p q =
    let e : n ≡ n - 1 + 1 = omega arith in
    omega (arith, ap (λ (t : ℕ). b * t) e, mul-le-mul q (le_refl (n - 1)))

-- The smoothed value lies between the sample and the value before it, so the clamp to 64 bits never
-- acts.
pub smooth_bounds :
    (n rtt ewma : ℕ)
    → 2 ≤ n
    → rtt ≤ u64_max
    → ewma ≤ u64_max
    → (min rtt ewma ≤ smooth n rtt ewma) × (smooth n rtt ewma ≤ max rtt ewma)
unfolding smooth
smooth_bounds n rtt ewma h p q =
    let x = rtt * 2 + ewma * (n - 1) in
    omega (
      arith,
      div-le_of_le_mul x (max rtt ewma) (n + 1) (omega arith)
          (weigh_le n rtt ewma (max rtt ewma) h (omega arith) (omega arith)),
      le-div_of_mul_le x (min rtt ewma) (n + 1) (omega arith)
          (le_weigh n rtt ewma (min rtt ewma) h (omega arith) (omega arith)),
    )

-- What holds of the estimates: zero stands for "not measured yet" and for nothing else.
pub record IsTimed (v : Vegas) : Type 0 where
  pub smallest : v.min_rtt_us ≤ v.ewma_rtt_us
  pub measured : 1 ≤ v.ewma_rtt_us → 1 ≤ v.min_rtt_us
  pub fits : v.ewma_rtt_us ≤ u64_max

bdp-le : (cwnd smallest ewma : ℕ) → smallest ≤ ewma → 1 ≤ ewma → cwnd * smallest / ewma ≤ cwnd
bdp-le cwnd smallest ewma h p = div-le_of_le_mul (cwnd * smallest) cwnd ewma p (grind arith)

-- What a sample leaves behind.
pub record Sampled (v : Vegas) : Type 0 where
  pub timed : IsTimed v
  pub positive : 1 ≤ v.ewma_rtt_us
  pub below : v.bdp ≤ v.cwnd

fold_sample-Sampled :
    (v : Vegas) (rtt : ℕ) → IsTimed v → 1 ≤ rtt → rtt ≤ u64_max → Sampled (fold_sample v rtt)
unfolding fold_sample
fold_sample-Sampled v rtt t p q =
    let e = smooth (ewma_n v) rtt v.ewma_rtt_us in
    ground (
      arith,
      smooth_bounds (ewma_n v) rtt v.ewma_rtt_us (two-le-ewma_n v),
      bdp-le v.cwnd rtt rtt,
      bdp-le v.cwnd e e,
      bdp-le v.cwnd v.min_rtt_us rtt,
      bdp-le v.cwnd v.min_rtt_us e,
    )

clock_check-IsTimed : (v : Vegas) (rtt : ℕ) → IsTimed v → IsTimed (clock_check v rtt).0
unfolding clock_check
clock_check-IsTimed v rtt t = ground arith

clock_check-pos : (v : Vegas) (rtt : ℕ) → (clock_check v rtt).1 ≡ true → 1 ≤ rtt
unfolding clock_check
clock_check-pos v rtt h = ground arith

-- A sample that is refused leaves the estimates sound; one that is used gives a positive smoothed
-- round trip and a BDP of at most the window.
pub update_rtt-IsTimed :
    (v : Vegas) (rtt : ℕ) → IsTimed v → rtt ≤ u64_max → IsTimed (update_rtt v rtt).0
unfolding update_rtt
update_rtt-IsTimed v rtt t q = ground (
  arith,
  clock_check-IsTimed v rtt,
  clock_check-pos v rtt,
  fold_sample-Sampled (clock_check v rtt).0 rtt,
)

pub update_rtt-Sampled :
    (v : Vegas) (rtt : ℕ)
    → IsTimed v
    → rtt ≤ u64_max
    → (update_rtt v rtt).1 ≡ true
    → Sampled (update_rtt v rtt).0
unfolding update_rtt
update_rtt-Sampled v rtt t q h = ground (
  arith,
  clock_check-IsTimed v rtt,
  clock_check-pos v rtt,
  fold_sample-Sampled (clock_check v rtt).0 rtt,
)

div_mono : (m e : ℕ) → m ≤ e → m / 100 ≤ e / 100
div_mono m e h = omega arith

share_le : (m e pct : ℕ) → m ≤ e → pct ≤ 100 → m / 100 * (100 - pct) + e / 100 * pct ≤ e
share_le m e pct h p =
    let whole : 100 ≡ 100 - pct + pct = omega arith in
    omega
      (arith, mul-le-mul (div_mono m e h) (le_refl (100 - pct)), ap (λ (t : ℕ). e / 100 * t) whole)

-- Moving `RTT_min` towards the smoothed round trip never takes it above that, nor down to zero.
pub reset_min_rtt-IsTimed : (v : Vegas) → IsTimed v → 1 ≤ v.ewma_rtt_us → IsTimed (reset_min_rtt v)
unfolding reset_min_rtt
reset_min_rtt-IsTimed v t p =
    ground (arith, share_le v.min_rtt_us v.ewma_rtt_us (min v.rtt_reset_pct 100))

-- After an update that a usable sample allowed, the estimates are still sound.
pub vegas_update-IsTimed : (v : Vegas) → Sampled v → IsTimed (vegas_update v)
unfolding vegas_update
vegas_update-IsTimed v s =
    let noted = note_full v in
    let adjusted = adjust_cwnd noted (v.cwnd - v.bdp) in
    ground (
      arith,
      note_full-SameTimes v,
      adjust_cwnd-SameTimes noted (v.cwnd - v.bdp),
      reset_min_rtt-IsTimed adjusted,
      rearm-SameTimes (reset_min_rtt adjusted),
    )
