-- ===== src/Path/Weights.antt =====
-- src/tor/path.rs, `weighted_bandwidth`: what the weights of a consensus without the line amount to.
use native.Mathlib.Nat.{mul-le-mul_left}
use rust_tor_proxy.Prelude.{◌*◌, ◌≤◌, ◌<◌, ◌≡◌, refl, max, Bool, true, false, arith, u32_mod}
use rust_tor_proxy.Path.Relay.{RouterStatus, default_weights, weight_scale, BandwidthWeights}
use rust_tor_proxy.Path.Draw.{
  Position, guard, middle, exit, weight, weight_of, bandwidth_share, weighted_bandwidth,
}

weight_of-default : (p : Position) (g e : Bool) → weight_of p g e default_weights ≡ weight_scale
weight_of-default guard true true = refl
weight_of-default guard true false = refl
weight_of-default guard false e = refl
weight_of-default middle true true = refl
weight_of-default middle true false = refl
weight_of-default middle false true = refl
weight_of-default middle false false = refl
weight_of-default exit true true = refl
weight_of-default exit true false = refl
weight_of-default exit false true = refl
weight_of-default exit false false = refl

-- Under the default weights every relay with a bandwidth of 32 bits counts, in each position, with its
-- bandwidth alone: the weighted draw is then the unweighted one.
pub weighted_bandwidth-default :
    (r : RouterStatus) (p : Position)
    → r.bandwidth < u32_mod
    → weighted_bandwidth r p default_weights ≡ bandwidth_share r
unfolding weighted_bandwidth weight bandwidth_share
weighted_bandwidth-default r p h = rw (weight_of-default p _ _) (omega arith)

-- The share of a relay with a bandwidth of 32 bits, where its weight does not pass the scale, is at
-- least 1 and at most its unweighted share: a weight only ever takes away.
pub weighted_bandwidth_bounds :
    (r : RouterStatus) (p : Position) (w : BandwidthWeights)
    → r.bandwidth < u32_mod
    → weight p r w ≤ weight_scale
    → (1 ≤ weighted_bandwidth r p w) × (weighted_bandwidth r p w ≤ bandwidth_share r)
unfolding weighted_bandwidth bandwidth_share
weighted_bandwidth_bounds r p w h s =
    let b = max r.bandwidth 1 in
    let scaled : b * weight p r w ≤ b * weight_scale = mul-le-mul_left b s in
    (omega arith, omega (arith, scaled))
