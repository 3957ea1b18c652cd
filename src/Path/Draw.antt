-- ===== src/Path/Draw.antt =====
-- src/tor/path.rs: who may stand where in a path, and the draws in proportion to bandwidth.
-- `rand::below` is a parameter. `Position` and `weight` are those of this file, not of src/tor/cc.rs.
use rust_tor_proxy.Prelude.{
  ℕ, zero, suc, ◌+◌, ◌-◌, ◌*◌, ◌/◌, ◌%◌, max, Bool, true, false, not, ◌&&◌, none, List, [], ◌∷◌,
  retain, ltb, ◌==◌, if◌then◌else◌, Result, ok, err, invalid_data, ◌>>=◌, u64_mod,
}
use rust_tor_proxy.Path.Relay.{
  RouterStatus, has, BandwidthWeights, weight_scale, flag_bad_exit, flag_exit, flag_fast,
  flag_guard, flag_middle_only, flag_running, flag_stable, flag_valid,
}
use rust_tor_proxy.Path.Constraints.{PathConstraints, accepts}

-- A disjunction of flags that share no bit is their sum.
abbrev pub usable_flags : ℕ
usable_flags = flag_running + flag_valid

abbrev pub guard_flags : ℕ
guard_flags = usable_flags + flag_guard + flag_stable + flag_fast

pub data Position : Type 0 where
  guard middle exit : Position

-- The table of `weight`, from whether the relay is a guard and whether it is an exit.
abbrev pub weight_of : Position → Bool → Bool → BandwidthWeights → ℕ
weight_of guard true true w = w.wgd
weight_of guard true false w = w.wgg
weight_of guard false e w = w.wgm
weight_of middle true true w = w.wmd
weight_of middle true false w = w.wmg
weight_of middle false true w = w.wme
weight_of middle false false w = w.wmm
weight_of exit true true w = w.wed
weight_of exit true false w = w.weg
weight_of exit false true w = w.wee
weight_of exit false false w = w.wem

-- `Position::weight`
unfoldable pub weight : Position → RouterStatus → BandwidthWeights → ℕ
weight p r w = weight_of p (has r flag_guard) (has r flag_exit) w

-- `bandwidth_share`
unfoldable pub bandwidth_share : RouterStatus → ℕ
bandwidth_share r = max r.bandwidth 1

-- `weighted_bandwidth`
unfoldable pub weighted_bandwidth : RouterStatus → Position → BandwidthWeights → ℕ
weighted_bandwidth r p w = max (bandwidth_share r * weight p r w % u64_mod / weight_scale) 1

-- `candidates.iter().map(weight).sum()`; the sum is a `u64`, and wraps.
unfoldable pub total_weight : (RouterStatus → ℕ) → List RouterStatus → ℕ
total_weight share [] = 0
total_weight share (r ∷ rs) = (share r + total_weight share rs) % u64_mod

-- The loop of `choose`; a pick that passes every relay takes the last.
unfoldable pub walk : (RouterStatus → ℕ) → ℕ → RouterStatus → List RouterStatus → RouterStatus
walk share pick last [] = last
walk share pick last (r ∷ rs) = if ltb pick (share r) then r else walk share (pick - share r) r rs

-- `choose`
unfoldable pub choose :
    (ℕ → Result ℕ) → (RouterStatus → ℕ) → List RouterStatus → Result RouterStatus
choose below share [] = err (invalid_data "no relay matches the required flags")
choose below share (r ∷ rs) = do
  pick ← below (total_weight share (r ∷ rs))
  ok (walk share pick r (r ∷ rs))

-- `weighted_choice_at`
unfoldable pub weighted_choice_at :
    (ℕ → Result ℕ) → List RouterStatus → Position → BandwidthWeights → Result RouterStatus
weighted_choice_at below candidates p w = choose below (λ r. weighted_bandwidth r p w) candidates

-- `guard_candidates`
unfoldable pub guard_candidates : List RouterStatus → List RouterStatus
guard_candidates = retain (λ r. has r guard_flags && not (has r flag_middle_only))

-- `exit_candidates`
unfoldable pub exit_candidates : List RouterStatus → PathConstraints → List RouterStatus
exit_candidates routers c =
    retain
      (λ r.
        has r (usable_flags + flag_exit + flag_fast)
        && not (has r flag_bad_exit)
        && not (has r flag_middle_only)
        && accepts c r none)
      routers

-- `rendezvous_candidates`
unfoldable pub rendezvous_candidates : List RouterStatus → PathConstraints → List RouterStatus
rendezvous_candidates routers c =
    retain (λ r. has r (usable_flags + flag_fast + flag_stable) && accepts c r none) routers

-- `middle_candidates`
unfoldable pub middle_candidates : List RouterStatus → PathConstraints → List RouterStatus
middle_candidates routers c =
    retain (λ r. has r (usable_flags + flag_fast) && accepts c r none) routers

-- The loop of `sample_with`. The draws are numbered, and `below turn` is the generator at that draw.
unfoldable pub sample_with :
    (ℕ → ℕ → Result ℕ) → ℕ → List RouterStatus → ℕ → (RouterStatus → ℕ) → Result (List RouterStatus)
sample_with below turn pool zero share = ok []
sample_with below turn [] (suc count) share = ok []
sample_with below turn (r ∷ rs) (suc count) share = do
  chosen ← choose (below turn) share (r ∷ rs)
  others ←
      sample_with below (suc turn) (retain (λ s. not (s.identity == chosen.identity)) (r ∷ rs))
        count share
  ok (chosen ∷ others)

-- `sample_at`
unfoldable pub sample_at :
    (ℕ → ℕ → Result ℕ)
    → List RouterStatus
    → ℕ
    → Position
    → BandwidthWeights
    → Result (List RouterStatus)
sample_at below candidates count p w =
    sample_with below 0 candidates count (λ r. weighted_bandwidth r p w)
