-- ===== src/Consensus/Params.antt =====
-- src/tor/dir/consensus.rs, `BandwidthWeights::parse` and `Params`. The keys of a `match` are the constructors of
-- a data type, which `find_key` finds.
pub mod Ranges
use rust_tor_proxy.Prelude.{
  ℕ, Option, none, some, List, [], ◌∷◌, Text, codes, text_eq, find_key, split_once,
  split_whitespace, u8_max, u32_max, u64_max,
}
use rust_tor_proxy.Path.Relay.{BandwidthWeights, default_weights, weight_scale}
use rust_tor_proxy.Cc.Params.{CcParams, defaults, exit, onion}
use rust_tor_proxy.Cc.Parse.{bounded}
use rust_tor_proxy.Cc.Parse
use rust_tor_proxy.Netdoc.{item}

pub data WeightKey : Type 0 where
  wgg wgm wgd wmg wmm wme wmd weg wem wee wed : WeightKey

unfoldable pub weight_key : Text → Option WeightKey
unfolding text_eq
weight_key key =
    find_key
      ((codes "Wgg", wgg)
        ∷ (codes "Wgm", wgm)
        ∷ (codes "Wgd", wgd)
        ∷ (codes "Wmg", wmg)
        ∷ (codes "Wmm", wmm)
        ∷ (codes "Wme", wme)
        ∷ (codes "Wmd", wmd)
        ∷ (codes "Weg", weg)
        ∷ (codes "Wem", wem)
        ∷ (codes "Wee", wee)
        ∷ (codes "Wed", wed)
        ∷ [])
      key

-- One arm of the `match`.
abbrev pub set_weight : Option WeightKey → ℕ → BandwidthWeights → BandwidthWeights
set_weight none v out = out
set_weight (some wgg) v out = record out { wgg = v }
set_weight (some wgm) v out = record out { wgm = v }
set_weight (some wgd) v out = record out { wgd = v }
set_weight (some wmg) v out = record out { wmg = v }
set_weight (some wmm) v out = record out { wmm = v }
set_weight (some wme) v out = record out { wme = v }
set_weight (some wmd) v out = record out { wmd = v }
set_weight (some weg) v out = record out { weg = v }
set_weight (some wem) v out = record out { wem = v }
set_weight (some wee) v out = record out { wee = v }
set_weight (some wed) v out = record out { wed = v }

abbrev pub weigh : Option WeightKey → Option ℕ → BandwidthWeights → BandwidthWeights
weigh key none out = out
weigh key (some weight) out = set_weight key weight out

-- One turn of the loop over the fields; no `u32` is below 0.
unfoldable pub weight_field : BandwidthWeights → Text → BandwidthWeights
unfolding split_once
weight_field out field = elim (split_once b'=' field) [
  | none ↦ out
  | some (key, value) ↦ weigh (weight_key key) (bounded u32_max value 0 weight_scale) out
]

abbrev pub weight_fields : BandwidthWeights → List Text → BandwidthWeights
weight_fields out [] = out
weight_fields out (field ∷ rest) = weight_fields (weight_field out field) rest

-- `BandwidthWeights::parse`
unfoldable pub parse_weights : Text → BandwidthWeights
unfolding split_whitespace
parse_weights args = weight_fields default_weights (split_whitespace args)

pub record Params : Type 0 where
  pub hsdir_interval : ℕ
  pub hsdir_n_replicas : ℕ
  pub hsdir_spread_fetch : ℕ
  pub bandwidth_weights : BandwidthWeights
  pub cc_exit : CcParams
  pub cc_onion : CcParams

-- `Params::default`
abbrev pub default_params : Params
default_params = record {
  hsdir_interval = 1440;
  hsdir_n_replicas = 2;
  hsdir_spread_fetch = 3;
  bandwidth_weights = default_weights;
  cc_exit = defaults exit;
  cc_onion = defaults onion;
}

pub data ParamKey : Type 0 where
  interval n_replicas spread_fetch : ParamKey

unfoldable pub param_key : Text → Option ParamKey
unfolding text_eq
param_key key =
    find_key
      ((codes "hsdir-interval", interval)
        ∷ (codes "hsdir_n_replicas", n_replicas)
        ∷ (codes "hsdir_spread_fetch", spread_fetch)
        ∷ [])
      key

abbrev assign : Option ℕ → Params → (ℕ → Params) → Params
assign none out set = out
assign (some v) out set = set v

-- One arm of the `match`; a `usize` has 64 bits.
unfoldable pub set_param : Option ParamKey → Text → Params → Params
unfolding bounded
set_param none value out = out
set_param (some interval) value out =
    assign (bounded u64_max value 30 14400) out λ v. record out { hsdir_interval = v }
set_param (some n_replicas) value out =
    assign (bounded u8_max value 1 16) out λ v. record out { hsdir_n_replicas = v }
set_param (some spread_fetch) value out =
    assign (bounded u64_max value 1 128) out λ v. record out { hsdir_spread_fetch = v }

-- One turn of the loop over the fields.
unfoldable pub param_field : Params → Text → Params
unfolding split_once
param_field out field = elim (split_once b'=' field) [
  | none ↦ out
  | some (key, value) ↦ set_param (param_key key) value out
]

abbrev pub param_fields : Params → List Text → Params
param_fields out [] = out
param_fields out (field ∷ rest) = param_fields (param_field out field) rest

-- `Params::parse`
unfoldable pub parse_params : Text → Params
unfolding split_whitespace
parse_params args = param_fields default_params (split_whitespace args)

-- The three steps of `from_document`, each on the item that it looks for.
abbrev pub from_params_line : Option Text → Params
from_params_line none = default_params
from_params_line (some args) = parse_params args

abbrev pub with_weights : Option Text → Params → Params
with_weights none out = out
with_weights (some args) out = record out { bandwidth_weights = parse_weights args }

abbrev pub with_congestion : Option Text → Params → Params
with_congestion none out = out
with_congestion (some args) out = record out {
  cc_exit = Parse.parse args exit;
  cc_onion = Parse.parse args onion;
}

-- `Params::from_document`
unfoldable pub from_document : Text → Params
unfolding item
from_document text = with_congestion (item text (codes "params")) (
    with_weights (item text (codes "bandwidth-weights"))
      (from_params_line (item text (codes "params"))))
