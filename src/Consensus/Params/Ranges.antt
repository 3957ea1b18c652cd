-- ===== src/Consensus/Params/Ranges.antt =====
-- src/tor/dir/consensus.rs, `Params::from_document`: what it accepts stays in the documented ranges.
use rust_tor_proxy.Prelude.{
  ℕ, ◌≤◌, inl, inr, ◌≡◌, Option, none, some, Option-cases, List, [], ◌∷◌, Text, split_once,
  split_whitespace, codes, arith, u8_max, u32_max, u64_max,
}
use rust_tor_proxy.Path.Relay.{BandwidthWeights, weight_scale, default_weights}
use rust_tor_proxy.Cc.Params.{InRange, defaults-InRange, exit, onion}
use rust_tor_proxy.Cc.Parse.{bounded}
use rust_tor_proxy.Cc.Parse.Ranges.{parse-InRange}
use rust_tor_proxy.Netdoc.{item}
use rust_tor_proxy.Consensus.Params
use rust_tor_proxy.Consensus.Params.{WeightKey, ParamKey}

-- No weight passes the scale.
pub record WithinScale (w : BandwidthWeights) : Type 0 where
  pub wgg : w.wgg ≤ weight_scale
  pub wgm : w.wgm ≤ weight_scale
  pub wgd : w.wgd ≤ weight_scale
  pub wmg : w.wmg ≤ weight_scale
  pub wmm : w.wmm ≤ weight_scale
  pub wme : w.wme ≤ weight_scale
  pub wmd : w.wmd ≤ weight_scale
  pub weg : w.weg ≤ weight_scale
  pub wem : w.wem ≤ weight_scale
  pub wee : w.wee ≤ weight_scale
  pub wed : w.wed ≤ weight_scale

-- The ranges of param-spec.
pub record Allowed (p : Params.Params) : Type 0 where
  pub hsdir_interval : (30 ≤ p.hsdir_interval) × (p.hsdir_interval ≤ 14400)
  pub hsdir_n_replicas : (1 ≤ p.hsdir_n_replicas) × (p.hsdir_n_replicas ≤ 16)
  pub hsdir_spread_fetch : (1 ≤ p.hsdir_spread_fetch) × (p.hsdir_spread_fetch ≤ 128)
  pub bandwidth_weights : WithinScale p.bandwidth_weights
  pub cc_exit : InRange p.cc_exit
  pub cc_onion : InRange p.cc_onion

weigh-WithinScale :
    (key : Option WeightKey) (value : Text) (out : BandwidthWeights)
    → WithinScale out
    → WithinScale (Params.weigh key (bounded u32_max value 0 weight_scale) out)
unfolding bounded
weigh-WithinScale none value out h = ground arith
weigh-WithinScale (some _) value out h = ground arith

weight_field-WithinScale :
    (out : BandwidthWeights) (field : Text)
    → WithinScale out
    → WithinScale (Params.weight_field out field)
unfolding Params.weight_field
weight_field-WithinScale out field h = elim (Option-cases (split_once b'=' field)) [
  | inl e ↦ rw (Params.weight_field, e) h
  | inr ((key, value), e) ↦
      rw (Params.weight_field, e) (weigh-WithinScale (Params.weight_key key) value out h)
]

weight_fields-WithinScale :
    (out : BandwidthWeights) (fields : List Text)
    → WithinScale out
    → WithinScale (Params.weight_fields out fields)
weight_fields-WithinScale out [] h = h
weight_fields-WithinScale out (field ∷ rest) h =
    weight_fields-WithinScale (Params.weight_field out field) rest
      (weight_field-WithinScale out field h)

default_weights-WithinScale : WithinScale default_weights
default_weights-WithinScale = ground arith

pub parse_weights-WithinScale : (args : Text) → WithinScale (Params.parse_weights args)
unfolding Params.parse_weights
parse_weights-WithinScale args =
    weight_fields-WithinScale default_weights (split_whitespace args) default_weights-WithinScale

default_params-Allowed : Allowed Params.default_params
default_params-Allowed = record {
  hsdir_interval = ground arith;
  hsdir_n_replicas = ground arith;
  hsdir_spread_fetch = ground arith;
  bandwidth_weights = default_weights-WithinScale;
  cc_exit = defaults-InRange exit;
  cc_onion = defaults-InRange onion;
}

bounded_between :
    (limit low high v : ℕ) (value : Text)
    → bounded limit value low high ≡ some v
    → (low ≤ v) × (v ≤ high)
unfolding bounded
bounded_between limit low high v value h = ground arith

set_param-Allowed :
    (key : Option ParamKey) (value : Text) (out : Params.Params)
    → Allowed out
    → Allowed (Params.set_param key value out)
unfolding Params.set_param
set_param-Allowed none value out h = h
set_param-Allowed (some ParamKey.interval) value out h =
    elim (Option-cases (bounded u64_max value 30 14400)) [
      | inl e ↦ rw e h
      | inr (v, e) ↦ rw e (
          let at = bounded_between u64_max 30 14400 v value e in
          record {
            hsdir_interval = at;
            hsdir_n_replicas = h.hsdir_n_replicas;
            hsdir_spread_fetch = h.hsdir_spread_fetch;
            bandwidth_weights = h.bandwidth_weights;
            cc_exit = h.cc_exit;
            cc_onion = h.cc_onion;
          })
    ]
set_param-Allowed (some ParamKey.n_replicas) value out h =
    elim (Option-cases (bounded u8_max value 1 16)) [
      | inl e ↦ rw e h
      | inr (v, e) ↦ rw e (
          let at = bounded_between u8_max 1 16 v value e in
          record {
            hsdir_interval = h.hsdir_interval;
            hsdir_n_replicas = at;
            hsdir_spread_fetch = h.hsdir_spread_fetch;
            bandwidth_weights = h.bandwidth_weights;
            cc_exit = h.cc_exit;
            cc_onion = h.cc_onion;
          })
    ]
set_param-Allowed (some ParamKey.spread_fetch) value out h =
    elim (Option-cases (bounded u64_max value 1 128)) [
      | inl e ↦ rw e h
      | inr (v, e) ↦ rw e (
          let at = bounded_between u64_max 1 128 v value e in
          record {
            hsdir_interval = h.hsdir_interval;
            hsdir_n_replicas = h.hsdir_n_replicas;
            hsdir_spread_fetch = at;
            bandwidth_weights = h.bandwidth_weights;
            cc_exit = h.cc_exit;
            cc_onion = h.cc_onion;
          })
    ]

param_field-Allowed :
    (out : Params.Params) (field : Text) → Allowed out → Allowed (Params.param_field out field)
unfolding Params.param_field
param_field-Allowed out field h = elim (Option-cases (split_once b'=' field)) [
  | inl e ↦ rw (Params.param_field, e) h
  | inr ((key, value), e) ↦
      rw (Params.param_field, e) (set_param-Allowed (Params.param_key key) value out h)
]

param_fields-Allowed :
    (out : Params.Params) (fields : List Text)
    → Allowed out
    → Allowed (Params.param_fields out fields)
param_fields-Allowed out [] h = h
param_fields-Allowed out (field ∷ rest) h =
    param_fields-Allowed (Params.param_field out field) rest (param_field-Allowed out field h)

from_params_line-Allowed : (line : Option Text) → Allowed (Params.from_params_line line)
unfolding Params.parse_params
from_params_line-Allowed none = default_params-Allowed
from_params_line-Allowed (some args) =
    param_fields-Allowed Params.default_params (split_whitespace args) default_params-Allowed

with_weights-Allowed :
    (line : Option Text) (out : Params.Params)
    → Allowed out
    → Allowed (Params.with_weights line out)
with_weights-Allowed none out h = h
with_weights-Allowed (some args) out h = record {
  hsdir_interval = h.hsdir_interval;
  hsdir_n_replicas = h.hsdir_n_replicas;
  hsdir_spread_fetch = h.hsdir_spread_fetch;
  bandwidth_weights = parse_weights-WithinScale args;
  cc_exit = h.cc_exit;
  cc_onion = h.cc_onion;
}

with_congestion-Allowed :
    (line : Option Text) (out : Params.Params)
    → Allowed out
    → Allowed (Params.with_congestion line out)
with_congestion-Allowed none out h = h
with_congestion-Allowed (some args) out h = record {
  hsdir_interval = h.hsdir_interval;
  hsdir_n_replicas = h.hsdir_n_replicas;
  hsdir_spread_fetch = h.hsdir_spread_fetch;
  bandwidth_weights = h.bandwidth_weights;
  cc_exit = parse-InRange args exit;
  cc_onion = parse-InRange args onion;
}

-- Whatever the document says, each parameter of `from_document` lies in the range that the specification allows:
-- those of the hash ring, every weight (at most the scale), and the congestion parameters of both positions.
pub from_document-Allowed : (text : Text) → Allowed (Params.from_document text)
unfolding Params.from_document
from_document-Allowed text =
    let params = item text (codes "params") in
    with_congestion-Allowed params _ (
      with_weights-Allowed (item text (codes "bandwidth-weights")) _
        (from_params_line-Allowed params))
