-- ===== src/Cc/Parse.antt =====
-- src/tor/cc.rs, `CcParams::parse`, `strip_position`, `bounded`: reading a consensus `params` line.
-- The keys of the source's `match` are the constructors of `Key`, found by `key_of`.
pub mod Ranges
mod Suffix
mod Tests
use rust_tor_proxy.Prelude.{
  ℕ, ◌≤◌, ◌≡◌, Bool, true, false, ◌&&◌, ◌||◌, Option, none, some, List, [], ◌∷◌, leb, ◌==◌,
  if◌then◌else◌, Text, codes, text_eq, find_key, strip_suffix, split_once, split_whitespace,
  parse_uint, u8_max, u32_max,
}
use rust_tor_proxy.Cc.Params.{Position, exit, onion, suffix, CcParams, defaults, int32_max}

pub data Key : Type 0 where
  alg sendme_inc xoff_client cwnd_init cwnd_min cwnd_max cwnd_inc cwnd_inc_rate : Key
  cwnd_inc_pct_ss ewma_cwnd_pct ewma_max ewma_ss rtt_reset_pct : Key
  vegas_alpha vegas_beta vegas_gamma vegas_delta ss_cap ss_max : Key
  cwnd_full_gap cwnd_full_minpct cwnd_full_per_cwnd : Key

abbrev keys : List (Text × Key)
keys =
    (codes "cc_alg", alg)
    ∷ (codes "cc_sendme_inc", sendme_inc)
    ∷ (codes "cc_xoff_client", xoff_client)
    ∷ (codes "cc_cwnd_init", cwnd_init)
    ∷ (codes "cc_cwnd_min", cwnd_min)
    ∷ (codes "cc_cwnd_max", cwnd_max)
    ∷ (codes "cc_cwnd_inc", cwnd_inc)
    ∷ (codes "cc_cwnd_inc_rate", cwnd_inc_rate)
    ∷ (codes "cc_cwnd_inc_pct_ss", cwnd_inc_pct_ss)
    ∷ (codes "cc_ewma_cwnd_pct", ewma_cwnd_pct)
    ∷ (codes "cc_ewma_max", ewma_max)
    ∷ (codes "cc_ewma_ss", ewma_ss)
    ∷ (codes "cc_rtt_reset_pct", rtt_reset_pct)
    ∷ (codes "cc_vegas_alpha", vegas_alpha)
    ∷ (codes "cc_vegas_beta", vegas_beta)
    ∷ (codes "cc_vegas_gamma", vegas_gamma)
    ∷ (codes "cc_vegas_delta", vegas_delta)
    ∷ (codes "cc_sscap", ss_cap)
    ∷ (codes "cc_ss_max", ss_max)
    ∷ (codes "cc_cwnd_full_gap", cwnd_full_gap)
    ∷ (codes "cc_cwnd_full_minpct", cwnd_full_minpct)
    ∷ (codes "cc_cwnd_full_per_cwnd", cwnd_full_per_cwnd)
    ∷ []

pub key_of : Text → Option Key
unfolding text_eq
key_of s = find_key keys s

abbrev keep_if : (ℕ → Bool) → Option ℕ → Option ℕ
keep_if p none = none
keep_if p (some v) = if p v then some v else none

-- `limit` is the largest value of the type that the field has.
unfoldable pub bounded : ℕ → Text → ℕ → ℕ → Option ℕ
unfolding parse_uint
bounded limit value low high = keep_if (λ v. leb low v && leb v high) (parse_uint limit value)

abbrev assign : Option ℕ → CcParams → (ℕ → CcParams) → CcParams
assign none out set = out
assign (some v) out set = set v

-- One arm of the `match`: what the value does to the parameters read so far.
pub set_param : Key → Text → CcParams → CcParams
unfolding bounded
set_param alg value out =
    assign (keep_if (λ v. v == 0 || v == 2) (parse_uint u8_max value)) out
      λ v. record out { alg = v }
set_param sendme_inc value out =
    assign (bounded u8_max value 1 254) out λ v. record out { sendme_inc = v }
set_param xoff_client value out =
    assign (bounded u32_max value 1 10000) out λ v. record out { xoff_client = v }
set_param cwnd_init value out =
    assign (bounded u32_max value 31 10000) out λ v. record out { cwnd_init = v }
set_param cwnd_min value out =
    assign (bounded u32_max value 31 1000) out λ v. record out { cwnd_min = v }
set_param cwnd_max value out =
    assign (bounded u32_max value 500 int32_max) out λ v. record out { cwnd_max = v }
set_param cwnd_inc value out =
    assign (bounded u32_max value 1 1000) out λ v. record out { cwnd_inc = v }
set_param cwnd_inc_rate value out =
    assign (bounded u32_max value 1 250) out λ v. record out { cwnd_inc_rate = v }
set_param cwnd_inc_pct_ss value out =
    assign (bounded u32_max value 1 500) out λ v. record out { cwnd_inc_pct_ss = v }
set_param ewma_cwnd_pct value out =
    assign (bounded u32_max value 1 255) out λ v. record out { ewma_cwnd_pct = v }
set_param ewma_max value out =
    assign (bounded u32_max value 2 int32_max) out λ v. record out { ewma_max = v }
set_param ewma_ss value out =
    assign (bounded u32_max value 2 int32_max) out λ v. record out { ewma_ss = v }
set_param rtt_reset_pct value out =
    assign (bounded u32_max value 0 100) out λ v. record out { rtt_reset_pct = v }
set_param vegas_alpha value out =
    assign (bounded u32_max value 0 1000) out λ v. record out { vegas_alpha = v }
set_param vegas_beta value out =
    assign (bounded u32_max value 0 1000) out λ v. record out { vegas_beta = v }
set_param vegas_gamma value out =
    assign (bounded u32_max value 0 1000) out λ v. record out { vegas_gamma = v }
set_param vegas_delta value out =
    assign (bounded u32_max value 0 int32_max) out λ v. record out { vegas_delta = v }
set_param ss_cap value out =
    assign (bounded u32_max value 100 int32_max) out λ v. record out { ss_cap = v }
set_param ss_max value out =
    assign (bounded u32_max value 500 int32_max) out λ v. record out { ss_max = v }
set_param cwnd_full_gap value out =
    assign (bounded u32_max value 0 32767) out λ v. record out { cwnd_full_gap = v }
set_param cwnd_full_minpct value out =
    assign (bounded u32_max value 0 100) out λ v. record out { cwnd_full_minpct = v }
set_param cwnd_full_per_cwnd value out =
    assign (bounded u32_max value 0 1) out λ v. record out { cwnd_full_per_cwnd = v == 1 }

abbrev with_suffix : Text → Option Text → Option (Text × Text)
with_suffix ending none = none
with_suffix ending (some stem) = some (stem, ending)

abbrev or_else : Option (Text × Text) → Option (Text × Text) → Option (Text × Text)
or_else none other = other
or_else (some found) other = some found

strip_with : Text → Text → Option (Text × Text)
strip_with ending key = with_suffix ending (strip_suffix ending key)

-- The suffixes are tried in the order of the source's array.
pub strip_position : Text → Option (Text × Text)
unfolding strip_with
strip_position key =
    or_else (strip_with (codes "_exit") key)
      (or_else (strip_with (codes "_onion") key) (strip_with (codes "_sbws") key))

-- The name under which a key is looked up: `none` for another position's copy.
pub reduce_key : Position → Text → Option Text
unfolding suffix strip_position
reduce_key position key = elim (strip_position key) [
  | some (stem, ending) ↦ if text_eq ending (suffix position) then some stem else none
  | none ↦ some key
]

pub apply_key : Option Key → Text → CcParams → CcParams
apply_key none value out = out
apply_key (some k) value out = set_param k value out

-- One turn of the loop over the fields.
pub apply_field : Position → CcParams → Text → CcParams
apply_field position out field = elim (split_once b'=' field) [
  | none ↦ out
  | some (key, value) ↦ elim (reduce_key position key) [
    | none ↦ out
    | some name ↦ apply_key (key_of name) value out
  ]
]

pub apply_fields : Position → CcParams → List Text → CcParams
apply_fields position out [] = out
apply_fields position out (field ∷ rest) =
    apply_fields position (apply_field position out field) rest

-- `CcParams::parse`.
pub parse : Text → Position → CcParams
parse args position = apply_fields position (defaults position) (split_whitespace args)
