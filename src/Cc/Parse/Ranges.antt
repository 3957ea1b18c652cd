-- ===== src/Cc/Parse/Ranges.antt =====
-- src/tor/cc.rs, `CcParams::parse`: what it accepts stays in the documented ranges.
use rust_tor_proxy.Prelude.{
  inl, inr, Option, none, some, Option-cases, List, [], ◌∷◌, Text, split_once, split_whitespace,
  arith,
}
use rust_tor_proxy.Cc.Params.{Position, CcParams, InRange, defaults-InRange}
use rust_tor_proxy.Cc.Parse
use rust_tor_proxy.Cc.Parse.{Key}

-- One arm of the `match` keeps every field in its range.
set_param-InRange :
    (k : Key) (value : Text) (out : CcParams) → InRange out → InRange (Parse.set_param k value out)
unfolding Parse.set_param
set_param-InRange Key.alg value out h = ground arith
set_param-InRange _ value out h = ground arith

apply_key-InRange :
    (k : Option Key) (value : Text) (out : CcParams)
    → InRange out
    → InRange (Parse.apply_key k value out)
unfolding Parse.apply_key
apply_key-InRange none value out h = h
apply_key-InRange (some k) value out h = set_param-InRange k value out h

apply_field-InRange :
    (position : Position) (out : CcParams) (field : Text)
    → InRange out
    → InRange (Parse.apply_field position out field)
unfolding Parse.apply_field
apply_field-InRange position out field h = elim (Option-cases (split_once b'=' field)) [
  | inl e ↦ rw (Parse.apply_field, e) h
  | inr ((key, value), e) ↦ elim (Option-cases (Parse.reduce_key position key)) [
    | inl e' ↦ rw (Parse.apply_field, e, e') h
    | inr (name, e') ↦
        rw (Parse.apply_field, e, e') (apply_key-InRange (Parse.key_of name) value out h)
  ]
]

apply_fields-InRange :
    (position : Position) (out : CcParams) (fields : List Text)
    → InRange out
    → InRange (Parse.apply_fields position out fields)
unfolding Parse.apply_fields
apply_fields-InRange position out [] h = h
apply_fields-InRange position out (field ∷ rest) h =
    apply_fields-InRange position (Parse.apply_field position out field) rest
      (apply_field-InRange position out field h)

-- Whatever the `params` line of a consensus says, every numeric parameter that `parse` returns lies
-- in the range that proposal 324 allows for it.
pub parse-InRange : (args : Text) (position : Position) → InRange (Parse.parse args position)
unfolding Parse.parse
parse-InRange args position =
    apply_fields-InRange position _ (split_whitespace args) (defaults-InRange position)
