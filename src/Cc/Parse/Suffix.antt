-- ===== src/Cc/Parse/Suffix.antt =====
-- src/tor/cc.rs, `CcParams::parse`: a copy of a parameter for another position is passed over.
use mathlib.Core.List.{reverse-append}
use rust_tor_proxy.Prelude.{
  ◌≡◌, refl, none, some, ◌∷◌, ◌++◌, Text, codes, split_once, split_once-append, strip_suffix,
  strip_suffix-append, strip_prefix, text_eq, arith,
}
use rust_tor_proxy.Cc.Params.{Position, exit, onion, suffix, CcParams}
use rust_tor_proxy.Cc.Parse

-- The position whose copies a circuit at `position` must not read.
abbrev pub other : Position → Position
other exit = onion
other onion = exit

exit_of_onion : (stem : Text) → strip_suffix (codes "_exit") (stem ++ codes "_onion") ≡ none
unfolding strip_suffix strip_prefix
exit_of_onion stem = rw (reverse-append stem (codes "_onion")) refl

strip_exit :
    (stem : Text) → Parse.strip_position (stem ++ codes "_exit") ≡ some (stem, codes "_exit")
unfolding Parse.strip_position
strip_exit stem = ground (arith, strip_suffix-append (codes "_exit") stem)

strip_onion :
    (stem : Text) → Parse.strip_position (stem ++ codes "_onion") ≡ some (stem, codes "_onion")
unfolding Parse.strip_position
strip_onion stem = ground (arith, exit_of_onion stem, strip_suffix-append (codes "_onion") stem)

reduce_key-other :
    (position : Position) (stem : Text)
    → Parse.reduce_key position (stem ++ suffix (other position)) ≡ none
unfolding Parse.reduce_key text_eq
reduce_key-other exit stem = ground (arith, strip_onion stem)
reduce_key-other onion stem = ground (arith, strip_exit stem)

-- A field that names the other position's copy of a parameter changes nothing, whatever its value:
-- an exit circuit never takes an onion service's tuning, nor the other way round.
pub apply_field-other :
    (position : Position) (stem value : Text) (out : CcParams)
    → split_once b'=' (stem ++ suffix (other position)) ≡ none
    → Parse.apply_field position out ((stem ++ suffix (other position)) ++ (b'=' ∷ value)) ≡ out
unfolding Parse.apply_field
apply_field-other position stem value out h = ground (
  arith,
  split_once-append b'=' (stem ++ suffix (other position)) value,
  reduce_key-other position stem,
)

-- The circuit's own copy is read as the plain parameter is.
pub reduce_key-own :
    (position : Position) (stem : Text)
    → Parse.reduce_key position (stem ++ suffix position) ≡ some stem
unfolding Parse.reduce_key text_eq
reduce_key-own exit stem = ground (arith, strip_exit stem)
reduce_key-own onion stem = ground (arith, strip_onion stem)
