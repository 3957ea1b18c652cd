-- ===== src/Prelude/Str.antt =====
-- `str` as the list of its code points, with the operations of the standard library that the
-- program calls: `split`, `split_once`, `split_whitespace`, `strip_suffix` and `parse`.
use Prim.Native.Nat.{ℕ, ◌+◌, ◌-◌, ◌*◌, ◌≤◌}
use Prim.Native.Char.{code}
use Prim.Native.String.{String}
use mathlib.Core.Path.{◌≡◌, refl, ap}
use mathlib.Core.Bool.{Bool, true, false, ◌&&◌, ◌||◌}
use mathlib.Core.Option.{Option, none, some}
use mathlib.Core.List.{List, [], ◌∷◌, ◌++◌, reverse, reverse-append, reverse-reverse}
use native.Mathlib.Omega.{arith}
use rust_tor_proxy.Prelude.Tests.{leb, ◌==◌, if◌then◌else◌}

abbrev pub Text : Type 0
Text = List ℕ

-- A literal of the source.
abbrev pub codes : String → Text
codes String.[] = []
codes (String.◌∷◌ c s) = code c ∷ codes s

unfoldable pub text_eq : Text → Text → Bool
text_eq [] [] = true
text_eq [] (y ∷ ys) = false
text_eq (x ∷ xs) [] = false
text_eq (x ∷ xs) (y ∷ ys) = x == y && text_eq xs ys

unfoldable pub strip_prefix : Text → Text → Option Text
strip_prefix [] s = some s
strip_prefix (p ∷ ps) [] = none
strip_prefix (p ∷ ps) (c ∷ cs) = if p == c then strip_prefix ps cs else none

abbrev pub map_reverse : Option Text → Option Text
map_reverse none = none
map_reverse (some s) = some (reverse s)

unfoldable pub strip_suffix : Text → Text → Option Text
unfolding strip_prefix
strip_suffix suffix s = map_reverse (strip_prefix (reverse suffix) (reverse s))

abbrev pub push_first : ℕ → Option (Text × Text) → Option (Text × Text)
push_first c none = none
push_first c (some (a, b)) = some (c ∷ a, b)

-- `s.split_once(sep)`: the text before and after the first `sep`.
unfoldable pub split_once : ℕ → Text → Option (Text × Text)
split_once sep [] = none
split_once sep (c ∷ cs) = if c == sep then some ([], cs) else push_first c (split_once sep cs)

abbrev pub push_field : ℕ → List Text → List Text
push_field c [] = (c ∷ []) ∷ []
push_field c (f ∷ fs) = (c ∷ f) ∷ fs

-- `s.split(sep)`: always at least one field.
unfoldable pub split : ℕ → Text → List Text
split sep [] = [] ∷ []
split sep (c ∷ cs) = let rest = split sep cs in if c == sep then [] ∷ rest else push_field c rest

-- `char::is_whitespace`, the property White_Space of Unicode.
unfoldable pub is_whitespace : ℕ → Bool
is_whitespace c =
    (leb 9 c && leb c 13)
    || c == 32
    || c == 0x85
    || c == 0xa0
    || c == 0x1680
    || (leb 0x2000 c && leb c 0x200a)
    || c == 0x2028
    || c == 0x2029
    || c == 0x202f
    || c == 0x205f
    || c == 0x3000

-- Closes the field that is being read, unless it is empty.
abbrev flush : Text → List Text → List Text
flush [] fs = fs
flush (c ∷ cs) fs = reverse (c ∷ cs) ∷ fs

fields_from : Text → Text → List Text
fields_from word [] = flush word []
fields_from word (c ∷ cs) =
    let here = flush word (fields_from [] cs) in
    let more = fields_from (c ∷ word) cs in if is_whitespace c then here else more

-- `s.split_whitespace()`: no field is empty.
unfoldable pub split_whitespace : Text → List Text
unfolding fields_from is_whitespace
split_whitespace s = fields_from [] s

unfoldable pub is_digit : ℕ → Bool
is_digit c = leb b'0' c && leb c b'9'

-- A `match` on the literals of a table: the first that is the text.
abbrev pub find_key {ℓ} : {A : Type ℓ} → List (Text × A) → Text → Option A
find_key [] s = none
find_key ((name, k) ∷ rest) s = if text_eq name s then some k else find_key rest s

-- The value of the digits read so far, `none` on a character that is no digit or past `limit`.
unfoldable pub digits_from : ℕ → ℕ → Text → Option ℕ
unfolding is_digit
digits_from limit acc [] = some acc
digits_from limit acc (c ∷ cs) =
    let acc' = acc * 10 + (c - b'0') in
    let rest = digits_from limit acc' cs in if is_digit c && leb acc' limit then rest else none

unfoldable pub digits_of : ℕ → Text → Option ℕ
unfolding digits_from
digits_of limit [] = none
digits_of limit (c ∷ cs) = digits_from limit 0 (c ∷ cs)

-- `s.parse()` at an unsigned type whose largest value is `limit`: a leading `+` is taken.
unfoldable pub parse_uint : ℕ → Text → Option ℕ
unfolding digits_of
parse_uint limit [] = none
parse_uint limit (c ∷ cs) = if c == b'+' then digits_of limit cs else digits_of limit (c ∷ cs)

pub digits_from_le :
    (limit acc : ℕ) (s : Text) {v : ℕ} → acc ≤ limit → digits_from limit acc s ≡ some v → v ≤ limit
unfolding digits_from
digits_from_le limit acc [] h e = ground arith
digits_from_le limit acc (c ∷ cs) {v} h e =
    ground (arith, digits_from_le limit (acc * 10 + (c - b'0')) cs {v = v})

-- A number that was read fits the type it was read at.
pub parse_uint_le : (limit : ℕ) (s : Text) {v : ℕ} → parse_uint limit s ≡ some v → v ≤ limit
unfolding parse_uint digits_of
parse_uint_le limit [] e = ground arith
parse_uint_le limit (c ∷ []) {v} e = ground (arith, digits_from_le limit 0 (c ∷ []) {v = v})
parse_uint_le limit (c ∷ d ∷ s) {v} e =
    ground
      (arith, digits_from_le limit 0 (c ∷ d ∷ s) {v = v}, digits_from_le limit 0 (d ∷ s) {v = v})

pub strip_prefix-append : (p s : Text) → strip_prefix p (p ++ s) ≡ some s
unfolding strip_prefix
strip_prefix-append [] s = refl
strip_prefix-append (x ∷ p) s = ground (arith, strip_prefix-append p s)

-- A text that ends in the suffix loses it.
pub strip_suffix-append : (suffix s : Text) → strip_suffix suffix (s ++ suffix) ≡ some s
unfolding strip_suffix
strip_suffix-append suffix s =
    rw (reverse-append s suffix)
      (rw (strip_prefix-append (reverse suffix) (reverse s)) (ap some (reverse-reverse s)))

-- The first separator of a text is the one after a field that has none.
pub split_once-append :
    (sep : ℕ) (a b : Text) → split_once sep a ≡ none → split_once sep (a ++ (sep ∷ b)) ≡ some (a, b)
unfolding split_once
split_once-append sep [] b h = ground arith
split_once-append sep (c ∷ a) b h = ground (arith, split_once-append sep a b)
