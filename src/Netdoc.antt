-- ===== src/Netdoc.antt =====
-- src/tor/dir/netdoc.rs: items of a directory document. An offset counts characters where the source
-- counts bytes: it is only used to cut the text that it was found in.
pub mod Prefix
use rust_tor_proxy.Prelude.{
  ℕ, ◌+◌, ◌*◌, Option, none, some, List, [], ◌∷◌, ◌++◌, take, drop, length, ◌==◌, if◌then◌else◌,
  Text, codes, strip_prefix, starts_with, find, trim_end, lines, Result, ok, err, invalid_data,
  ◌>>=◌,
}
use rust_tor_proxy.Encoding.Base64.{base64_decode}

abbrev first_some {ℓ} : {A : Type ℓ} → Option A → Option A → Option A
first_some none later = later
first_some (some a) later = some a

abbrev after_keyword : Option Text → Option Text
after_keyword none = none
after_keyword (some []) = some []
after_keyword (some (c ∷ cs)) = if c == b' ' then some (trim_end cs) else none

-- `item_args`
unfoldable pub item_args : Text → Text → Option Text
unfolding strip_prefix
item_args line keyword = after_keyword (strip_prefix keyword line)

abbrev item_in : Text → List Text → Option Text
item_in keyword [] = none
item_in keyword (l ∷ ls) = first_some (item_args l keyword) (item_in keyword ls)

-- `item`
unfoldable pub item : Text → Text → Option Text
item text keyword = item_in keyword (lines text)

abbrev past_newline : Option ℕ → Option ℕ
past_newline none = none
past_newline (some i) = some (i + 1)

-- `line_start_of`
unfoldable pub line_start_of : Text → Text → Option ℕ
unfolding starts_with find
line_start_of text keyword =
    if starts_with keyword text then some 0 else past_newline (find (10 ∷ keyword) text)

abbrev line_end_from : Text → Option ℕ → Option ℕ
line_end_from text none = none
line_end_from text (some start) = elim (find (10 ∷ []) (drop start text)) [
  | none ↦ none
  | some newline ↦ some (start + newline + 1)
]

-- `line_end_after`
unfoldable pub line_end_after : Text → Text → Option ℕ
unfolding line_start_of
line_end_after text keyword = line_end_from text (line_start_of text keyword)

abbrev pub begin_line : Text → Text
begin_line label = codes "-----BEGIN " ++ (label ++ codes "-----")

abbrev pub end_line : Text → Text
end_line label = codes "-----END " ++ (label ++ codes "-----")

abbrev pub object_until : Text → Option ℕ → Result (List ℕ)
object_until rest none = err (invalid_data "missing {end}")
object_until rest (some stop) = base64_decode (take stop rest)

abbrev object_from : Text → Text → Option ℕ → Result (List ℕ)
object_from text label none = err (invalid_data "missing {begin}")
object_from text label (some i) =
    let rest = drop (i + length (begin_line label)) text in
    object_until rest (find (end_line label) rest)

-- `object`
unfoldable pub object : Text → Text → Result (List ℕ)
unfolding find
object text label = object_from text label (find (begin_line label) text)

abbrev object_at : Text → Text → Option ℕ → Result (List ℕ)
object_at text label none = err (invalid_data "document has no {keyword}")
object_at text label (some start) =
    if starts_with (begin_line label) (drop start text)
    then object (drop start text) label
    else err (invalid_data "{keyword} is not followed by a {label}")

-- `item_object`
unfoldable pub item_object : Text → Text → Text → Result (List ℕ)
unfolding line_end_after
item_object text keyword label = object_at text label (line_end_after text keyword)

-- `base64_fixed`
unfoldable pub base64_fixed : ℕ → Text → Result (List ℕ)
base64_fixed n value = do
  bytes ← base64_decode value
  if length bytes == n then ok bytes else err (invalid_data "expected {N} bytes of base64")

-- An array of bytes as one number, for the identities and digests that the code only compares.
abbrev pub number_from : ℕ → List ℕ → ℕ
number_from acc [] = acc
number_from acc (b ∷ bytes) = number_from (acc * 256 + b) bytes
