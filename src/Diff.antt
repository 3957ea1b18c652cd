-- ===== src/Diff.antt =====
-- src/tor/dir/diff.rs: application of a consensus diff. `digest` stands for `sha3_256` of the UTF-8
-- bytes of a text. The loop of `apply` runs on fuel, the number of lines that are left.
pub mod Lines
pub mod Edits
pub mod Parsed
pub mod Loop
pub mod Applied
mod Tests
use rust_tor_proxy.Prelude.{
  ℕ, zero, suc, ◌+◌, ◌-◌, Bool, true, false, not, ◌&&◌, ◌||◌, Option, none, some, List, [], ◌∷◌,
  ◌++◌, reverse, length, take, drop, all, ltb, ◌==◌, if◌then◌else◌, u64_max, Text, codes, text_eq,
  strip_prefix, strip_suffix, split, split_once, is_digit, digits_of, eq_ignore_ascii_case, Result,
  ok, err, invalid_data, ◌>>=◌,
}
use rust_tor_proxy.Encoding.Hex.{hex_encode, hex_decode}
use rust_tor_proxy.Netdoc.{item_args, line_start_of}

-- `VERSION_LINE`
abbrev pub version_line : Text
version_line = codes "network-status-diff-version 1"

-- `split_lines`
abbrev split_stripped : Text → Option Text → List Text × Bool
split_stripped text (some body) = (split 10 body, true)
split_stripped [] none = ([], false)
split_stripped (c ∷ cs) none = (split 10 (c ∷ cs), false)

unfoldable pub split_lines : Text → List Text × Bool
split_lines text = split_stripped text (strip_suffix (10 ∷ []) text)

-- The lines with a newline before each but the first.
abbrev pub join_rest : List Text → Text
join_rest [] = []
join_rest (l ∷ ls) = 10 ∷ (l ++ join_rest ls)

-- `join_lines`
unfoldable pub join_lines : List Text → Bool → Text
join_lines [] trailing_newline = []
join_lines (l ∷ ls) trailing_newline =
    (l ++ join_rest ls) ++ (if trailing_newline then 10 ∷ [] else [])

pub data Action : Type 0 where
  delete change append : Action

pub record Command : Type 0 where
  pub text : Text
  pub start : ℕ
  pub end : ℕ
  pub action : Action
  pub insert : List Text

-- `parse_address`
unfoldable pub parse_address : Text → ℕ → Option ℕ
parse_address field last =
    if text_eq field (codes "$")
    then some last
    else if all is_digit field
    then digits_of u64_max field
    else none

abbrev action_of : ℕ → Option Action
action_of c =
    if c == b'd'
    then some delete
    else if c == b'c'
    then some change
    else if c == b'a'
    then some append
    else none

abbrev is_append : Action → Bool
is_append append = true
is_append delete = false
is_append change = false

abbrev is_delete : Action → Bool
is_delete delete = true
is_delete append = false
is_delete change = false

abbrev both : Option ℕ → Option ℕ → Option (ℕ × ℕ)
both (some a) (some b) = some (a, b)
both none b = none
both (some a) none = none

abbrev twice : Option ℕ → Option (ℕ × ℕ)
twice none = none
twice (some a) = some (a, a)

-- The addresses of a command, from its text without the last letter.
unfoldable pub parse_range : Action → Text → ℕ → Option (ℕ × ℕ)
parse_range action addresses last = elim (split_once b',' addresses) [
  | some (first, second) ↦
      if is_append action then none else both (parse_address first last) (parse_address second last)
  | none ↦ twice (parse_address addresses last)
]

abbrev check_range : Action → Option (ℕ × ℕ) → Option (ℕ × ℕ)
check_range action none = none
check_range action (some (start, end)) =
    if ltb end start || (start == 0 && not (is_append action)) then none else some (start, end)

abbrev with_action : Text → ℕ → Option Action → Option (Action × ℕ × ℕ)
with_action addresses last none = none
with_action addresses last (some action) =
    elim (check_range action (parse_range action addresses last)) [
      | none ↦ none
      | some (start, end) ↦ some (action, start, end)
    ]

abbrev from_last : List ℕ → ℕ → Option (Action × ℕ × ℕ)
from_last [] last = none
from_last (c ∷ cs) last = with_action (reverse cs) last (action_of c)

-- The command line itself: its action and its range.
unfoldable pub parse_head : Text → ℕ → Option (Action × ℕ × ℕ)
parse_head text last = from_last (reverse text) last

abbrev is_ascii_whitespace : ℕ → Bool
is_ascii_whitespace c = c == 32 || c == 9 || c == 10 || c == 12 || c == 13

abbrev dotted_blank : Option Text → Bool
dotted_blank none = false
dotted_blank (some []) = false
dotted_blank (some (c ∷ cs)) = all is_ascii_whitespace (c ∷ cs)

-- The block after a command, and the lines behind its terminator.
unfoldable pub read_block : List Text → Result (List Text × List Text)
read_block [] = err (invalid_data "consensus diff block after {text:?} has no \".\" terminator")
read_block (line ∷ rest) =
    let more = read_block rest in
    if text_eq line (codes ".")
    then ok ([], rest)
    else if dotted_blank (strip_prefix (codes ".") line)
    then err (invalid_data "consensus diff inserts a dotted blank line")
    else (do (block, left) ← more; ok (line ∷ block, left))

abbrev block_of : Action → List Text → Result (List Text × List Text)
block_of action rest = if is_delete action then ok ([], rest) else read_block rest

abbrev command_from : Text → List Text → Option (Action × ℕ × ℕ) → Result (Command × List Text)
command_from text rest none = err (invalid_data "unsupported consensus diff command {text:?}")
command_from text rest (some (action, start, end)) = do
  (block, left) ← block_of action rest
  ok (record { text = text; start = start; end = end; action = action; insert = block }, left)

-- `parse_command`, on the line at the cursor and the lines after it.
unfoldable pub parse_command : Text → List Text → ℕ → Result (Command × List Text)
parse_command text rest last = command_from text rest (parse_head text last)

-- How much of the base is still untouched after a command.
unfoldable pub untouched : Command → ℕ
untouched c = elim c.action [ append ↦ c.start | delete ↦ c.start - 1 | change ↦ c.start - 1 ]

-- The loop of `apply`: `kept` is the end of the result, reversed, and `j` counts the lines of the base
-- that are still untouched.
unfoldable pub run_commands : ℕ → List Text → List Text → List Text → ℕ → Result (List Text × ℕ)
run_commands fuel lines [] kept j = ok (kept, j)
run_commands zero lines (text ∷ rest) kept j = ok (kept, j)
run_commands (suc fuel) lines (text ∷ rest) kept j = elim (parse_command text rest (length lines)) [
  | err e ↦ err e
  | ok (c, left) ↦
      let more =
        run_commands fuel lines left
          ((kept ++ reverse (take (j - c.end) (drop c.end lines))) ++ reverse c.insert)
          (untouched c) in
      if ltb (length lines) c.end
      then err (invalid_data "consensus diff command {:?} runs past the end of a {}-line document")
      else if ltb j c.end
      then err (invalid_data "consensus diff command {:?} is not in descending line order")
      else more
]

-- What the loop leaves, in order.
unfoldable pub assembled : List Text → List Text × ℕ → List Text
assembled lines (kept, j) = reverse (kept ++ reverse (take j lines))

abbrev is_digest : Text → Bool
is_digest t = elim (hex_decode t) [ ok bytes ↦ length bytes == 32 | err e ↦ false ]

abbrev two_digests : List Text → Result (Text × Text)
two_digests (from ∷ to ∷ []) =
    if is_digest from && is_digest to
    then ok (from, to)
    else err (invalid_data "consensus diff has a bad hash line {line:?}")
two_digests fields = err (invalid_data "consensus diff has a bad hash line {line:?}")

abbrev hash_fields : Option Text → Result (Text × Text)
hash_fields none = err (invalid_data "consensus diff has a bad hash line {line:?}")
hash_fields (some args) = two_digests (split b' ' args)

-- `parse_hash_line`
unfoldable pub parse_hash_line : Text → Result (Text × Text)
parse_hash_line line = hash_fields (item_args line (codes "hash"))

abbrev signed_end : Text → Option ℕ → ℕ
signed_end text none = length text
signed_end text (some start) = start + length (codes "directory-signature ")

module _ (digest : Text → List ℕ) where
  -- `document_digest`
  unfoldable pub document_digest : Text → Text
  document_digest text = hex_encode (digest text)

  -- `signed_part_digest`, with `consensus::signed_length`
  unfoldable pub signed_part_digest : Text → Text
  signed_part_digest text =
      hex_encode
        (digest (take (signed_end text (line_start_of text (codes "directory-signature "))) text))

  -- The end of `apply`: the document, if it is the one that was promised.
  unfoldable pub check_result : Text → Text → Result Text
  check_result to result =
      if eq_ignore_ascii_case to (document_digest result)
      then ok result
      else err (invalid_data "consensus diff promised {to} but produced {digest}")

  abbrev apply_lines : Text → List Text × Bool → Text → List Text → Result Text
  apply_lines to (lines, newline) base commands = do
    state ← run_commands (length commands) lines commands [] (length lines)
    check_result to (join_lines (assembled lines state) newline)

  abbrev apply_after : Text → List Text → Result Text
  apply_after base [] = err (invalid_data "consensus diff ends after its header")
  apply_after base (hash_line ∷ commands) = do
    (from, to) ← parse_hash_line hash_line
    if eq_ignore_ascii_case from (signed_part_digest base)
        then apply_lines to (split_lines base) base commands
        else err (invalid_data "consensus diff is from {from}, but our consensus is {ours}")

  abbrev apply_to : Text → List Text → Result Text
  apply_to base [] = err (invalid_data "not a consensus diff: no version 1 header")
  apply_to base (header ∷ rest) =
      if text_eq header version_line
      then apply_after base rest
      else err (invalid_data "not a consensus diff: no version 1 header")

  -- `apply`
  unfoldable pub apply : Text → Text → Result Text
  apply base diff = apply_to base (split_lines diff).0
