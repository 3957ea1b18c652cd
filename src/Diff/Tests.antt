-- ===== src/Diff/Tests.antt =====
-- A run of src/tor/dir/diff.rs, and instances of what is proved of it.
use rust_tor_proxy.Prelude.{
  ℕ, ◌≡◌, refl, List, [], ◌∷◌, ◌++◌, length, replicate, Text, codes, ok, arith, strip_prefix,
  strip_suffix, split, split_once, text_eq, starts_with, find, trim_end, skip_whitespace,
  is_whitespace, eq_ignore_ascii_case, is_digit, digits_of, digits_from,
}
use rust_tor_proxy.Encoding.Hex.{hex_encode, hex_decode, hex_pairs, nibble}
use rust_tor_proxy.Netdoc.{item_args, line_start_of}
use rust_tor_proxy.Diff.{
  apply, split_lines, join_lines, run_commands, parse_command, parse_head, parse_range,
  parse_address, read_block, assembled, untouched, parse_hash_line, document_digest,
  signed_part_digest, check_result,
}
use rust_tor_proxy.Diff.Loop.{run_commands-fuel}
use rust_tor_proxy.Diff.Applied.{IsApplied, apply-IsApplied}

-- Some function of a text with 32 bytes.
abbrev digest : Text → List ℕ
digest t = replicate 32 (length t)

abbrev base : Text
base = codes "a\nb\nc\n"

abbrev diff : Text
unfolding hex_encode
diff =
    (codes "network-status-diff-version 1\nhash " ++ hex_encode (digest base))
    ++ ((b' ' ∷ hex_encode (digest base)) ++ codes "\n3d\n1a\nx\n.\n")

apply-diff : apply digest base diff ≡ ok (codes "a\nx\nb\n")
unfolding apply diff split_lines join_lines run_commands parse_command parse_head parse_range
    parse_address read_block assembled untouched parse_hash_line document_digest signed_part_digest
    check_result hex_encode hex_decode hex_pairs nibble item_args line_start_of strip_prefix
    strip_suffix split split_once text_eq starts_with find trim_end skip_whitespace is_whitespace
    eq_ignore_ascii_case is_digit digits_of digits_from
apply-diff = refl

apply-IsApplied_example : IsApplied digest base diff (codes "a\nx\nb\n")
apply-IsApplied_example = apply-IsApplied digest base diff (codes "a\nx\nb\n") apply-diff

abbrev commands : List Text
commands = codes "3d" ∷ codes "1a" ∷ codes "x" ∷ codes "." ∷ []

run_commands-fuel_example :
    run_commands 4 (codes "a" ∷ codes "b" ∷ codes "c" ∷ []) commands [] 3
    ≡ run_commands 9 (codes "a" ∷ codes "b" ∷ codes "c" ∷ []) commands [] 3
run_commands-fuel_example =
    run_commands-fuel 4 9 (codes "a" ∷ codes "b" ∷ codes "c" ∷ []) commands [] 3 (omega arith)
      (omega arith)
