-- ===== src/Diff/Parsed.antt =====
-- src/tor/dir/diff.rs, `parse_command`: what a command that is read looks like.
use rust_tor_proxy.Prelude.{
  ℕ, ◌≤◌, ◌≡◌, ◌⊎◌, inl, inr, refl, Option, none, some, Option-cases, List, [], ◌∷◌, reverse,
  length, subst, Text, split_once, Result-cases, ok, arith,
}
use rust_tor_proxy.Diff.{
  Action, delete, change, append, Command, check_range, parse_range, with_action, from_last,
  parse_head, action_of, block_of, read_block, command_from, parse_command, parse_address,
}
use rust_tor_proxy.Diff.Edits.{IsCommand}

-- A range that a command line names.
record IsRange (a : Action) (start end : ℕ) : Type 0 where
  ordered : start ≤ end
  starts : (a ≡ append) ⊎ (1 ≤ start)
  at_line : a ≡ append → end ≡ start

parse_range-append :
    (addresses : Text) (last start end : ℕ)
    → parse_range append addresses last ≡ some (start, end)
    → end ≡ start
unfolding parse_range
parse_range-append addresses last start end h = elim (Option-cases (split_once b',' addresses)) [
  | inl e ↦ elim (Option-cases (parse_address addresses last)) [
    | inl e' ↦ absurd (ground arith)
    | inr (x, e') ↦ ground arith
  ]
  | inr (x, e) ↦ absurd (ground arith)
]

check_range-IsRange :
    (a : Action) (addresses : Text) (last start end : ℕ)
    → check_range a (parse_range a addresses last) ≡ some (start, end)
    → IsRange a start end
check_range-IsRange a addresses last start end h =
    elim (Option-cases (parse_range a addresses last)) [
      | inl e ↦ absurd (ground arith)
      | inr ((s, t), e) ↦ go a s t e h
    ]
  where
    go :
        (a : Action) (s t : ℕ)
        → parse_range a addresses last ≡ some (s, t)
        → check_range a (parse_range a addresses last) ≡ some (start, end)
        → IsRange a start end
    go delete s t e h = record {
      ordered = ground arith;
      starts = inr (ground arith);
      at_line = λ q. absurd (ground arith);
    }
    go change s t e h = record {
      ordered = ground arith;
      starts = inr (ground arith);
      at_line = λ q. absurd (ground arith);
    }
    go append s t e h = record {
      ordered = ground arith;
      starts = inl refl;
      at_line = λ q. ground (arith, parse_range-append addresses last s t e);
    }

parse_head-IsRange :
    (text : Text) (last start end : ℕ) (a : Action)
    → parse_head text last ≡ some (a, start, end)
    → IsRange a start end
unfolding parse_head
parse_head-IsRange text last start end a h = go (reverse text) h
  where
    found :
        (addresses : Text) (o : Option Action)
        → with_action addresses last o ≡ some (a, start, end)
        → IsRange a start end
    found addresses none h = absurd (ground arith)
    found addresses (some b) h =
        elim (Option-cases (check_range b (parse_range b addresses last))) [
          | inl e ↦ absurd (ground arith)
          | inr ((s, t), e) ↦
              let same : a ≡ b = ground arith in
              let s' : s ≡ start = ground arith in
              let t' : t ≡ end = ground arith in
              let r : IsRange b s t = check_range-IsRange b addresses last s t e in
              rw (same, ← s', ← t') r
        ]

    go : (reversed : Text) → from_last reversed last ≡ some (a, start, end) → IsRange a start end
    go [] h = absurd (ground arith)
    go (c ∷ cs) h = found (reverse cs) (action_of c) h

-- A block takes lines off what follows, and ends before it does.
read_block-length :
    (lines block left : List Text)
    → read_block lines ≡ ok (block, left)
    → length left ≤ length lines
unfolding read_block
read_block-length [] block left h = absurd (ground arith)
read_block-length (l ∷ ls) block left h = elim (Result-cases (read_block ls)) [
  | inl (x, e) ↦ ground arith
  | inr ((b, r), e) ↦ ground (arith, read_block-length ls b r e)
]

block_of_lem :
    (a : Action) (rest block left : List Text)
    → block_of a rest ≡ ok (block, left)
    → (length left ≤ length rest) × (a ≡ delete → block ≡ [])
block_of_lem delete rest block left h = (ground arith, λ q. ground arith)
block_of_lem change rest block left h =
    (read_block-length rest block left h, λ q. absurd (ground arith))
block_of_lem append rest block left h =
    (read_block-length rest block left h, λ q. absurd (ground arith))

-- What a command that is read is, and that it leaves no more lines than there were.
pub parse_command-IsCommand :
    (text : Text) (rest left : List Text) (last : ℕ) (c : Command)
    → parse_command text rest last ≡ ok (c, left)
    → IsCommand c × (length left ≤ length rest)
unfolding parse_command
parse_command-IsCommand text rest left last c h = elim (Option-cases (parse_head text last)) [
  | inl e ↦ absurd (ground arith)
  | inr ((a, start, end), e) ↦
      with_block a start end (parse_head-IsRange text last start end a e)
        (subst (λ o. command_from text rest o ≡ ok (c, left)) e h)
]
  where
    with_block :
        (a : Action) (start end : ℕ)
        → IsRange a start end
        → command_from text rest (some (a, start, end)) ≡ ok (c, left)
        → IsCommand c × (length left ≤ length rest)
    with_block a start end r h = elim (Result-cases (block_of a rest)) [
      | inl (x, bad) ↦ absurd (ground arith)
      | inr ((block, after), e) ↦
          let facts = block_of_lem a rest block after e in
          let same : after ≡ left = ground arith in
          let made : record { text = text; start = start; end = end; action = a; insert = block }
              ≡ c =
            ground arith in
          (
            subst IsCommand made (record {
              ordered = r.ordered;
              starts = r.starts;
              at_line = r.at_line;
              no_block = facts.1;
            }),
            rw (← same) facts.0,
          )
    ]
