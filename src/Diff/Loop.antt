-- ===== src/Diff/Loop.antt =====
-- src/tor/dir/diff.rs, the loop of `apply`: it ends, and it edits the base.
use rust_tor_proxy.Prelude.{
  ℕ, zero, suc, ◌-◌, ◌≤◌, ◌≡◌, inl, inr, refl, sym, ap, ap₂, ◌∙◌, List, [], ◌∷◌, ◌++◌, reverse,
  length, take, drop, ltb, if◌then◌else◌, Text, Result, Result-cases, ok, err, Error, invalid_data,
  arith,
}
use rust_tor_proxy.Diff.{Command, parse_command, untouched, run_commands, assembled}
use rust_tor_proxy.Diff.Edits.{edit_all, Reads, none_left, next, assembled-edit, untouched-le}
use rust_tor_proxy.Diff.Parsed.{parse_command-IsCommand}

-- With as much fuel as there are lines the loop reads them all: where it does not fail, it has read
-- commands that go up the document, and what it holds is the base after these edits.
pub run_commands-Reads :
    (fuel : ℕ) (lines rest kept kept' : List Text) (j j' : ℕ)
    → length rest ≤ fuel
    → j ≤ length lines
    → run_commands fuel lines rest kept j ≡ ok (kept', j')
    → (cs : List Command) × Reads (length lines) j rest cs
      × (assembled lines (kept', j') ≡ edit_all cs (assembled lines (kept, j)))
run_commands-Reads fuel lines [] kept kept' j j' f b h =
    let k : kept ≡ kept' = unfold run_commands in ground arith in
    let i : j ≡ j' = unfold run_commands in ground arith in
    ([], none_left, ap₂ (λ a b. assembled lines (a, b)) (sym k) (sym i))
run_commands-Reads zero lines (text ∷ rest) kept kept' j j' f b h = elim f [ ]
run_commands-Reads (suc fuel) lines (text ∷ rest) kept kept' j j' f b h =
    elim (Result-cases (parse_command text rest (length lines))) [
      | inl (x, e) ↦ absurd (unfold run_commands in ground arith)
      | inr ((c, left), e) ↦
          let (i, shorter) = parse_command-IsCommand text rest left (length lines) c e in
          let fits : c.end ≤ j = unfold run_commands in ground arith in
          let kept1 = (kept ++ reverse (take (j - c.end) (drop c.end lines))) ++ reverse c.insert in
          let more : run_commands fuel lines left kept1 (untouched c) ≡ ok (kept', j') =
            unfold run_commands in ground arith in
          let (cs, reads, same) =
            run_commands-Reads fuel lines left kept1 kept' (untouched c) j' (omega arith)
              (omega (arith, untouched-le c i)) more in
          (
            c ∷ cs,
            next e i fits reads,
            same ∙ ap (edit_all cs) (assembled-edit lines kept j c i fits b),
          )
    ]

run_commands-err :
    (fuel : ℕ) (lines rest kept : List Text) (text : Text) (j : ℕ) (x : Error)
    → parse_command text rest (length lines) ≡ err x
    → run_commands (suc fuel) lines (text ∷ rest) kept j ≡ err x
unfolding run_commands
run_commands-err fuel lines rest kept text j x e = rw (run_commands, e) refl

-- One turn of the loop, where the rest of it is `more`.
abbrev turn : List Text → Command → ℕ → Result (List Text × ℕ) → Result (List Text × ℕ)
turn lines c j more =
    if ltb (length lines) c.end
    then err (invalid_data "consensus diff command {:?} runs past the end of a {}-line document")
    else if ltb j c.end
    then err (invalid_data "consensus diff command {:?} is not in descending line order")
    else more

run_commands-turn :
    (fuel : ℕ) (lines rest left kept : List Text) (text : Text) (j : ℕ) (c : Command)
    → parse_command text rest (length lines) ≡ ok (c, left)
    → run_commands (suc fuel) lines (text ∷ rest) kept j
      ≡ turn lines c j (
          run_commands fuel lines left
            ((kept ++ reverse (take (j - c.end) (drop c.end lines))) ++ reverse c.insert)
            (untouched c))
unfolding run_commands
run_commands-turn fuel lines rest left kept text j c e = rw (run_commands, e) refl

-- The loop ends: any fuel that is at least the number of lines left gives the same answer.
pub run_commands-fuel :
    (f g : ℕ) (lines rest kept : List Text) (j : ℕ)
    → length rest ≤ f
    → length rest ≤ g
    → run_commands f lines rest kept j ≡ run_commands g lines rest kept j
run_commands-fuel f g lines [] kept j p q = unfold run_commands in refl
run_commands-fuel zero g lines (t ∷ rest) kept j p q = elim p [ ]
run_commands-fuel (suc f) zero lines (t ∷ rest) kept j p q = elim q [ ]
run_commands-fuel (suc f) (suc g) lines (t ∷ rest) kept j p q =
    elim (Result-cases (parse_command t rest (length lines))) [
      | inl (x, e) ↦
          run_commands-err f lines rest kept t j x e
          ∙ sym (run_commands-err g lines rest kept t j x e)
      | inr ((c, left), e) ↦
          let shorter = (parse_command-IsCommand t rest left (length lines) c e).1 in
          let kept1 = (kept ++ reverse (take (j - c.end) (drop c.end lines))) ++ reverse c.insert in
          run_commands-turn f lines rest left kept t j c e
          ∙ ap (turn lines c j)
              (run_commands-fuel f g lines left kept1 (untouched c) (omega arith) (omega arith))
          ∙ sym (run_commands-turn g lines rest left kept t j c e)
    ]
