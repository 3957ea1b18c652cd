-- ===== src/Consensus/Signatures/Blocks.antt =====
-- src/tor/dir/consensus.rs, `signatures`: the loop ends, so that the fuel does not matter.
use rust_tor_proxy.Prelude.{
  ℕ, zero, suc, ◌+◌, ◌<◌, ◌≤◌, ◌≡◌, ap, subst, arith, Bool, true, false, Option, none, some,
  Option-cases, inl, inr, [], ◌∷◌, length, length-drop, drop, Text, split_once, push_first,
  Bool-cases, find, ◌==◌,
}
use rust_tor_proxy.Netdoc.{line_start_of}
use rust_tor_proxy.Consensus.Signatures.{
  Signature, keyword, end_marker, end_of, past_keyword, block_of, end_block, split_block,
  push_signature, signature_blocks,
}

-- What a turn leaves is shorter than the text it began with.
abbrev Leaves : ℕ → Option (Option Signature × Text) → Type 0
Leaves n none = Unit
Leaves n (some (signature, rest)) = length rest < n

abbrev Follows : ℕ → Option (Text × Text) → Type 0
Follows n none = Unit
Follows n (some (args, body)) = length body < n

push_first-Follows :
    (c n : ℕ) (o : Option (Text × Text)) → Follows n o → Follows (suc n) (push_first c o)
push_first-Follows c n none h = tt
push_first-Follows c n (some (a, b)) h = omega arith

split_once-Follows : (s : Text) → Follows (length s) (split_once 10 s)
unfolding split_once
split_once-Follows [] = tt
split_once-Follows (c ∷ s) = elim (Bool-cases (c == 10)) [
  | inl e ↦ rw e (omega arith)
  | inr e ↦ rw e (push_first-Follows c (length s) (split_once 10 s) (split_once-Follows s))
]

Follows-le : (m n : ℕ) (o : Option (Text × Text)) → m ≤ n → Follows m o → Follows n o
Follows-le m n none le h = tt
Follows-le m n (some (args, body)) le h = omega arith

past_keyword-Follows :
    (rest : Text) (start : Option ℕ) → Follows (length rest) (past_keyword rest start)
past_keyword-Follows rest none = tt
past_keyword-Follows rest (some start) =
    let n = start + length keyword in
    let shorter = length-drop n rest in
    Follows-le (length (drop n rest)) (length rest) _ (omega arith)
      (split_once-Follows (drop n rest))

block_of-Follows : (first : Bool) (rest : Text) → Follows (length rest) (block_of first rest)
unfolding block_of
block_of-Follows true rest = split_once-Follows rest
block_of-Follows false rest = past_keyword-Follows rest (line_start_of rest keyword)

end_block-Leaves :
    (args body : Text) (n : ℕ) (stop : Option ℕ)
    → length body < n
    → Leaves n (end_block args body stop)
end_block-Leaves args body n none h = tt
end_block-Leaves args body n (some stop) h = let shorter = length-drop stop body in omega arith

split_block-Leaves :
    (n : ℕ) (block : Option (Text × Text)) → Follows n block → Leaves n (split_block block)
split_block-Leaves n none h = tt
split_block-Leaves n (some (args, body)) h =
    end_block-Leaves args body n (end_of (find end_marker body)) h

-- The blocks of a text do not depend on the fuel, where it exceeds the text's length: the loop ends by itself.
pub signature_blocks-fuel :
    (fuel other : ℕ) (first : Bool) (rest : Text)
    → length rest < fuel
    → length rest < other
    → signature_blocks fuel first rest ≡ signature_blocks other first rest
unfolding signature_blocks
signature_blocks-fuel zero other first rest h h' = absurd (ground arith)
signature_blocks-fuel (suc fuel) zero first rest h h' = absurd (ground arith)
signature_blocks-fuel (suc fuel) (suc other) first rest h h' =
    let left =
      split_block-Leaves (length rest) (block_of first rest) (block_of-Follows first rest) in
    elim (Option-cases (split_block (block_of first rest))) [
      | inl e ↦ rw (signature_blocks, e)
      | inr ((signature, rest'), e) ↦
          let shorter : length rest' < length rest = subst (Leaves (length rest)) e left in
          rw (signature_blocks, e)
            (ap (λ out. push_signature signature out)
              (signature_blocks-fuel fuel other false rest' (omega arith) (omega arith)))
    ]
