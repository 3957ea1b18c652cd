-- ===== src/Diff/Edits.antt =====
-- src/tor/dir/diff.rs, `apply`: assembling the result from the back is the same as editing the document
-- command by command, as ed does.
use rust_tor_proxy.Prelude.{
  ℕ, zero, suc, ◌-◌, ◌≤◌, ◌≡◌, ◌⊎◌, refl, sym, ap, ap₂, ◌∙◌, List, [], ◌∷◌, ◌++◌, reverse,
  reverse-append, reverse-reverse, length, take, drop, Text, ok, arith,
}
use rust_tor_proxy.Diff.{
  Action, delete, change, append, Command, parse_command, untouched, assembled,
}

-- What ed does to a document at one command.
unfoldable pub edit : Command → List Text → List Text
edit c doc = elim c.action [
  | delete ↦ take (c.start - 1) doc ++ drop c.end doc
  | change ↦ take (c.start - 1) doc ++ (c.insert ++ drop c.end doc)
  | append ↦ take c.start doc ++ (c.insert ++ drop c.start doc)
]

-- Commands in order, each on the document that the one before left.
abbrev pub edit_all : List Command → List Text → List Text
edit_all [] doc = doc
edit_all (c ∷ cs) doc = edit_all cs (edit c doc)

-- A command of the limited format.
pub record IsCommand (c : Command) : Type 0 where
  pub ordered : c.start ≤ c.end
  pub starts : (c.action ≡ append) ⊎ (1 ≤ c.start)
  pub at_line : c.action ≡ append → c.end ≡ c.start
  pub no_block : c.action ≡ delete → c.insert ≡ []

pub untouched-le : (c : Command) → IsCommand c → untouched c ≤ c.end
unfolding untouched
untouched-le c i = ground (arith, i.ordered)

splice : ℕ → List Text → ℕ → List Text → List Text
splice cut insert end doc = take cut doc ++ (insert ++ drop end doc)

edit-splice :
    (c : Command) (doc : List Text)
    → IsCommand c
    → edit c doc ≡ splice (untouched c) c.insert c.end doc
unfolding edit splice untouched
edit-splice c doc i = go c.action refl
  where
    go : (a : Action) → c.action ≡ a → edit c doc ≡ splice (untouched c) c.insert c.end doc
    go delete e = rw (e, i.no_block e) refl
    go change e = rw e refl
    go append e = rw (e, i.at_line e) refl

module _ {ℓ} {A : Type ℓ} where
  take-take_append :
      (n m : ℕ) (xs ys : List A) → n ≤ m → m ≤ length xs → take n (take m xs ++ ys) ≡ take n xs
  take-take_append zero m xs ys h k = refl
  take-take_append (suc n) zero xs ys h k = elim h [ ]
  take-take_append (suc n) (suc m) [] ys h k = elim k [ ]
  take-take_append (suc n) (suc m) (x ∷ xs) ys h k =
      ap (λ r. x ∷ r) (take-take_append n m xs ys (omega arith) (omega arith))

  drop-take_append :
      (n m : ℕ) (xs ys : List A)
      → n ≤ m
      → m ≤ length xs
      → drop n (take m xs ++ ys) ≡ take (m - n) (drop n xs) ++ ys
  drop-take_append zero m xs ys h k = let e : m - 0 ≡ m = omega arith in rw e refl
  drop-take_append (suc n) zero xs ys h k = elim h [ ]
  drop-take_append (suc n) (suc m) [] ys h k = elim k [ ]
  drop-take_append (suc n) (suc m) (x ∷ xs) ys h k =
      let e : suc m - suc n ≡ m - n = omega arith in
      rw e (drop-take_append n m xs ys (omega arith) (omega arith))

  reverse_hunk :
      (kept mid insert : List A)
      → reverse ((kept ++ reverse mid) ++ reverse insert) ≡ insert ++ (mid ++ reverse kept)
  reverse_hunk kept mid insert =
      reverse-append (kept ++ reverse mid) (reverse insert)
      ∙ ap₂ (λ a b. a ++ b) (reverse-reverse insert)
          (reverse-append kept (reverse mid) ∙ ap (λ a. a ++ reverse kept) (reverse-reverse mid))

pub assembled-eq :
    (lines kept : List Text) (j : ℕ) → assembled lines (kept, j) ≡ take j lines ++ reverse kept
unfolding assembled
assembled-eq lines kept j =
    reverse-append kept (reverse (take j lines))
    ∙ ap (λ a. a ++ reverse kept) (reverse-reverse (take j lines))

-- One turn of the loop is one edit.
pub assembled-edit :
    (lines kept : List Text) (j : ℕ) (c : Command)
    → IsCommand c
    → c.end ≤ j
    → j ≤ length lines
    → assembled lines
        ((kept ++ reverse (take (j - c.end) (drop c.end lines))) ++ reverse c.insert, untouched c)
      ≡ edit c (assembled lines (kept, j))
unfolding splice
assembled-edit lines kept j c i e h =
    let cut = untouched-le c i in
    let mid = take (j - c.end) (drop c.end lines) in
    assembled-eq lines _ (untouched c)
    ∙ ap₂ (λ a b. a ++ b)
        (sym (take-take_append (untouched c) j lines (reverse kept) (omega (arith, cut)) h))
        (reverse_hunk kept mid c.insert
          ∙ ap (λ r. c.insert ++ r) (sym (drop-take_append c.end j lines (reverse kept) e h)))
    ∙ sym (edit-splice c (take j lines ++ reverse kept) i)
    ∙ ap (edit c) (sym (assembled-eq lines kept j))

-- The lines of a diff read as commands that go up the document: each ends at or above the line where
-- the one before it left the base untouched.
pub data Reads (last : ℕ) : ℕ → List Text → List Command → Type 0 where
  none_left : {j : ℕ} → Reads last j [] []
  next :
      {j : ℕ} {text : Text} {rest left : List Text} {c : Command} {cs : List Command}
      → parse_command text rest last ≡ ok (c, left)
      → IsCommand c
      → c.end ≤ j
      → Reads last (untouched c) left cs
      → Reads last j (text ∷ rest) (c ∷ cs)
