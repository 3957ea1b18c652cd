-- ===== src/Netdoc/Prefix.antt =====
-- src/tor/dir/netdoc.rs, `line_start_of` and `object` on a text that goes on: what the first part of a
-- document holds is also what the whole document is read as.
use rust_tor_proxy.Prelude.{
  ℕ, zero, suc, ◌+◌, ◌≤◌, ◌≡◌, refl, ap, arith, true, false, Bool-cases, inl, inr, some,
  Option-cases, List, [], ◌∷◌, ◌++◌, length, take, drop, Text, starts_with, find, ok,
}
use rust_tor_proxy.Netdoc.{line_start_of, object, begin_line, end_line, object_until}

starts_with-append : (p s t : Text) → starts_with p s ≡ true → starts_with p (s ++ t) ≡ true
unfolding starts_with
starts_with-append [] s t h = refl
starts_with-append (x ∷ p) [] t h = absurd (ground arith)
starts_with-append (x ∷ p) (c ∷ s) t h = ground (arith, starts_with-append p s t)

starts_with-length : (p s : Text) → starts_with p s ≡ true → length p ≤ length s
unfolding starts_with
starts_with-length [] s h = omega arith
starts_with-length (x ∷ p) [] h = absurd (ground arith)
starts_with-length (x ∷ p) (c ∷ s) h = ground (arith, starts_with-length p s)

-- A text that is as long as the pattern decides it.
starts_with-decided :
    (p s t : Text) → length p ≤ length s → starts_with p s ≡ false → starts_with p (s ++ t) ≡ false
unfolding starts_with
starts_with-decided [] s t l h = h
starts_with-decided (x ∷ p) [] t l h = absurd (omega arith)
starts_with-decided (x ∷ p) (c ∷ s) t l h = ground (arith, starts_with-decided p s t)

find-bound : (p s : Text) (i : ℕ) → find p s ≡ some i → i + length p ≤ length s
unfolding find
find-bound p [] i h = ground (arith, starts_with-length p [])
find-bound p (c ∷ s) i h = elim (Option-cases (find p s)) [
  | inl nowhere ↦ ground (arith, starts_with-length p (c ∷ s))
  | inr (j, at) ↦ ground (arith, starts_with-length p (c ∷ s), find-bound p s j at)
]

find-append : (p s t : Text) (i : ℕ) → find p s ≡ some i → find p (s ++ t) ≡ some i
unfolding find
find-append p [] [] i h = h
find-append p [] (c ∷ t) i h = ground (arith, starts_with-append p [] (c ∷ t))
find-append p (c ∷ s) t i h = elim (Bool-cases (starts_with p (c ∷ s))) [
  | inl e ↦ rw (find, starts_with-append p (c ∷ s) t e) (ground arith)
  | inr e ↦ elim (Option-cases (find p s)) [
    | inl none_later ↦ absurd (ground arith)
    | inr (j, later) ↦
        let room = find-bound p s j later in
        rw (find, starts_with-decided p (c ∷ s) t (omega arith) e, find-append p s t j later)
          (ground arith)
  ]
]

drop-append : (n : ℕ) (s t : Text) → n ≤ length s → drop n (s ++ t) ≡ drop n s ++ t
drop-append zero s t h = refl
drop-append (suc n) [] t h = absurd (omega arith)
drop-append (suc n) (c ∷ s) t h = drop-append n s t (omega arith)

take-append : (n : ℕ) (s t : Text) → n ≤ length s → take n (s ++ t) ≡ take n s
take-append zero s t h = refl
take-append (suc n) [] t h = absurd (omega arith)
take-append (suc n) (c ∷ s) t h = ap (λ r. c ∷ r) (take-append n s t (omega arith))

pub line_start_of-bound :
    (text keyword : Text) (i : ℕ) → line_start_of text keyword ≡ some i → i ≤ length text
unfolding line_start_of
line_start_of-bound text keyword i h = elim (Option-cases (find (10 ∷ keyword) text)) [
  | inl nowhere ↦ ground arith
  | inr (j, at) ↦ ground (arith, find-bound (10 ∷ keyword) text j at)
]

-- A line that starts in the first part of a document is the first such line of the whole.
pub line_start_of-append :
    (text keyword more : Text) (i : ℕ)
    → line_start_of text keyword ≡ some i
    → line_start_of (text ++ more) keyword ≡ some i
unfolding line_start_of
line_start_of-append text keyword more i h = elim (Bool-cases (starts_with keyword text)) [
  | inl e ↦ rw (line_start_of, starts_with-append keyword text more e) (ground arith)
  | inr e ↦ elim (Option-cases (find (10 ∷ keyword) text)) [
    | inl nowhere ↦ absurd (ground arith)
    | inr (j, at) ↦
        let room = find-bound (10 ∷ keyword) text j at in
        rw
          (
            line_start_of,
            starts_with-decided keyword text more (omega arith) e,
            find-append (10 ∷ keyword) text more j at,
          )
          (ground arith)
  ]
]

object_until-append :
    (rest more label : Text) (bytes : List ℕ)
    → object_until rest (find (end_line label) rest) ≡ ok bytes
    → object_until (rest ++ more) (find (end_line label) (rest ++ more)) ≡ ok bytes
object_until-append rest more label bytes h = elim (Option-cases (find (end_line label) rest)) [
  | inl nowhere ↦ absurd (ground arith)
  | inr (stop, at) ↦
      let room = find-bound (end_line label) rest stop at in
      rw (find-append (end_line label) rest more stop at, take-append stop rest more (omega arith))
        (ground arith)
]

-- An object in the first part of a document is the first such object of the whole.
pub object-append :
    (text more label : Text) (bytes : List ℕ)
    → object text label ≡ ok bytes
    → object (text ++ more) label ≡ ok bytes
unfolding object
object-append text more label bytes h = elim (Option-cases (find (begin_line label) text)) [
  | inl nowhere ↦ absurd (ground arith)
  | inr (i, at) ↦
      let room = find-bound (begin_line label) text i at in
      let n = i + length (begin_line label) in
      rw (object, find-append (begin_line label) text more i at, drop-append n text more room)
        (object_until-append (drop n text) more label bytes (ground arith))
]

-- The same of an object that follows a line.
pub object-drop-append :
    (text more label : Text) (n : ℕ) (bytes : List ℕ)
    → n ≤ length text
    → object (drop n text) label ≡ ok bytes
    → object (drop n (text ++ more)) label ≡ ok bytes
object-drop-append text more label n bytes room h =
    rw (drop-append n text more room) (object-append (drop n text) more label bytes h)
