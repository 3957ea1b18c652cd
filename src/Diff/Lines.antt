-- ===== src/Diff/Lines.antt =====
-- src/tor/dir/diff.rs, `split_lines` and `join_lines`: no byte of a document is lost between them.
use rust_tor_proxy.Prelude.{
  ℕ, ◌≡◌, refl, sym, ap, ◌∙◌, Bool, true, false, none, some, List, [], ◌∷◌, ◌++◌, append-nil,
  reverse, reverse-append, reverse-reverse, Bool-cases, Option-cases, inl, inr, ◌==◌, if◌then◌else◌,
  Text, strip_prefix, strip_suffix, split, push_field, arith,
}
use rust_tor_proxy.Diff.{split_lines, split_stripped, join_lines, join_rest}

strip_prefix-inv : (p s t : Text) → strip_prefix p s ≡ some t → s ≡ p ++ t
unfolding strip_prefix
strip_prefix-inv [] s t h = ground arith
strip_prefix-inv (a ∷ p) [] t h = absurd (ground arith)
strip_prefix-inv (a ∷ p) (c ∷ s) t h = elim (Bool-cases (a == c)) [
  | inr e ↦ absurd (ground arith)
  | inl e ↦
      let rest : strip_prefix p s ≡ some t = ground arith in
      let same : c ≡ a = ground arith in rw same (ap (λ r. a ∷ r) (strip_prefix-inv p s t rest))
]

strip_suffix-inv : (p s t : Text) → strip_suffix p s ≡ some t → s ≡ t ++ p
unfolding strip_suffix
strip_suffix-inv p s t h = elim (Option-cases (strip_prefix (reverse p) (reverse s))) [
  | inl e ↦ absurd (ground arith)
  | inr (r, e) ↦
      let back : reverse r ≡ t = ground arith in
      let turned : reverse s ≡ reverse p ++ r = strip_prefix-inv (reverse p) (reverse s) r e in
      sym (reverse-reverse s)
      ∙ ap reverse turned
      ∙ reverse-append (reverse p) r
      ∙ ap (λ a. a ++ reverse (reverse p)) back
      ∙ ap (λ a. t ++ a) (reverse-reverse p)
]

-- Fields of a text, with the separator between them.
abbrev joined : List Text → Text
joined [] = []
joined (f ∷ fs) = f ++ join_rest fs

abbrev IsField : List Text → Text → Type 0
IsField [] s = ⊥
IsField (f ∷ fs) s = f ++ join_rest fs ≡ s

push_field-IsField :
    (c : ℕ) (fs : List Text) (s : Text) → IsField fs s → IsField (push_field c fs) (c ∷ s)
push_field-IsField c [] s h = elim h [ ]
push_field-IsField c (f ∷ fs) s h = ap (λ r. c ∷ r) h

newline-IsField : (fs : List Text) (s : Text) → IsField fs s → IsField ([] ∷ fs) (10 ∷ s)
newline-IsField [] s h = elim h [ ]
newline-IsField (f ∷ fs) s h = ap (λ r. 10 ∷ r) h

split-IsField : (s : Text) → IsField (split 10 s) s
unfolding split
split-IsField [] = refl
split-IsField (c ∷ cs) = elim (Bool-cases (c == 10)) [
  | inl e ↦
      let same : 10 ≡ c = ground arith in
      rw (e, ← same) (newline-IsField (split 10 cs) cs (split-IsField cs))
  | inr e ↦ rw e (push_field-IsField c (split 10 cs) cs (split-IsField cs))
]

join-fields :
    (fs : List Text) (s : Text) (newline : Bool)
    → IsField fs s
    → join_lines fs newline ≡ s ++ (if newline then 10 ∷ [] else [])
unfolding join_lines
join-fields [] s newline h = elim h [ ]
join-fields (f ∷ fs) s newline h = ap (λ r. r ++ (if newline then 10 ∷ [] else [])) h

-- A document that is split into lines is joined to itself again, whether it ends in a newline or not.
pub join_lines-split_lines :
    (text : Text) → join_lines (split_lines text).0 (split_lines text).1 ≡ text
unfolding split_lines
join_lines-split_lines text = elim (Option-cases (strip_suffix (10 ∷ []) text)) [
  | inr (body, e) ↦ rw e (
      join-fields (split 10 body) body true (split-IsField body)
      ∙ sym (strip_suffix-inv (10 ∷ []) text body e))
  | inl e ↦ rw e (unstripped text)
]
  where
    unstripped : (t : Text) → join_lines (split_stripped t none).0 (split_stripped t none).1 ≡ t
    unstripped [] = unfold join_lines in refl
    unstripped (c ∷ cs) =
        join-fields (split 10 (c ∷ cs)) (c ∷ cs) false (split-IsField (c ∷ cs))
        ∙ append-nil (c ∷ cs)
