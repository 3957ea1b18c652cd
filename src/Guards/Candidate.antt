-- ===== src/Guards/Candidate.antt =====
-- src/tor/client.rs: which guard is tried, and how many there come to be.
use mathlib.Core.List.{Memᴰ}
use mathlib.Core.Option.{some-injective}
use rust_tor_proxy.Prelude.{
  subst, ℕ, suc, ◌≡◌, ◌≢◌, refl, ap, ◌∙◌, arith, Bool, true, false, not, ◌&&◌, ◌||◌, Bool-cases,
  inl, inr, Option, none, some, List, [], ◌∷◌, ◌++◌, length, length-append, any, All, ◌==◌,
  if◌then◌else◌,
}
use rust_tor_proxy.Guards.{
  OpenGuard, forget, mark_failed, take_open, stop_using, GuardEntry, Guards, is_demoted,
  is_unfailed, is_cooled, find_identity, first_some, next_candidate, decide, choose, add_guard,
  max_guards,
}

-- An entry with the identity that passes the test, or every entry fails it.
abbrev pub Found : (GuardEntry → Bool) → List GuardEntry → Option ℕ → Type 0
Found p entries none = All (λ e. p e ≡ false) entries
Found p entries (some identity) =
    (e : GuardEntry) × Memᴰ e entries × (e.identity ≡ identity) × (p e ≡ true)

Found-later :
    (p : GuardEntry → Bool) (e : GuardEntry) (es : List GuardEntry) (o : Option ℕ)
    → p e ≡ false
    → Found p es o
    → Found p (e ∷ es) o
Found-later p e es none not_this all = (not_this, all)
Found-later p e es (some identity) not_this (g, m, same, passes) = (g, Memᴰ.tail m, same, passes)

find_identity-Found :
    (p : GuardEntry → Bool) (entries : List GuardEntry) → Found p entries (find_identity p entries)
unfolding find_identity
find_identity-Found p [] = tt
find_identity-Found p (e ∷ es) = elim (Bool-cases (p e)) [
  | inl this ↦ rw this (e, Memᴰ.head refl, refl, this)
  | inr other ↦ rw other (Found-later p e es (find_identity p es) other (find_identity-Found p es))
]

abbrev pub is_ready : ℕ → ℕ → GuardEntry → Bool
is_ready now unix e =
    not (is_demoted unix e) && (is_unfailed e.failed_at || is_cooled now e.failed_at)

none_ready :
    (now unix : ℕ) (entries : List GuardEntry)
    → All (λ e. (is_unfailed e.failed_at && not (is_demoted unix e)) ≡ false) entries
    → All (λ e. (not (is_demoted unix e) && is_cooled now e.failed_at) ≡ false) entries
    → All (λ e. is_ready now unix e ≡ false) entries
none_ready now unix [] h h' = tt
none_ready now unix (e ∷ es) (h, hs) (h', hs') = (ground arith, none_ready now unix es hs hs')

first_ready :
    (now unix : ℕ) (entries : List GuardEntry) (first second : Option ℕ)
    → Found (λ e. is_unfailed e.failed_at && not (is_demoted unix e)) entries first
    → Found (λ e. not (is_demoted unix e) && is_cooled now e.failed_at) entries second
    → Found (is_ready now unix) entries (first_some first second)
first_ready now unix entries none none all all' = none_ready now unix entries all all'
first_ready now unix entries none (some b) all (e, m, same, passes) = (e, m, same, ground arith)
first_ready now unix entries (some a) second (e, m, same, passes) found = (e, m, same, ground arith)

-- A guard that is tried is on the list, serves no demotion, and has not failed, or not in the last ten minutes; where
-- none is tried, every guard on the list serves a demotion or has failed within ten minutes.
pub next_candidate-Found :
    (now unix : ℕ) (guards : Guards)
    → Found (is_ready now unix) guards.entries (next_candidate now unix guards)
unfolding next_candidate
next_candidate-Found now unix guards =
    first_ready now unix guards.entries _ _
      (find_identity-Found (λ e. is_unfailed e.failed_at && not (is_demoted unix e)) guards.entries)
      (find_identity-Found (λ e. not (is_demoted unix e) && is_cooled now e.failed_at)
        guards.entries)

any-append :
    (p : GuardEntry → Bool) (es : List GuardEntry) (e : GuardEntry)
    → any p (es ++ (e ∷ [])) ≡ (any p es || p e)
any-append p [] e = ground arith
any-append p (x ∷ es) e = grind (arith, any-append p es e)

abbrev new_entry : ℕ → GuardEntry
new_entry chosen = record {
  identity = chosen;
  strikes = [];
  demoted_unix = none;
  contact = none;
  failed_at = none;
}

add_guard-fresh :
    (a : ℕ) (guards : Guards)
    → any (λ e. e.identity == a) guards.entries ≡ false
    → (add_guard a guards).entries ≡ guards.entries ++ (new_entry a ∷ [])
unfolding add_guard
add_guard-fresh a guards fresh =
    ap
      (λ t.
        (if t
          then guards
          else record guards { entries = guards.entries ++ (new_entry a ∷ []) }).entries)
      fresh

-- The check and the addition of `ensure_guard` hold the lock apart: two threads that both decide to choose while the
-- list has one guard less than its limit, and that choose two different guards which are not on it, leave it with one
-- more than its limit.
pub add_guard-decide :
    (now unix a b : ℕ) (guards : Guards) (taken : List ℕ)
    → decide now unix guards ≡ choose taken
    → suc (length guards.entries) ≡ max_guards
    → any (λ e. e.identity == a) guards.entries ≡ false
    → any (λ e. e.identity == b) guards.entries ≡ false
    → a ≢ b
    → length (add_guard b (add_guard a guards)).entries ≡ suc max_guards
add_guard-decide now unix a b guards taken d full fresh_a fresh_b other =
    let first = add_guard-fresh a guards fresh_a in
    let is_b : GuardEntry → Bool = λ e. e.identity == b in
    let differs : (a == b) ≡ false = ground arith in
    let still_fresh : any is_b (add_guard a guards).entries ≡ false =
      ap (any is_b) first ∙ any-append is_b guards.entries (new_entry a) ∙ rw (fresh_b, differs) in
    let second = add_guard-fresh b (add_guard a guards) still_fresh in
    let n = length-append (add_guard a guards).entries (new_entry b ∷ []) in
    let n' = length-append guards.entries (new_entry a ∷ []) in
    ap length second ∙ n ∙ (let same = ap length first in omega arith)

forget-other :
    (identity : ℕ) (o : Option OpenGuard) (left : OpenGuard)
    → forget identity o ≡ some left
    → (left.identity == identity) ≡ false
forget-other identity none left h = absurd (ground arith)
forget-other identity (some o) left h = elim (Bool-cases (o.identity == identity)) [
  | inl same ↦ absurd (ground arith)
  | inr other ↦
      let kept : o ≡ left =
        some-injective o left (subst (λ t. (if t then none else some o) ≡ some left) other h) in
      subst (λ x. (x.identity == identity) ≡ false) kept other
]

take_open-none :
    (identity : ℕ) (guards : Guards) (o : Option OpenGuard)
    → ((left : OpenGuard) → o ≡ some left → (left.identity == identity) ≡ false)
    → (take_open identity guards o).1 ≡ none
take_open-none identity guards none h = refl
take_open-none identity guards (some o) h = let other = h o refl in rw other

-- `mark_failed` finds no channel to close, whichever guard it is for: `stop_using` has let go of it before.
pub mark_failed-none :
    (now identity : ℕ) (guards : Guards) → (mark_failed now identity guards).1 ≡ none
unfolding mark_failed stop_using
mark_failed-none now identity guards =
    take_open-none identity (stop_using now identity guards) (forget identity guards.in_use)
      (forget-other identity guards.in_use)
