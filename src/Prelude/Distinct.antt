-- ===== src/Prelude/Distinct.antt =====
-- Lists of numbers without a repeat.
use Prim.Native.Nat.{ℕ}
use mathlib.Core.Path.{◌≡◌, refl}
use mathlib.Core.Logic.{inl, inr}
use mathlib.Core.Bool.{Bool, true, false, ◌||◌}
use mathlib.Core.List.{List, [], ◌∷◌, ◌++◌}
use native.Mathlib.Omega.{arith}
use rust_tor_proxy.Prelude.Tests.{◌==◌, if◌then◌else◌, Bool-cases}
use rust_tor_proxy.Prelude.Lists.{any}

abbrev pub has_identity : ℕ → List ℕ → Bool
has_identity a ids = any (λ x. x == a) ids

abbrev pub distinct : List ℕ → Bool
distinct [] = true
distinct (a ∷ ids) = if has_identity a ids then false else distinct ids

pub has_identity-append :
    (a b : ℕ) (ids : List ℕ) → has_identity a (ids ++ (b ∷ [])) ≡ (has_identity a ids || (b == a))
has_identity-append a b [] = ground arith
has_identity-append a b (x ∷ ids) = grind (arith, has_identity-append a b ids)

pub distinct-append :
    (b : ℕ) (ids : List ℕ)
    → distinct ids ≡ true
    → has_identity b ids ≡ false
    → distinct (ids ++ (b ∷ [])) ≡ true
distinct-append b [] d fresh = refl
distinct-append b (a ∷ ids) d fresh =
    let known = has_identity-append a b ids in
    elim (Bool-cases (has_identity a ids)) [
      | inl twice ↦ ground arith
      | inr once ↦
          let other : (b == a) ≡ false = ground arith in
          let ih = distinct-append b ids (ground arith) (ground arith) in rw (known, once, other) ih
    ]
