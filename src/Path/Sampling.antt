-- ===== src/Path/Sampling.antt =====
-- src/tor/path.rs, `choose` and `sample_with`: draws are in proportion to the weights, and a sample
-- holds distinct relays.
use rust_tor_proxy.Prelude.{
  ℕ, zero, suc, ◌+◌, ◌-◌, ◌≤◌, ◌<◌, ◌≡◌, ◌≢◌, ◌⊎◌, refl, ap, subst, subst⁻¹, inl, inr, Bool, true,
  false, not, List, [], ◌∷◌, ◌++◌, retain, length, All, ltb, ◌==◌, if◌then◌else◌, Result, ok, arith,
  Bool-cases, u64_mod,
}
use rust_tor_proxy.Path.Relay.{RouterStatus}
use rust_tor_proxy.Path.Draw.{total_weight, walk, choose, sample_with}

-- The sum of the weights, which the code computes in 64 bits.
abbrev pub sum_of : (RouterStatus → ℕ) → List RouterStatus → ℕ
sum_of share [] = 0
sum_of share (r ∷ rs) = share r + sum_of share rs

total_weight-sum :
    (share : RouterStatus → ℕ) (rs : List RouterStatus)
    → sum_of share rs < u64_mod
    → total_weight share rs ≡ sum_of share rs
unfolding total_weight
total_weight-sum share [] h = refl
total_weight-sum share (r ∷ rs) h = omega (arith, total_weight-sum share rs)

walk-append :
    (share : RouterStatus → ℕ) (before : List RouterStatus) (r last : RouterStatus)
    (after : List RouterStatus) (k : ℕ)
    → k < share r
    → walk share (sum_of share before + k) last (before ++ (r ∷ after)) ≡ r
unfolding walk
walk-append share [] r last after k h = ground arith
walk-append share (b ∷ before) r last after k h =
    let past : ltb (share b + sum_of share before + k) (share b) ≡ false = ground arith in
    let left : share b + sum_of share before + k - share b ≡ sum_of share before + k =
      omega arith in
    rw (past, left) (walk-append share before r b after k h)

-- The values that a draw may take are divided among the candidates in order: a relay is chosen for as
-- many of them as its weight says, and for no others. The sum of the weights is taken to fit 64 bits.
pub choose_share :
    (below : ℕ → Result ℕ) (share : RouterStatus → ℕ) (before : List RouterStatus)
    (r : RouterStatus) (after : List RouterStatus) (k : ℕ)
    → sum_of share (before ++ (r ∷ after)) < u64_mod
    → k < share r
    → below (sum_of share (before ++ (r ∷ after))) ≡ ok (sum_of share before + k)
    → choose below share (before ++ (r ∷ after)) ≡ ok r
unfolding choose
choose_share below share [] r after k fits h drawn =
    rw (total_weight-sum share (r ∷ after) fits, drawn) (ap ok (walk-append share [] r r after k h))
choose_share below share (b ∷ before) r after k fits h drawn =
    rw (total_weight-sum share (b ∷ (before ++ (r ∷ after))) fits, drawn)
      (ap ok (walk-append share (b ∷ before) r b after k h))

-- A generator that does not fail.
abbrev pub IsTotal : (ℕ → Result ℕ) → Type 0
IsTotal below = (n : ℕ) → (k : ℕ) × (below n ≡ ok k)

-- A relay is one of a list's.
abbrev pub In : RouterStatus → List RouterStatus → Type 0
In r [] = ⊥
In r (x ∷ xs) = (r ≡ x) ⊎ In r xs

walk-here :
    (share : RouterStatus → ℕ) (pick : ℕ) (last r : RouterStatus) (rs : List RouterStatus)
    → ltb pick (share r) ≡ true
    → walk share pick last (r ∷ rs) ≡ r
unfolding walk
walk-here share pick last r rs e = rw e refl

walk-past :
    (share : RouterStatus → ℕ) (pick : ℕ) (last r : RouterStatus) (rs : List RouterStatus)
    → ltb pick (share r) ≡ false
    → walk share pick last (r ∷ rs) ≡ walk share (pick - share r) r rs
unfolding walk
walk-past share pick last r rs e = rw e refl

walk-In :
    (share : RouterStatus → ℕ) (pick : ℕ) (last : RouterStatus) (rs : List RouterStatus)
    → (walk share pick last rs ≡ last) ⊎ In (walk share pick last rs) rs
walk-In share pick last [] = inl (unfold walk in refl)
walk-In share pick last (r ∷ rs) = elim (Bool-cases (ltb pick (share r))) [
  | inl e ↦ inr (inl (walk-here share pick last r rs e))
  | inr e ↦
      subst⁻¹ (λ w. (w ≡ last) ⊎ ((w ≡ r) ⊎ In w rs)) (walk-past share pick last r rs e)
        (inr (walk-In share (pick - share r) r rs))
]

choose-In :
    (below : ℕ → Result ℕ) (share : RouterStatus → ℕ) (r : RouterStatus) (rs : List RouterStatus)
    → IsTotal below
    → (c : RouterStatus) × (choose below share (r ∷ rs) ≡ ok c) × In c (r ∷ rs)
unfolding choose
choose-In below share r rs t =
    let (k, e) = t (total_weight share (r ∷ rs)) in
    (
      walk share k r (r ∷ rs),
      rw e refl,
      member (walk share k r (r ∷ rs)) (walk-In share k r (r ∷ rs)),
    )
  where
    member : (c : RouterStatus) → (c ≡ r) ⊎ In c (r ∷ rs) → In c (r ∷ rs)
    member c (inl e) = inl e
    member c (inr i) = i

abbrev differs : RouterStatus → RouterStatus → Bool
differs c s = not (s.identity == c.identity)

kept-In :
    (b : Bool) (s r : RouterStatus) (rest : List RouterStatus)
    → In s (if b then r ∷ rest else rest)
    → ((b ≡ true) × (s ≡ r)) ⊎ In s rest
kept-In true s r rest (inl e) = inl (refl, e)
kept-In true s r rest (inr i) = inr i
kept-In false s r rest i = inr i

retain-In :
    (c s : RouterStatus) (rs : List RouterStatus)
    → In s (retain (differs c) rs)
    → In s rs × (s.identity ≢ c.identity)
retain-In c s [] i = elim i [ ]
retain-In c s (r ∷ rs) i = elim (kept-In (differs c r) s r (retain (differs c) rs) i) [
  | inl (kept, e) ↦
      (inl e, subst⁻¹ (λ x. x.identity ≢ c.identity) e (λ same. absurd (ground arith)))
  | inr rest ↦ let (i', apart) = retain-In c s rs rest in (inr i', apart)
]

In-retain :
    (c s : RouterStatus) (rs : List RouterStatus)
    → In s rs
    → (s.identity == c.identity) ≡ false
    → In s (retain (differs c) rs)
In-retain c s [] i d = i
In-retain c s (r ∷ rs) (inl e) d =
    let kept : differs c r ≡ true = subst (λ x. differs c x ≡ true) e (rw d refl) in rw kept (inl e)
In-retain c s (r ∷ rs) (inr i) d = elim (Bool-cases (differs c r)) [
  | inl k ↦ rw k (inr (In-retain c s rs i d))
  | inr k ↦ rw k (In-retain c s rs i d)
]

All-In {ℓ} :
    (P : RouterStatus → Type ℓ) (rs : List RouterStatus)
    → ((s : RouterStatus) → In s rs → P s)
    → All P rs
All-In P [] f = tt
All-In P (r ∷ rs) f = (f r (inl refl), All-In P rs (λ s i. f s (inr i)))

-- The relays of a sample have different identities.
abbrev pub Distinct : List RouterStatus → Type 0
Distinct [] = Unit
Distinct (r ∷ rs) = All (λ s. s.identity ≢ r.identity) rs × Distinct rs

abbrev pub HasIdentity : ℕ → List RouterStatus → Type 0
HasIdentity id [] = ⊥
HasIdentity id (r ∷ rs) = (r.identity ≡ id) ⊎ HasIdentity id rs

pub record IsSample (pool : List RouterStatus) (count : ℕ) (out : List RouterStatus) : Type 0 where
  pub drawn : (s : RouterStatus) → In s out → In s pool
  pub distinct : Distinct out
  pub bounded : length out ≤ count
  pub exhausts :
      (length out ≡ count) ⊎ ((s : RouterStatus) → In s pool → HasIdentity s.identity out)

IsSample-next :
    (pool : List RouterStatus) (count : ℕ) (c : RouterStatus) (out : List RouterStatus)
    → In c pool
    → IsSample (retain (differs c) pool) count out
    → IsSample pool (suc count) (c ∷ out)
IsSample-next pool count c out member rest = record {
  drawn = member_of;
  distinct = (
    All-In (λ s. s.identity ≢ c.identity) out (λ s i. (retain-In c s pool (rest.drawn s i)).1),
    rest.distinct,
  );
  bounded = omega (arith, rest.bounded);
  exhausts = next rest.exhausts;
}
  where
    member_of : (s : RouterStatus) → In s (c ∷ out) → In s pool
    member_of s (inl e) = subst⁻¹ (λ x. In x pool) e member
    member_of s (inr i) = (retain-In c s pool (rest.drawn s i)).0

    next :
        (length out ≡ count)
          ⊎ ((s : RouterStatus) → In s (retain (differs c) pool) → HasIdentity s.identity out)
        → (suc (length out) ≡ suc count)
          ⊎ ((s : RouterStatus) → In s pool → HasIdentity s.identity (c ∷ out))
    next (inl e) = inl (ap suc e)
    next (inr f) = inr (λ s i. elim (Bool-cases (s.identity == c.identity)) [
      | inl e ↦ inl (ground arith)
      | inr e ↦ inr (f s (In-retain c s pool i e))
    ])

-- Where the generator does not fail, a sample is drawn. Its relays are candidates with different
-- identities, and there are as many as asked for, or every candidate's identity is among them.
pub sample_with-IsSample :
    (below : ℕ → ℕ → Result ℕ) (share : RouterStatus → ℕ) (turn : ℕ) (pool : List RouterStatus)
    (count : ℕ)
    → ((t : ℕ) → IsTotal (below t))
    → (out : List RouterStatus) × (sample_with below turn pool count share ≡ ok out)
      × IsSample pool count out
unfolding sample_with
sample_with-IsSample below share turn pool zero t = (
  [],
  refl,
  record { drawn = λ s i. elim i [ ]; distinct = tt; bounded = omega arith; exhausts = inl refl },
)
sample_with-IsSample below share turn [] (suc count) t = (
  [],
  refl,
  record {
    drawn = λ s i. elim i [ ];
    distinct = tt;
    bounded = omega arith;
    exhausts = inr (λ s i. elim i [ ]);
  },
)
sample_with-IsSample below share turn (r ∷ rs) (suc count) t =
    let (c, chosen, member) = choose-In (below turn) share r rs (t turn) in
    let (out, rest, sample) =
      sample_with-IsSample below share (suc turn) (retain (differs c) (r ∷ rs)) count t in
    (c ∷ out, rw (chosen, rest) refl, IsSample-next (r ∷ rs) count c out member sample)
