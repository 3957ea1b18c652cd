-- ===== src/Pool/Choice.antt =====
-- src/tor/pool.rs, `circuit_for`: which circuit a stream is given.
use rust_tor_proxy.Prelude.{
  subst, subst⁻¹, ℕ, zero, suc, ◌+◌, ◌≤◌, ◌<◌, ◌≡◌, refl, ap, sym, ◌∙◌, inl, inr, true, false, ◌&&◌,
  Option, none, some, List, [], ◌∷◌, length, get_elem?, get_or, All, ◌==◌, arith, Bool-cases,
  Option-cases,
}
use rust_tor_proxy.Pool.{Net, allows, Pooled, usable, State, total, stream_limit, max_circuits}
use rust_tor_proxy.Pool.Ops.{usable_from, fewest_of, candidates_of, drawn, choose}

-- The circuit at an index may carry a new stream to this port.
pub record Fits (n : Net) (port : ℕ) (cs : List Pooled) (k load : ℕ) (c : Pooled) : Type 0 where
  pub at : get_elem? cs k ≡ some c
  pub alive : usable n c ≡ true
  pub open_to : allows c.exit_policy port ≡ true
  pub carries : load ≡ n.open_streams c.circuit

abbrev Entry : Net → ℕ → ℕ → List Pooled → ℕ × ℕ → Type 0
Entry n port index cs e = (k : ℕ) × (c : Pooled) × (e.0 ≡ index + k) × Fits n port cs k e.1 c

All-weaken {ℓ κ λ'} :
    {A : Type ℓ} (P : A → Type κ) (Q : A → Type λ')
    → ((a : A) → P a → Q a)
    → (xs : List A) → All P xs
    → All Q xs
All-weaken P Q f [] h = tt
All-weaken P Q f (x ∷ xs) h = (f x h.0, All-weaken P Q f xs h.1)

shift-Entry :
    (n : Net) (port index : ℕ) (c : Pooled) (cs : List Pooled) (e : ℕ × ℕ)
    → Entry n port (index + 1) cs e
    → Entry n port index (c ∷ cs) e
shift-Entry n port index c cs e (k, d, i, f) = (
  suc k,
  d,
  omega (arith, i),
  record { at = f.at; alive = f.alive; open_to = f.open_to; carries = f.carries },
)

-- Every entry of the pass is a circuit that fits.
usable_from_sound :
    (n : Net) (port index : ℕ) (cs : List Pooled)
    → All (Entry n port index cs) (usable_from n port index cs)
unfolding usable_from
usable_from_sound n port index [] = tt
usable_from_sound n port index (c ∷ cs) =
    let rest =
      All-weaken (Entry n port (index + 1) cs) (Entry n port index (c ∷ cs))
        (shift-Entry n port index c cs) (usable_from n port (index + 1) cs)
        (usable_from_sound n port (index + 1) cs) in
    elim (Bool-cases (usable n c)) [
      | inl u ↦ elim (Bool-cases (allows c.exit_policy port)) [
        | inl a ↦
            rw (u, a)
              (
                (0, c, omega arith, record { at = refl; alive = u; open_to = a; carries = refl }),
                rest,
              )
        | inr a ↦ rw (u, a) rest
      ]
      | inr u ↦ rw u rest
    ]

module _ (P : ℕ → Type 0) (n : Net) (port : ℕ) where
  usable_from_tail :
      (index : ℕ) (x : Pooled) (cs : List Pooled)
      → All (λ e. P e.1) (usable_from n port index (x ∷ cs))
      → All (λ e. P e.1) (usable_from n port (index + 1) cs)
  unfolding usable_from
  usable_from_tail index x cs h = elim (Bool-cases (usable n x && allows x.exit_policy port)) [
    | inl e ↦ (rw e at h).1
    | inr e ↦ rw e at h
  ]

  usable_from_head :
      (index : ℕ) (x : Pooled) (cs : List Pooled)
      → All (λ e. P e.1) (usable_from n port index (x ∷ cs))
      → usable n x ≡ true
      → allows x.exit_policy port ≡ true
      → P (n.open_streams x.circuit)
  unfolding usable_from
  usable_from_head index x cs h u a = (rw (u, a) at h).0

  -- What holds of every entry's load holds of each circuit that fits.
  usable_from_complete :
      (index : ℕ) (cs : List Pooled) (k : ℕ) (c : Pooled)
      → All (λ e. P e.1) (usable_from n port index cs)
      → get_elem? cs k ≡ some c
      → usable n c ≡ true
      → allows c.exit_policy port ≡ true
      → P (n.open_streams c.circuit)
  usable_from_complete index [] k c h at u a = cc
  usable_from_complete index (x ∷ cs) zero c h at u a =
      let e : x ≡ c = cc in
      subst (λ d. P (n.open_streams d.circuit)) e
        (usable_from_head index x cs h (ap (usable n) e ∙ u)
          (ap (λ d. allows d.exit_policy port) e ∙ a))
  usable_from_complete index (x ∷ cs) (suc k) c h at u a =
      usable_from_complete (index + 1) cs k c (usable_from_tail index x cs h) at u a

fewest_none : (es : List (ℕ × ℕ)) → fewest_of es ≡ none → es ≡ []
unfolding fewest_of
fewest_none [] h = refl
fewest_none ((i, load) ∷ rest) h = ground arith

-- The minimum is below every load, and some entry has it.
fewest_of_le :
    (es : List (ℕ × ℕ)) (fewest : ℕ) → fewest_of es ≡ some fewest → All (λ e. fewest ≤ e.1) es
unfolding fewest_of
fewest_of_le [] fewest h = tt
fewest_of_le ((i, load) ∷ rest) fewest h = elim (Option-cases (fewest_of rest)) [
  | inl e ↦ (ground arith, rw (fewest_none rest e) tt)
  | inr (m, e) ↦
      let below : (fewest ≤ load) × (fewest ≤ m) = ground arith in
      (
        below.0,
        All-weaken (λ e. m ≤ e.1) (λ e. fewest ≤ e.1) (λ e q. omega arith) rest
            (fewest_of_le rest m e),
      )
]

candidates_pos :
    (es : List (ℕ × ℕ)) (fewest : ℕ)
    → fewest_of es ≡ some fewest
    → 0 < length (candidates_of fewest es)
unfolding fewest_of candidates_of
candidates_pos [] fewest h = cc
candidates_pos ((i, load) ∷ rest) fewest h = elim (Option-cases (fewest_of rest)) [
  | inl e ↦ ground arith
  | inr (m, e) ↦ ground (arith, candidates_pos rest m)
]

candidates_keep :
    (fewest : ℕ) (e : ℕ × ℕ) (es : List (ℕ × ℕ))
    → (e.1 == fewest) ≡ true
    → candidates_of fewest (e ∷ es) ≡ e.0 ∷ candidates_of fewest es
unfolding candidates_of
candidates_keep fewest e es m = rw m refl

candidates_skip :
    (fewest : ℕ) (e : ℕ × ℕ) (es : List (ℕ × ℕ))
    → (e.1 == fewest) ≡ false
    → candidates_of fewest (e ∷ es) ≡ candidates_of fewest es
unfolding candidates_of
candidates_skip fewest e es m = rw m refl

-- The candidate at an index is an entry with the minimal load.
abbrev AtCandidate : (ℕ × ℕ → Type 0) → ℕ → List ℕ → ℕ → Type 0
AtCandidate Q fewest cs k = (e : ℕ × ℕ) × (get_or cs k 0 ≡ e.0) × (e.1 ≡ fewest) × Q e

candidates_entry :
    (Q : ℕ × ℕ → Type 0) (fewest : ℕ) (es : List (ℕ × ℕ)) (k : ℕ)
    → All Q es
    → k < length (candidates_of fewest es)
    → AtCandidate Q fewest (candidates_of fewest es) k
candidates_entry Q fewest [] k q h = absurd (unfold candidates_of in omega arith)
candidates_entry Q fewest (e ∷ es) k q h = elim (Bool-cases (e.1 == fewest)) [
  | inl m ↦
      subst⁻¹ (λ cs. AtCandidate Q fewest cs k) (candidates_keep fewest e es m)
        (kept k (ground arith) (subst (λ cs. k < length cs) (candidates_keep fewest e es m) h)
          (λ j. candidates_entry Q fewest es j q.1))
  | inr m ↦
      subst⁻¹ (λ cs. AtCandidate Q fewest cs k) (candidates_skip fewest e es m)
        (candidates_entry Q fewest es k q.1
          (subst (λ cs. k < length cs) (candidates_skip fewest e es m) h))
]
  where
    kept :
        (k : ℕ)
        → e.1 ≡ fewest
        → k < length (e.0 ∷ candidates_of fewest es)
        → ((j : ℕ)
            → j < length (candidates_of fewest es)
            → AtCandidate Q fewest (candidates_of fewest es) j)
        → AtCandidate Q fewest (e.0 ∷ candidates_of fewest es) k
    kept zero m h rest = (e, refl, m, q.0)
    kept (suc k) m h rest = rest k (omega arith)

-- What `rand::below` promises: a number below its bound, or an error.
abbrev pub IsBelow : (ℕ → Option ℕ) → Type 0
IsBelow below = (count k : ℕ) → below count ≡ some k → k < count

drawn_lt :
    (below : ℕ → Option ℕ) (count : ℕ) → IsBelow below → 0 < count → drawn below count < count
drawn_lt below count b pos = elim (Option-cases (below count)) [
  | inl e ↦ rw (e, drawn) pos
  | inr (k, e) ↦ rw (e, drawn) (b count k e)
]

-- The circuit at the index that is chosen.
pub record IsChoice (n : Net) (port : ℕ) (s : State) (pick : ℕ) : Type 0 where
  pub circuit : Pooled
  pub fits : Fits n port s.circuits pick (n.open_streams circuit.circuit) circuit
  pub fewest :
      (k : ℕ) (other : Pooled)
      → get_elem? s.circuits k ≡ some other
      → usable n other ≡ true
      → allows other.exit_policy port ≡ true
      → n.open_streams circuit.circuit ≤ n.open_streams other.circuit

pick_of :
    (below : ℕ → Option ℕ) (n : Net) (port : ℕ) (s : State) (fewest : ℕ)
    → IsBelow below
    → fewest_of (usable_from n port 0 s.circuits) ≡ some fewest
    → let cs = candidates_of fewest (usable_from n port 0 s.circuits) in
      IsChoice n port s (get_or cs (drawn below (length cs)) 0)
pick_of below n port s fewest b m =
    let pool = usable_from n port 0 s.circuits in
    let cs = candidates_of fewest pool in
    let at = drawn_lt below (length cs) b (candidates_pos pool fewest m) in
    let (e, i, l, (k, c, ik, f)) =
      candidates_entry (Entry n port 0 s.circuits) fewest pool (drawn below (length cs))
        (usable_from_sound n port 0 s.circuits) at in
    let here : get_or cs (drawn below (length cs)) 0 ≡ k = omega (arith, i, ik) in
    let load : fewest ≡ n.open_streams c.circuit = sym l ∙ f.carries in
    rw here (record {
      circuit = c;
      fits = record { at = f.at; alive = f.alive; open_to = f.open_to; carries = refl };
      fewest = λ j other at' u a. rw (← load) (
          usable_from_complete (λ x. fewest ≤ x) n port 0 s.circuits j other
            (fewest_of_le pool fewest m) at' u a);
    })

-- The circuit at an index that is chosen is in the pool, usable, and open to the port, and no other such
-- circuit carries fewer streams, however the random draw falls below its bound.
pub choose-IsChoice :
    (below : ℕ → Option ℕ) (n : Net) (port : ℕ) (s : State) (pick : ℕ)
    → IsBelow below
    → choose below n port s ≡ some pick
    → IsChoice n port s pick
unfolding choose
choose-IsChoice below n port s pick b h =
    elim (Option-cases (fewest_of (usable_from n port 0 s.circuits))) [
      | inl e ↦ absurd (none_chosen e)
      | inr (fewest, e) ↦
          subst (IsChoice n port s) (chosen fewest e) (pick_of below n port s fewest b e)
    ]
  where
    none_chosen : fewest_of (usable_from n port 0 s.circuits) ≡ none → ⊥
    none_chosen e = ground arith

    chosen :
        (fewest : ℕ)
        → fewest_of (usable_from n port 0 s.circuits) ≡ some fewest
        → let cs = candidates_of fewest (usable_from n port 0 s.circuits) in
          get_or cs (drawn below (length cs)) 0 ≡ pick
    chosen fewest e = ground arith

-- Where a usable circuit is open to the port, a request is turned away to wait for a new circuit only
-- while the pool has room for one, and never past a circuit without streams.
pub choose-none :
    (below : ℕ → Option ℕ) (n : Net) (port : ℕ) (s : State) (k : ℕ) (c : Pooled)
    → choose below n port s ≡ none
    → get_elem? s.circuits k ≡ some c
    → usable n c ≡ true
    → allows c.exit_policy port ≡ true
    → (total s < max_circuits) × (1 ≤ n.open_streams c.circuit)
unfolding choose stream_limit
choose-none below n port s k c h at u a =
    let pool = usable_from n port 0 s.circuits in
    elim (Option-cases (fewest_of pool)) [
      | inl e ↦ absurd (
          usable_from_complete (λ x. ⊥) n port 0 s.circuits k c (rw (fewest_none pool e) tt) at u a)
      | inr (fewest, e) ↦
          let low =
            usable_from_complete (λ x. fewest ≤ x) n port 0 s.circuits k c
              (fewest_of_le pool fewest e) at u a in
          ground arith
    ]
