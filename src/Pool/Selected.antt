-- ===== src/Pool/Selected.antt =====
-- src/tor/pool.rs, `State::retire`: the passes of a sweep, described by what they select.
use rust_tor_proxy.Prelude.{
  ℕ, ◌-◌, ◌≡◌, refl, Bool, not, ◌||◌, List, [], ◌∷◌, ◌++◌, map, retain, ltb, ◌==◌, Bool-cases, inl,
  inr,
}
use rust_tor_proxy.Pool.{
  Net, Stub, stub_usable, Pooled, blames_the_path, verdict, is_keep, Blame, State,
  prediction_window,
}
use rust_tor_proxy.Pool.Retire.{note_blame, mark, sweep_stubs, sweep_circuits, retire}

-- Whether a circuit stays in the pool: one whose verdict is not `Keep` stays while it has streams.
unfoldable pub stays : Net → Pooled → Bool
stays n c = is_keep (verdict n c) || not (n.open_streams c.circuit == 0)

-- The blame list after every circuit was looked at.
unfoldable pub blame_all : Net → List Pooled → List Blame → List Blame
blame_all n [] blamed = blamed
blame_all n (c ∷ cs) blamed = blame_all n cs (note_blame n c blamed)

abbrev pub closed_stubs : Net → List Stub → List ℕ
closed_stubs n stubs = map (λ s. s.circuit) (retain (λ s. not (stub_usable n s)) stubs)

abbrev pub closed_circuits : Net → List Pooled → List ℕ
closed_circuits n cs = map (λ c. c.circuit) (retain (λ c. not (stays n c)) cs)

pub sweep_stubs-retain :
    (n : Net) (ss : List Stub) → sweep_stubs n ss ≡ (retain (stub_usable n) ss, closed_stubs n ss)
unfolding sweep_stubs
sweep_stubs-retain n [] = refl
sweep_stubs-retain n (s ∷ ss) = elim (Bool-cases (stub_usable n s)) [
  | inl e ↦ rw (e, sweep_stubs-retain n ss) refl
  | inr e ↦ rw (e, sweep_stubs-retain n ss) refl
]

pub sweep_circuits-retain :
    (n : Net) (cs : List Pooled) (blamed : List Blame)
    → sweep_circuits n cs blamed
      ≡ (retain (stays n) cs, closed_circuits n cs, blame_all n cs blamed)
unfolding sweep_circuits stays blame_all
sweep_circuits-retain n [] blamed = refl
sweep_circuits-retain n (c ∷ cs) blamed =
    let later = sweep_circuits-retain n cs (note_blame n c blamed) in
    elim (Bool-cases (is_keep (verdict n c))) [
      | inl e ↦ rw (e, later) refl
      | inr e ↦ elim (Bool-cases (blames_the_path (verdict n c))) [
        | inl b ↦ elim (Bool-cases (n.open_streams c.circuit == 0)) [
          | inl o ↦ rw (e, b, o, later) refl
          | inr o ↦ rw (e, b, o, later) refl
        ]
        | inr b ↦ elim (Bool-cases (n.open_streams c.circuit == 0)) [
          | inl o ↦ rw (e, b, o, later) refl
          | inr o ↦ rw (e, b, o, later) refl
        ]
      ]
    ]

-- A sweep with each pass replaced by what it selects.
pub retire-retain :
    (n : Net) (s : State)
    → retire n s ≡ (
      record {
        stubs = retain (stub_usable n) s.stubs;
        circuits = map (mark n) (retain (stays n) s.circuits);
        predicted = retain (λ p. ltb (n.now - p.last) prediction_window) s.predicted;
        onion_in_use = s.onion_in_use;
        blamed = blame_all n s.circuits s.blamed;
      },
      closed_stubs n s.stubs ++ closed_circuits n s.circuits,
    )
unfolding retire
retire-retain n s =
    rw (sweep_stubs-retain n s.stubs, sweep_circuits-retain n s.circuits s.blamed) refl
