-- ===== src/Pool/Sweep.antt =====
-- src/tor/pool.rs, `State::retire`: what a sweep may close, what it leaves, and that it is done once.
use rust_tor_proxy.Prelude.{
  ◌-◌, ◌≤◌, ◌<◌, ◌≡◌, ◌⊎◌, refl, ap, ap₂, ◌∙◌, Bool, true, false, not, List, [], ◌∷◌, map, retain,
  length, length-append, All, ltb, arith, inl, inr, Bool-cases,
}
use rust_tor_proxy.Pool.{
  Net, stub_usable, Pooled, usable, verdict, blames_the_path, Blame, State, Prediction,
  max_pending_blame, prediction_window,
}
use rust_tor_proxy.Pool.Retire.{retire, mark, newly_blamed, note_blame}
use rust_tor_proxy.Pool.Selected.{stays, blame_all, closed_circuits, retire-retain}

-- The state that a sweep leaves.
pub record IsSwept (n : Net) (s : State) : Type 0 where
  pub stubs : All (λ t. stub_usable n t ≡ true) s.stubs
  pub circuits : All (λ c. (usable n c ≡ true) ⊎ (0 < n.open_streams c.circuit)) s.circuits
  pub flagged : All (λ c. newly_blamed n c ≡ false) s.circuits

module _ {ℓ} {A : Type ℓ} (p : A → Bool) where
  All-retain : (xs : List A) → All (λ x. p x ≡ true) (retain p xs)
  All-retain [] = tt
  All-retain (x ∷ xs) = elim (Bool-cases (p x)) [
    | inl e ↦ rw e (e, All-retain xs)
    | inr e ↦ rw e (All-retain xs)
  ]

  retain_self : (xs : List A) → All (λ x. p x ≡ true) xs → retain p xs ≡ xs
  retain_self [] h = refl
  retain_self (x ∷ xs) h = rw h.0 (ap (λ r. x ∷ r) (retain_self xs h.1))

  retain_none : (xs : List A) → All (λ x. p x ≡ true) xs → retain (λ x. not (p x)) xs ≡ []
  retain_none [] h = refl
  retain_none (x ∷ xs) h = rw h.0 (retain_none xs h.1)

-- The verdict does not depend on the flag.
pub verdict-mark : (n : Net) (c : Pooled) → verdict n (mark n c) ≡ verdict n c
unfolding mark verdict
verdict-mark n c = elim (Bool-cases (blames_the_path (verdict n c))) [
  | inl e ↦ rw e refl
  | inr e ↦ rw e refl
]

pub circuit-mark : (n : Net) (c : Pooled) → (mark n c).circuit ≡ c.circuit
unfolding mark
circuit-mark n c = ground arith

stays-mark : (n : Net) (c : Pooled) → stays n (mark n c) ≡ stays n c
unfolding stays
stays-mark n c = rw (verdict-mark n c, circuit-mark n c) refl

blamed-mark :
    (n : Net) (c : Pooled) → blames_the_path (verdict n c) ≡ true → (mark n c).blamed ≡ true
unfolding mark
blamed-mark n c h = ground arith

newly_blamed-mark : (n : Net) (c : Pooled) → newly_blamed n (mark n c) ≡ false
unfolding newly_blamed
newly_blamed-mark n c = ground (arith, verdict-mark n c, blamed-mark n c)

pub mark_quiet :
    (n : Net) (c : Pooled)
    → (blames_the_path (verdict n c) ≡ false) ⊎ (c.blamed ≡ true)
    → mark n c ≡ c
unfolding mark
mark_quiet n c h = ground arith

mark-mark : (n : Net) (c : Pooled) → mark n (mark n c) ≡ mark n c
mark-mark n c = elim (Bool-cases (blames_the_path (verdict n c))) [
  | inl e ↦ mark_quiet n (mark n c) (inr (blamed-mark n c e))
  | inr e ↦ mark_quiet n (mark n c) (inl (ap blames_the_path (verdict-mark n c) ∙ e))
]

map-mark-mark : (n : Net) (cs : List Pooled) → map (mark n) (map (mark n) cs) ≡ map (mark n) cs
map-mark-mark n [] = refl
map-mark-mark n (c ∷ cs) = ap₂ (λ x r. x ∷ r) (mark-mark n c) (map-mark-mark n cs)

-- What `blame_all` finds when nothing is left to blame.
blame_all_quiet :
    (n : Net) (cs : List Pooled) (blamed : List Blame)
    → All (λ c. newly_blamed n c ≡ false) cs
    → blame_all n cs blamed ≡ blamed
unfolding blame_all note_blame
blame_all_quiet n [] blamed h = refl
blame_all_quiet n (c ∷ cs) blamed h = rw h.0 (blame_all_quiet n cs blamed h.1)

All-mark-flagged :
    (n : Net) (cs : List Pooled) → All (λ c. newly_blamed n c ≡ false) (map (mark n) cs)
All-mark-flagged n [] = tt
All-mark-flagged n (c ∷ cs) = (newly_blamed-mark n c, All-mark-flagged n cs)

All-mark-stays :
    (n : Net) (cs : List Pooled)
    → All (λ c. stays n c ≡ true) cs
    → All (λ c. stays n c ≡ true) (map (mark n) cs)
All-mark-stays n [] h = tt
All-mark-stays n (c ∷ cs) h = (stays-mark n c ∙ h.0, All-mark-stays n cs h.1)

All-stays-live :
    (n : Net) (cs : List Pooled)
    → All (λ c. stays n c ≡ true) cs
    → All (λ c. (usable n c ≡ true) ⊎ (0 < n.open_streams c.circuit)) cs
unfolding stays usable
All-stays-live n [] h = tt
All-stays-live n (c ∷ cs) h = (ground arith, All-stays-live n cs h.1)

pub closed-idle :
    (n : Net) (cs : List Pooled) → All (λ id. n.open_streams id ≡ 0) (closed_circuits n cs)
unfolding stays
closed-idle n [] = tt
closed-idle n (c ∷ cs) = ground (arith, closed-idle n cs)

-- A sweep closes no pooled circuit that has a stream open. It leaves only stubs that are usable, and
-- circuits that are usable or carry streams; every circuit that deserves blame is flagged.
pub retire-IsSwept :
    (n : Net) (s : State)
    → All (λ id. n.open_streams id ≡ 0) (closed_circuits n s.circuits) × IsSwept n (retire n s).0
retire-IsSwept n s = rw (retire-retain n s) (
    let kept = retain (stays n) s.circuits in
    let staying = All-mark-stays n kept (All-retain (stays n) s.circuits) in
    (
      closed-idle n s.circuits,
      record {
        stubs = All-retain (stub_usable n) s.stubs;
        circuits = All-stays-live n (map (mark n) kept) staying;
        flagged = All-mark-flagged n kept;
      },
    ))

-- A second sweep at the same moment closes nothing, drops nothing and blames nobody again.
pub retire-retire : (n : Net) (s : State) → retire n (retire n s).0 ≡ ((retire n s).0, [])
retire-retire n s =
    let kept = retain (stays n) s.circuits in
    let staying = All-mark-stays n kept (All-retain (stays n) s.circuits) in
    let fresh = All-retain (stub_usable n) s.stubs in
    let recent =
      All-retain (λ (p : Prediction). ltb (n.now - p.last) prediction_window) s.predicted in
    rw
      (
        retire-retain n s,
        retire-retain n _,
        retain_self (stub_usable n) (retain (stub_usable n) s.stubs) fresh,
        retain_none (stub_usable n) (retain (stub_usable n) s.stubs) fresh,
        retain_self (stays n) (map (mark n) kept) staying,
        retain_none (stays n) (map (mark n) kept) staying,
        retain_self (λ (p : Prediction). ltb (n.now - p.last) prediction_window) _ recent,
        blame_all_quiet n (map (mark n) kept) (blame_all n s.circuits s.blamed)
            (All-mark-flagged n kept),
        map-mark-mark n kept,
      )
      refl

blame_all-bounded :
    (n : Net) (cs : List Pooled) (blamed : List Blame)
    → length blamed ≤ max_pending_blame
    → length (blame_all n cs blamed) ≤ max_pending_blame
unfolding blame_all note_blame
blame_all-bounded n [] blamed h = h
blame_all-bounded n (c ∷ cs) blamed h =
    blame_all-bounded n cs (note_blame n c blamed)
      (ground (arith, length-append blamed ((c.guard_id, verdict n c) ∷ [])))

-- The list of unread blame never grows past its limit.
pub retire-blame_bounded :
    (n : Net) (s : State)
    → length s.blamed ≤ max_pending_blame
    → length (retire n s).0.blamed ≤ max_pending_blame
retire-blame_bounded n s h = rw (retire-retain n s) (blame_all-bounded n s.circuits s.blamed h)
