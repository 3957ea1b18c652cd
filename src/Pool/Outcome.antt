-- ===== src/Pool/Outcome.antt =====
-- src/tor/pool.rs, `State::retire` and `Pool::clear`: which circuits are held afterwards and which are closed.
use rust_tor_proxy.Prelude.{
  ℕ, ◌+◌, ◌<◌, ◌≡◌, refl, ap, ◌∙◌, Bool, true, false, not, List, [], ◌∷◌, ◌++◌, map, retain, All,
  ltb, ◌==◌, arith, inl, inr, Bool-cases,
}
use rust_tor_proxy.Pool.{
  Net, Verdict, stub_usable, Pooled, usable, State, is_keep, verdict, blames_the_path,
}
use rust_tor_proxy.Pool.Retire.{retire, mark}
use rust_tor_proxy.Pool.Selected.{stays, closed_circuits, retire-retain}
use rust_tor_proxy.Pool.Ops.{clear}
use rust_tor_proxy.Pool.Ledger.{count, held, stub_ids, pooled_ids, retire_ledger, clear_ledger}
use rust_tor_proxy.Pool.Sweep.{
  IsSwept, retire-IsSwept, verdict-mark, circuit-mark, mark_quiet, closed-idle,
}

-- Whether a stream is open on the circuit.
abbrev pub is_busy : Net → Pooled → Bool
is_busy n c = ltb 0 (n.open_streams c.circuit)

-- What a sweep of the state `s` returns: the state that it leaves and the circuits that it closes.
pub record IsRetired (n : Net) (s : State) (r : State × List ℕ) : Type 0 where
  -- Of each circ_id, the handles held and those closed are together as many as were held.
  pub ledger : (a : ℕ) → count a (held r.0) + count a r.1 ≡ count a (held s)
  -- The usable stubs are kept, and the others closed.
  pub stubs : r.0.stubs ≡ retain (stub_usable n) s.stubs
  pub ids : List ℕ
  pub closed : r.1 ≡ stub_ids (retain (λ t. not (stub_usable n t)) s.stubs) ++ ids
  -- No pooled circuit with a stream is closed: all of them are still held, in their order.
  pub idle : All (λ id. n.open_streams id ≡ 0) ids
  pub busy :
      pooled_ids (retain (is_busy n) r.0.circuits) ≡ pooled_ids (retain (is_busy n) s.circuits)
  -- The circuits that may be used again are kept as they are.
  pub good : retain (usable n) r.0.circuits ≡ retain (usable n) s.circuits
  pub swept : IsSwept n r.0

busy-kept :
    (n : Net) (cs : List Pooled)
    → pooled_ids (retain (is_busy n) (map (mark n) (retain (stays n) cs)))
      ≡ pooled_ids (retain (is_busy n) cs)
unfolding stays
busy-kept n [] = refl
busy-kept n (c ∷ cs) = ground (arith, busy-kept n cs, circuit-mark n c)

keep_quiet : (v : Verdict) → is_keep v ≡ true → blames_the_path v ≡ false
unfolding blames_the_path
keep_quiet v h = ground arith

good-kept :
    (n : Net) (cs : List Pooled)
    → retain (usable n) (map (mark n) (retain (stays n) cs)) ≡ retain (usable n) cs
unfolding stays usable
good-kept n [] = refl
good-kept n (c ∷ cs) = elim (Bool-cases (is_keep (verdict n c))) [
  | inl e ↦
      rw (e, mark_quiet n c (inl (keep_quiet (verdict n c) e)), e)
        (ap (λ r. c ∷ r) (good-kept n cs))
  | inr e ↦ elim (Bool-cases (n.open_streams c.circuit == 0)) [
    | inl o ↦ rw (e, o) (good-kept n cs)
    | inr o ↦ rw (e, o, verdict-mark n c, e) (good-kept n cs)
  ]
]

-- A sweep loses no circuit and closes none twice. It keeps exactly the stubs that are usable and closes
-- the others; it closes no pooled circuit that has a stream open, and keeps all those, and all that are
-- usable, in their order. What it keeps is usable or has a stream, and what deserves blame is flagged.
pub retire-IsRetired : (n : Net) (s : State) → IsRetired n s (retire n s)
retire-IsRetired n s =
    let e = retire-retain n s in
    record {
      ledger = retire_ledger n s;
      stubs = ap (λ r. r.0.stubs) e;
      ids = closed_circuits n s.circuits;
      closed = ap (λ r. r.1) e;
      idle = closed-idle n s.circuits;
      busy = ap (λ r. pooled_ids (retain (is_busy n) r.0.circuits)) e ∙ busy-kept n s.circuits;
      good = ap (λ r. retain (usable n) r.0.circuits) e ∙ good-kept n s.circuits;
      swept = (retire-IsSwept n s).1;
    }

-- What `clear` returns.
pub record IsCleared (n : Net) (s : State) (r : State × List ℕ) : Type 0 where
  -- Every stub is closed and none is left.
  pub stubs : r.0.stubs ≡ []
  pub closed : r.1 ≡ stub_ids s.stubs
  -- The circuits that are left are the ones with a stream, in their order.
  pub circuits : All (λ c. 0 < n.open_streams c.circuit) r.0.circuits
  pub busy : retain (is_busy n) r.0.circuits ≡ retain (is_busy n) s.circuits
  -- A circuit without a stream is neither held nor closed: of each circ_id the three add up.
  pub ledger :
      (a : ℕ)
      → count a (held r.0)
          + count a r.1
          + count a (pooled_ids (retain (λ c. not (is_busy n c)) s.circuits))
        ≡ count a (held s)

all_busy :
    (n : Net) (cs : List Pooled) → All (λ c. 0 < n.open_streams c.circuit) (retain (is_busy n) cs)
all_busy n [] = tt
all_busy n (c ∷ cs) = ground (arith, all_busy n cs)

retain-busy :
    (n : Net) (cs : List Pooled)
    → retain (is_busy n) (retain (is_busy n) cs) ≡ retain (is_busy n) cs
retain-busy n [] = refl
retain-busy n (c ∷ cs) = ground (arith, retain-busy n cs)

-- Clearing closes every stub and nothing else, and keeps exactly the circuits that have a stream open.
-- The pooled circuits without one are left out of the pool and not closed either.
pub clear-IsCleared : (n : Net) (s : State) → IsCleared n s (clear n s)
unfolding clear
clear-IsCleared n s = record {
  stubs = refl;
  closed = refl;
  circuits = all_busy n s.circuits;
  busy = retain-busy n s.circuits;
  ledger = clear_ledger n s;
}
