-- ===== src/Pool/Retire.antt =====
-- src/tor/pool.rs, `State::retire`: what a sweep drops, closes and blames.
use rust_tor_proxy.Prelude.{
  ℕ, ◌-◌, Bool, true, not, ◌&&◌, List, [], ◌∷◌, ◌++◌, map, retain, length, ltb, ◌==◌, if◌then◌else◌,
}
use rust_tor_proxy.Pool.{
  Net, Stub, stub_usable, Pooled, blames_the_path, verdict, is_keep, Blame, State,
  max_pending_blame, prediction_window,
}

-- Whether the sweep adds an entry for it to the blame list.
unfoldable pub newly_blamed : Net → Pooled → Bool
newly_blamed n c = blames_the_path (verdict n c) && not c.blamed

-- What the closure over `self.circuits` adds to `self.blamed` for a circuit.
unfoldable pub note_blame : Net → Pooled → List Blame → List Blame
unfolding newly_blamed
note_blame n c blamed =
    if newly_blamed n c && ltb (length blamed) max_pending_blame
    then blamed ++ ((c.guard_id, verdict n c) ∷ [])
    else blamed

-- "Once blamed, a circuit must not be blamed again on the next sweep."
unfoldable pub mark : Net → Pooled → Pooled
mark n c = if blames_the_path (verdict n c) then record c { blamed = true } else c

-- The closure over `self.stubs`: what it keeps, and what it pushes to `closing`.
unfoldable pub sweep_stubs : Net → List Stub → List Stub × List ℕ
sweep_stubs n [] = ([], [])
sweep_stubs n (s ∷ ss) =
    let (kept, closing) = sweep_stubs n ss in
    if stub_usable n s then (s ∷ kept, closing) else (kept, s.circuit ∷ closing)

-- What is kept, what is closed, and the blame list.
abbrev pub Swept : Type 0
Swept = List Pooled × List ℕ × List Blame

abbrev keep_circuit : Pooled → Swept → Swept
keep_circuit c (kept, closing, blamed) = (c ∷ kept, closing, blamed)

abbrev close_circuit : Pooled → Swept → Swept
close_circuit c (kept, closing, blamed) = (kept, c.circuit ∷ closing, blamed)

-- The closure over `self.circuits`, called on each circuit in order.
unfoldable pub sweep_circuits : Net → List Pooled → List Blame → Swept
sweep_circuits n [] blamed = ([], [], blamed)
sweep_circuits n (c ∷ cs) blamed =
    let later = sweep_circuits n cs (note_blame n c blamed) in
    if is_keep (verdict n c)
    then keep_circuit c later
    else if blames_the_path (verdict n c)
    then (if n.open_streams c.circuit == 0 then close_circuit c later else keep_circuit c later)
    else if n.open_streams c.circuit == 0
    then close_circuit c later
    else keep_circuit c later

-- `State::retire`: the state and the circuits to close.
unfoldable pub retire : Net → State → State × List ℕ
retire n s =
    let (stubs, closing) = sweep_stubs n s.stubs in
    let (circuits, more, blamed) = sweep_circuits n s.circuits s.blamed in
    (
      record {
        stubs = stubs;
        circuits = map (mark n) circuits;
        predicted = retain (λ p. ltb (n.now - p.last) prediction_window) s.predicted;
        onion_in_use = s.onion_in_use;
        blamed = blamed;
      },
      closing ++ more,
    )
