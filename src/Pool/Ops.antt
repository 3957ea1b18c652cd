-- ===== src/Pool/Ops.antt =====
-- src/tor/pool.rs, `impl Pool`: what requests and the builder do to the state under its lock.
-- `rand::below` is a parameter: `none` is its error, and a number is taken to be below its bound.
use rust_tor_proxy.Prelude.{
  ℕ, zero, suc, ◌+◌, Bool, false, not, ◌&&◌, Option, none, some, List, [], ◌∷◌, ◌++◌, map, retain,
  length, get_elem?, get_or, erase_idx, ltb, leb, ◌==◌, if◌then◌else◌,
}
use rust_tor_proxy.Path.Constraints.{PathConstraints}
use rust_tor_proxy.Pool.{
  Net, PortPolicy, allows, Stub, Pooled, usable, unresponsive, Prediction, Blame, State, total,
  stream_limit, max_circuits, max_pending_blame, default_ports,
}
use rust_tor_proxy.Pool.Retire.{retire}

-- `Pool::new`
abbrev pub new : State
new = record { stubs = []; circuits = []; predicted = []; onion_in_use = 0; blamed = [] }

-- `note_port`, on the predictions: an old entry is renewed, a new port appended.
unfoldable pub note_port_in : ℕ → ℕ → List Prediction → List Prediction
note_port_in now port [] = record { port = port; last = now } ∷ []
note_port_in now port (p ∷ ps) =
    if p.port == port then record p { last = now } ∷ ps else p ∷ note_port_in now port ps

unfoldable pub note_port : ℕ → ℕ → State → State
unfolding note_port_in
note_port now port s = record s { predicted = note_port_in now port s.predicted }

abbrev ports_or_default : List Prediction → List ℕ
ports_or_default [] = default_ports
ports_or_default (p ∷ ps) = map (λ q. q.port) (p ∷ ps)

-- `predicted_ports`
unfoldable pub predicted_ports : Net → State → State × List ℕ × List ℕ
predicted_ports n s = let (s', closing) = retire n s in (s', closing, ports_or_default s'.predicted)

-- The pass of `circuit_for`: the index and the load of each circuit that may take the stream.
unfoldable pub usable_from : Net → ℕ → ℕ → List Pooled → List (ℕ × ℕ)
usable_from n port index [] = []
usable_from n port index (c ∷ cs) =
    if usable n c && allows c.exit_policy port
    then (index, n.open_streams c.circuit) ∷ usable_from n port (index + 1) cs
    else usable_from n port (index + 1) cs

abbrev smaller : ℕ → Option ℕ → Option ℕ
smaller a none = some a
smaller a (some b) = some (if ltb b a then b else a)

-- `usable.iter().map(|(_, n)| *n).min()`
unfoldable pub fewest_of : List (ℕ × ℕ) → Option ℕ
fewest_of [] = none
fewest_of ((i, load) ∷ rest) = smaller load (fewest_of rest)

-- The indices of the circuits that carry the fewest streams.
unfoldable pub candidates_of : ℕ → List (ℕ × ℕ) → List ℕ
candidates_of fewest pool = map (λ e. e.0) (retain (λ e. e.1 == fewest) pool)

-- The position that `rand::below` draws; without randomness the first.
abbrev pub or_first : Option ℕ → ℕ
or_first none = 0
or_first (some k) = k

abbrev pub drawn : (ℕ → Option ℕ) → ℕ → ℕ
drawn below count = or_first (below count)

abbrev first_use : ℕ → Option ℕ → Option ℕ
first_use now none = some now
first_use now (some at) = some at

-- `first_used.get_or_insert_with(Instant::now)` on the circuit at an index.
unfoldable pub use_at : ℕ → ℕ → List Pooled → List Pooled
use_at now i [] = []
use_at now zero (c ∷ cs) = record c { first_used = first_use now c.first_used } ∷ cs
use_at now (suc i) (c ∷ cs) = c ∷ use_at now i cs

abbrev circuit_of : Option Pooled → Option ℕ
circuit_of none = none
circuit_of (some c) = some c.circuit

-- `circuit_for`, after the sweep: the index that is chosen, `none` where a new circuit is wanted.
unfoldable pub choose : (ℕ → Option ℕ) → Net → ℕ → State → Option ℕ
choose below n port s =
    let pool = usable_from n port 0 s.circuits in
    elim (fewest_of pool) [
      | none ↦ none
      | some fewest ↦
          if leb (stream_limit (length pool)) fewest && ltb (total s) max_circuits
          then none
          else (let candidates = candidates_of fewest pool in
              some (get_or candidates (drawn below (length candidates)) 0))
    ]

-- `circuit_for`: the state, the circuits that the sweep closes, and the circuit handed out.
unfoldable pub circuit_for : (ℕ → Option ℕ) → Net → ℕ → State → State × List ℕ × Option ℕ
circuit_for below n port s =
    let (s', closing) = retire n s in
    elim (choose below n port s') [
      | none ↦ (s', closing, none)
      | some pick ↦ (
        record s' { circuits = use_at n.now pick s'.circuits },
        closing,
        circuit_of (get_elem? s'.circuits pick),
      )
    ]

abbrev next_index : Option ℕ → Option ℕ
next_index none = none
next_index (some i) = some (suc i)

-- The first circuit with this circ_id.
unfoldable pub position_of : ℕ → List Pooled → Option ℕ
position_of id [] = none
position_of id (c ∷ cs) =
    let rest = next_index (position_of id cs) in if c.circuit == id then some 0 else rest

unfoldable pub blame_dead : Option Pooled → List Blame → List Blame
blame_dead none blamed = blamed
blame_dead (some c) blamed =
    if not c.blamed && ltb (length blamed) max_pending_blame
    then blamed ++ ((c.guard_id, unresponsive) ∷ [])
    else blamed

-- `condemn`; the circuit itself is closed in any case.
unfoldable pub condemn : ℕ → State → State × List ℕ
condemn id s = elim (position_of id s.circuits) [
  | none ↦ (s, id ∷ [])
  | some i ↦ (
    record s {
      circuits = erase_idx s.circuits i;
      blamed = blame_dead (get_elem? s.circuits i) s.blamed;
    },
    id ∷ [],
  )
]

-- `take_blame`
unfoldable pub take_blame : State → State × List Blame
take_blame s = (record s { blamed = [] }, s.blamed)

-- The first stub that fits, and the others.
unfoldable pub pick_stub : (PathConstraints → Bool) → List Stub → Option Stub × List Stub
pick_stub fits [] = (none, [])
pick_stub fits (s ∷ ss) =
    let (found, rest) = pick_stub fits ss in
    if fits s.constraints then (some s, ss) else (found, s ∷ rest)

-- `take_stub`
unfoldable pub take_stub : Net → (PathConstraints → Bool) → State → State × List ℕ × Option Stub
take_stub n fits s =
    let (s', closing) = retire n s in
    let (found, rest) = pick_stub fits s'.stubs in (record s' { stubs = rest }, closing, found)

-- `add_stub`
unfoldable pub add_stub : Stub → State → State × List ℕ
add_stub stub s =
    if leb max_circuits (total s)
    then (s, stub.circuit ∷ [])
    else (record s { stubs = s.stubs ++ (stub ∷ []) }, [])

-- The idle circuit that was built first: its index and when it was built.
abbrev older : ℕ → Option (ℕ × ℕ) → Option (ℕ × ℕ)
older built none = some (0, built)
older built (some (i, other)) = if ltb other built then some (suc i, other) else some (0, built)

abbrev later : Option (ℕ × ℕ) → Option (ℕ × ℕ)
later none = none
later (some (i, built)) = some (suc i, built)

-- `filter(open_streams == 0).min_by_key(built)`: of equal ones the first.
unfoldable pub oldest_idle : Net → List Pooled → Option (ℕ × ℕ)
oldest_idle n [] = none
oldest_idle n (c ∷ cs) =
    let rest = oldest_idle n cs in
    if n.open_streams c.circuit == 0 then older c.built rest else later rest

-- One turn of the loop of `insert`, `none` at its `break`.
unfoldable pub evict : Net → State → Option (State × ℕ)
evict n s = elim (oldest_idle n s.circuits) [
  | some (i, built) ↦ elim (get_elem? s.circuits i) [
    | none ↦ none
    | some c ↦ some (record s { circuits = erase_idx s.circuits i }, c.circuit)
  ]
  | none ↦ elim s.stubs [ [] ↦ none | stub ∷ rest ↦ some (record s { stubs = rest }, stub.circuit) ]
]

-- The loop of `insert`, on fuel; `Budget` shows that the number of entries is enough.
unfoldable pub make_room : ℕ → Net → State → State × List ℕ
make_room zero n s = (s, [])
make_room (suc fuel) n s =
    let evicted : State × List ℕ = elim (evict n s) [
      | none ↦ (s, [])
      | some (s', id) ↦ let (t, ids) = make_room fuel n s' in (t, id ∷ ids)
    ] in
    if leb max_circuits (total s) then evicted else (s, [])

abbrev pub fresh_circuit : Net → ℕ → PortPolicy → ℕ → Bool → Pooled
fresh_circuit n id policy guard used = record {
  circuit = id;
  exit_policy = policy;
  guard_id = guard;
  blamed = false;
  built = n.now;
  first_used = if used then some n.now else none;
}

-- `insert`
unfoldable pub insert : Net → Pooled → State → State × List ℕ
insert n c s =
    let (s', closing) = retire n s in
    let (t, evicted) = make_room (length s'.circuits + length s'.stubs) n s' in
    (record t { circuits = t.circuits ++ (c ∷ []) }, closing ++ evicted)

-- `discard`
unfoldable pub discard : ℕ → State → State × List ℕ
discard id s = (
  record s {
    circuits = retain (λ c. not (c.circuit == id)) s.circuits;
    stubs = retain (λ t. not (t.circuit == id)) s.stubs;
  },
  id ∷ [],
)

-- `set_onion_in_use`
unfoldable pub set_onion_in_use : ℕ → State → State
set_onion_in_use count s = record s { onion_in_use = count }

-- `clear`: idle circuits are dropped without being closed here.
unfoldable pub clear : Net → State → State × List ℕ
clear n s = (
  record s { stubs = []; circuits = retain (λ c. ltb 0 (n.open_streams c.circuit)) s.circuits },
  map (λ t. t.circuit) s.stubs,
)

-- `counts`
unfoldable pub counts : Net → State → State × List ℕ × ℕ × ℕ
counts n s = let (s', closing) = retire n s in (s', closing, length s'.stubs, length s'.circuits)
