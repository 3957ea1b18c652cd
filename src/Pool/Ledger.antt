-- ===== src/Pool/Ledger.antt =====
-- src/tor/pool.rs: no operation loses a circuit, closes one that stays, or closes one twice. The
-- handles in the pool and those that an operation closes are counted for each circ_id.
use rust_tor_proxy.Prelude.{
  ℕ, zero, suc, ◌+◌, ◌≡◌, refl, Bool, true, false, not, Option, none, some, List, [], ◌∷◌, ◌++◌,
  map, retain, get_elem?, erase_idx, length, ltb, ◌==◌, arith, Option-cases, inl, inr,
}
use rust_tor_proxy.Pool.{Net, Stub, stub_usable, Pooled, State}
use rust_tor_proxy.Pool.Retire.{retire, mark}
use rust_tor_proxy.Pool.Selected.{stays, closed_stubs, closed_circuits, retire-retain}
use rust_tor_proxy.Pool.Ops.{insert, make_room, evict, oldest_idle, clear}

abbrev pub bit : Bool → ℕ
bit true = 1
bit false = 0

-- How often a circ_id occurs.
abbrev pub count : ℕ → List ℕ → ℕ
count a [] = 0
count a (id ∷ ids) = bit (a == id) + count a ids

abbrev pub stub_ids : List Stub → List ℕ
stub_ids = map (λ s. s.circuit)

abbrev pub pooled_ids : List Pooled → List ℕ
pooled_ids = map (λ c. c.circuit)

abbrev pub held : State → List ℕ
held s = stub_ids s.stubs ++ pooled_ids s.circuits

pub count-append : (a : ℕ) (ids more : List ℕ) → count a ids + count a more ≡ count a (ids ++ more)
count-append a [] more = omega arith
count-append a (id ∷ ids) more = omega (count-append a ids more, arith)

module _ {ℓ} {A : Type ℓ} (id : A → ℕ) (p : A → Bool) where
  count-retain :
      (a : ℕ) (xs : List A)
      → count a (map id (retain p xs)) + count a (map id (retain (λ x. not (p x)) xs))
        ≡ count a (map id xs)
  count-retain a [] = refl
  count-retain a (x ∷ xs) = ground (arith, count-retain a xs)

ids-mark : (n : Net) (cs : List Pooled) → pooled_ids (map (mark n) cs) ≡ pooled_ids cs
unfolding mark
ids-mark n [] = refl
ids-mark n (c ∷ cs) = ground (arith, ids-mark n cs)

-- A sweep accounts for every circuit: of each circ_id, the handles that are still held and those that
-- it closes are together as many as were held before.
pub retire_ledger :
    (n : Net) (s : State) (a : ℕ)
    → count a (held (retire n s).0) + count a (retire n s).1 ≡ count a (held s)
retire_ledger n s a =
    let kept = retain (stays n) s.circuits in
    rw (retire-retain n s, ids-mark n kept)
      (omega (
        arith,
        count-append a (stub_ids (retain (stub_usable n) s.stubs)) (pooled_ids kept),
        count-append a (closed_stubs n s.stubs) (closed_circuits n s.circuits),
        count-append a (stub_ids s.stubs) (pooled_ids s.circuits),
        count-retain (λ t. t.circuit) (stub_usable n) a s.stubs,
        count-retain (λ c. c.circuit) (stays n) a s.circuits,
      ))

erase_ledger :
    (a : ℕ) (cs : List Pooled) (i : ℕ) (c : Pooled)
    → get_elem? cs i ≡ some c
    → count a (pooled_ids (erase_idx cs i)) + bit (a == c.circuit) ≡ count a (pooled_ids cs)
erase_ledger a [] i c e = cc
erase_ledger a (x ∷ cs) zero c e = ground arith
erase_ledger a (x ∷ cs) (suc i) c e = omega (arith, erase_ledger a cs i c e)

evict_idle_ledger :
    (n : Net) (s : State) (a : ℕ) (t : State) (id : ℕ) (x : ℕ × ℕ)
    → oldest_idle n s.circuits ≡ some x
    → (o : Option Pooled) → get_elem? s.circuits x.0 ≡ o
    → evict n s ≡ some (t, id)
    → count a (held t) + bit (a == id) ≡ count a (held s)
unfolding evict
evict_idle_ledger n s a t id x found none at e = ground arith
evict_idle_ledger n s a t id x found (some c) at e =
    let kept = erase_idx s.circuits x.0 in
    ground (
      arith,
      erase_ledger a s.circuits x.0 c at,
      count-append a (stub_ids s.stubs) (pooled_ids s.circuits),
      count-append a (stub_ids s.stubs) (pooled_ids kept),
    )

evict_stub_ledger :
    (n : Net) (s : State) (a : ℕ) (t : State) (id : ℕ) (stubs : List Stub)
    → s.stubs ≡ stubs
    → oldest_idle n s.circuits ≡ none
    → evict n s ≡ some (t, id)
    → count a (held t) + bit (a == id) ≡ count a (held s)
unfolding evict
evict_stub_ledger n s a t id [] at idle e = ground arith
evict_stub_ledger n s a t id (x ∷ rest) at idle e = ground arith

evict_ledger :
    (n : Net) (s : State) (a : ℕ) (t : State) (id : ℕ)
    → evict n s ≡ some (t, id)
    → count a (held t) + bit (a == id) ≡ count a (held s)
evict_ledger n s a t id e = elim (Option-cases (oldest_idle n s.circuits)) [
  | inl none_idle ↦ evict_stub_ledger n s a t id s.stubs refl none_idle e
  | inr (x, found) ↦ evict_idle_ledger n s a t id x found (get_elem? s.circuits x.0) refl e
]

make_room_ledger :
    (fuel : ℕ) (n : Net) (s : State) (a : ℕ)
    → count a (held (make_room fuel n s).0) + count a (make_room fuel n s).1 ≡ count a (held s)
unfolding make_room
make_room_ledger zero n s a = omega arith
make_room_ledger (suc fuel) n s a = elim (Option-cases (evict n s)) [
  | inl stop ↦ ground arith
  | inr ((t, id), e) ↦ ground (arith, evict_ledger n s a t id e, make_room_ledger fuel n t a)
]

pooled_ids-snoc :
    (a : ℕ) (cs : List Pooled) (c : Pooled)
    → count a (pooled_ids (cs ++ (c ∷ []))) ≡ count a (pooled_ids cs) + bit (a == c.circuit)
pooled_ids-snoc a [] c = omega arith
pooled_ids-snoc a (x ∷ cs) c = omega (arith, pooled_ids-snoc a cs c)

-- Inserting a circuit adds it, and closes all that leaves the pool for it: of each circ_id, the handles
-- held afterwards and those closed are together as many as were held, and one more of the new one.
pub insert_ledger :
    (n : Net) (c : Pooled) (s : State) (a : ℕ)
    → count a (held (insert n c s).0) + count a (insert n c s).1
      ≡ count a (held s) + bit (a == c.circuit)
unfolding insert
insert_ledger n c s a =
    let s' = (retire n s).0 in
    let fuel = length s'.circuits + length s'.stubs in
    let t = (make_room fuel n s').0 in
    omega (
      arith,
      retire_ledger n s a,
      make_room_ledger fuel n s' a,
      count-append a (stub_ids t.stubs) (pooled_ids (t.circuits ++ (c ∷ []))),
      count-append a (stub_ids t.stubs) (pooled_ids t.circuits),
      pooled_ids-snoc a t.circuits c,
      count-append a (retire n s).1 (make_room fuel n s').1,
    )

-- Clearing accounts for every circuit but the idle ones: the handles that are held afterwards, those
-- that it closes, and the pooled circuits without a stream, which are neither held nor closed, are
-- together as many as were held before, of each circ_id.
pub clear_ledger :
    (n : Net) (s : State) (a : ℕ)
    → count a (held (clear n s).0)
        + count a (clear n s).1
        + count a (pooled_ids (retain (λ c. not (ltb 0 (n.open_streams c.circuit))) s.circuits))
      ≡ count a (held s)
unfolding clear
clear_ledger n s a = omega (
  arith,
  count-append a (stub_ids s.stubs) (pooled_ids s.circuits),
  count-retain (λ c. c.circuit) (λ c. ltb 0 (n.open_streams c.circuit)) a s.circuits,
)
