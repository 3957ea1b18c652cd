-- ===== src/Pool/Budget.antt =====
-- src/tor/pool.rs, `insert`, `add_stub` and `next_jobs`: the bound on circuits of every kind.
use native.Mathlib.Nat.{le_refl}
use rust_tor_proxy.Prelude.{
  subst, subst⁻¹, ℕ, zero, suc, ◌+◌, ◌-◌, ◌≤◌, ◌<◌, ◌≡◌, refl, ap, ◌⊎◌, inl, inr, min, max, true,
  false, Option, none, some, List, [], ◌∷◌, ◌++◌, length, length-append, length-erase_idx,
  get_elem?, erase_idx, All, leb, arith, Bool-cases, Option-cases,
}
use rust_tor_proxy.Pool.{Net, Stub, Pooled, State, total, max_circuits, stub_target, clean_target}
use rust_tor_proxy.Pool.Retire.{retire}
use rust_tor_proxy.Pool.Ops.{add_stub, oldest_idle, evict, make_room, insert}
use rust_tor_proxy.Pool.Jobs.{Job, stub, clean, next_job, fill, fill_from, next_jobs, clean_count}

-- Adding a stub never takes the pool past its limit.
pub add_stub_budget :
    (t : Stub) (s : State) → total s ≤ max_circuits → (total (add_stub t s).0 ≤ max_circuits)
unfolding add_stub total
add_stub_budget t s h = ground (arith, length-append s.stubs (t ∷ []))

oldest_idle_lt :
    (n : Net) (cs : List Pooled) (i built : ℕ) → oldest_idle n cs ≡ some (i, built) → i < length cs
unfolding oldest_idle
oldest_idle_lt n [] i built e = cc
oldest_idle_lt n (c ∷ cs) i built e = elim (Option-cases (oldest_idle n cs)) [
  | inl r ↦ ground arith
  | inr ((j, b), r) ↦ ground (arith, oldest_idle_lt n cs j b r)
]

-- Where no circuit is idle, every one carries a stream.
oldest_idle-none :
    (n : Net) (cs : List Pooled)
    → oldest_idle n cs ≡ none
    → All (λ c. 0 < n.open_streams c.circuit) cs
unfolding oldest_idle
oldest_idle-none n [] e = tt
oldest_idle-none n (c ∷ cs) e = elim (Option-cases (oldest_idle n cs)) [
  | inl r ↦ (ground arith, oldest_idle-none n cs r)
  | inr (x, r) ↦ absurd (ground arith)
]

get_elem?-lt {ℓ} :
    {A : Type ℓ} (xs : List A) (i : ℕ) → i < length xs → (x : A) × (get_elem? xs i ≡ some x)
get_elem?-lt [] i h = elim h [ ]
get_elem?-lt (x ∷ xs) zero h = (x, refl)
get_elem?-lt (x ∷ xs) (suc i) h = get_elem?-lt xs i (omega arith)

-- One turn of the loop takes one entry, or there was nothing to take.
abbrev Evicted : Net → State → Option (State × ℕ) → Type 0
Evicted n s none = (s.stubs ≡ []) × All (λ c. 0 < n.open_streams c.circuit) s.circuits
Evicted n s (some (t, id)) =
    (length t.circuits + length t.stubs + 1 ≡ length s.circuits + length s.stubs)
    × (t.onion_in_use ≡ s.onion_in_use)

evict_stub-Evicted :
    (n : Net) (s : State) (stubs : List Stub)
    → s.stubs ≡ stubs
    → oldest_idle n s.circuits ≡ none
    → Evicted n s (evict n s)
evict_stub-Evicted n s [] at e =
    let eq : evict n s ≡ none = unfold evict in ground arith in
    subst⁻¹ (Evicted n s) eq (at, oldest_idle-none n s.circuits e)
evict_stub-Evicted n s (t ∷ rest) at e =
    let eq : evict n s ≡ some (record s { stubs = rest }, t.circuit) =
      unfold evict in ground arith in
    subst⁻¹ (Evicted n s) eq (omega (arith, ap length at), refl)

evict-Evicted : (n : Net) (s : State) → Evicted n s (evict n s)
evict-Evicted n s = elim (Option-cases (oldest_idle n s.circuits)) [
  | inl e ↦ evict_stub-Evicted n s s.stubs refl e
  | inr ((i, built), e) ↦
      let lt = oldest_idle_lt n s.circuits i built e in
      let (c, at) = get_elem?-lt s.circuits i lt in
      let eq : evict n s ≡ some (record s { circuits = erase_idx s.circuits i }, c.circuit) =
        unfold evict in ground arith in
      subst⁻¹ (Evicted n s) eq (omega (arith, length-erase_idx s.circuits i lt), refl)
]

-- What the loop of `insert` achieves.
pub data Room (n : Net) (t : State) : Type 0 where
  free : total t < max_circuits → Room n t
  busy : t.stubs ≡ [] → All (λ c. 0 < n.open_streams c.circuit) t.circuits → Room n t

length-zero {ℓ} : {A : Type ℓ} (xs : List A) → length xs ≤ 0 → xs ≡ []
length-zero [] h = refl
length-zero (x ∷ xs) h = elim h [ ]

make_room_stops :
    (fuel : ℕ) (n : Net) (s : State)
    → leb max_circuits (total s) ≡ false
    → (make_room (suc fuel) n s).0 ≡ s
unfolding make_room
make_room_stops fuel n s e = rw e refl

make_room_break :
    (fuel : ℕ) (n : Net) (s : State) → evict n s ≡ none → (make_room (suc fuel) n s).0 ≡ s
unfolding make_room
make_room_break fuel n s e = ground arith

make_room_turn :
    (fuel : ℕ) (n : Net) (s t : State) (id : ℕ)
    → leb max_circuits (total s) ≡ true
    → evict n s ≡ some (t, id)
    → (make_room (suc fuel) n s).0 ≡ (make_room fuel n t).0
unfolding make_room
make_room_turn fuel n s t id m e = ground arith

-- As much fuel as there are entries is enough: the loop stops by its test or at its `break`.
make_room-Room :
    (fuel : ℕ) (n : Net) (s : State)
    → length s.circuits + length s.stubs ≤ fuel
    → Room n (make_room fuel n s).0
make_room-Room zero n s h =
    unfold make_room in
    busy (length-zero s.stubs (omega arith))
      (subst⁻¹ (All (λ c. 0 < n.open_streams c.circuit)) (length-zero s.circuits (omega arith)) tt)
make_room-Room (suc fuel) n s h = elim (Bool-cases (leb max_circuits (total s))) [
  | inr e ↦ subst⁻¹ (Room n) (make_room_stops fuel n s e) (free (ground arith))
  | inl e ↦ elim (Option-cases (evict n s)) [
    | inl stop ↦
        let (no_stub, all_busy) = subst (Evicted n s) stop (evict-Evicted n s) in
        subst⁻¹ (Room n) (make_room_break fuel n s stop) (busy no_stub all_busy)
    | inr ((t, id), turn) ↦
        let fewer = subst (Evicted n s) turn (evict-Evicted n s) in
        subst⁻¹ (Room n) (make_room_turn fuel n s t id e turn)
          (make_room-Room fuel n t (omega (arith, fewer.0)))
  ]
]

-- After an insertion the pool is within its limit, or every stub is gone and every other circuit
-- carries a stream: a new circuit takes the total over the limit rather than cut a live one.
pub insert_budget :
    (n : Net) (c : Pooled) (s : State)
    → let r = (insert n c s).0 in
      (kept : List Pooled) × (r.circuits ≡ kept ++ (c ∷ []))
      × ((total r ≤ max_circuits) ⊎ ((r.stubs ≡ []) × All (λ d. 0 < n.open_streams d.circuit) kept))
unfolding insert
insert_budget n c s =
    let s' = (retire n s).0 in
    let t = (make_room (length s'.circuits + length s'.stubs) n s').0 in
    (t.circuits, refl, outcome t (make_room-Room _ n s' (le_refl _)))
  where
    outcome :
        (t : State)
        → Room n t
        → (total (record t { circuits = t.circuits ++ (c ∷ []) }) ≤ max_circuits)
          ⊎ ((t.stubs ≡ []) × All (λ d. 0 < n.open_streams d.circuit) t.circuits)
    outcome t (free h) = inl (unfold total in omega (arith, h, length-append t.circuits (c ∷ [])))
    outcome t (busy a b) = inr (a, b)

-- How many jobs the loop of `next_jobs` ends with: the smallest of its three bounds, or as many as
-- it began with.
length-fill :
    (fuel limit room : ℕ) (jobs : List Job) (clean_short stubs_short : ℕ)
    → clean_short + stubs_short ≤ fuel
    → length (fill fuel limit room jobs (length jobs) clean_short stubs_short)
      ≡ max (length jobs) (min (min limit (room + 1)) (length jobs + clean_short + stubs_short))
unfolding fill
length-fill zero limit room jobs cs ss h = omega arith
length-fill (suc fuel) limit room jobs cs ss h = ground (
  arith,
  length-append jobs (stub ∷ []),
  length-append jobs (clean ∷ []),
  length-fill fuel limit room (jobs ++ (stub ∷ [])) cs (ss - 1),
  length-fill fuel limit room (jobs ++ (clean ∷ [])) (cs - 1) ss,
)

next_job_room :
    (n : Net) (ports : List ℕ) (s : State) (j : Job)
    → next_job n ports s ≡ some j
    → total s < max_circuits
unfolding next_job
next_job_room n ports s j e = ground arith

-- The builder is never asked for more than `limit` jobs at once (one at least, if there is work), and
-- the circuits that it raises never take the pool past its limit, those already held included.
pub next_jobs_budget :
    (n : Net) (ports : List ℕ) (limit : ℕ) (s : State)
    → let (s', closing, jobs) = next_jobs n ports limit s in
      (length jobs ≤ max 1 limit) × ((jobs ≡ []) ⊎ (total s' + length jobs ≤ max_circuits))
unfolding next_jobs fill_from
next_jobs_budget n ports limit s =
    let s' = (retire n s).0 in
    let ready = clean_count n ports s'.circuits in
    let stubs_short = stub_target - length s'.stubs in
    let clean_short = clean_target - (ready + 1) in
    let room = max_circuits - (total s' + 1) in
    elim (Option-cases (next_job n ports s')) [
      | inl e ↦ ground arith
      | inr (j, e) ↦ ground (
        arith,
        next_job_room n ports s' j e,
        length-fill (clean_short + stubs_short) limit room (j ∷ []) clean_short stubs_short,
      )
    ]
