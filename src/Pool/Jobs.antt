-- ===== src/Pool/Jobs.antt =====
-- src/tor/pool.rs, `next_job` and `next_jobs`: what the builder should raise next.
use rust_tor_proxy.Prelude.{
  ℕ, zero, suc, ◌+◌, ◌-◌, Bool, true, false, ◌&&◌, ◌||◌, Option, none, some, List, [], ◌∷◌, ◌++◌,
  all, retain, length, ltb, leb, ◌==◌, if◌then◌else◌,
}
use rust_tor_proxy.Pool.{
  Net, allows, Pooled, usable, State, total, max_circuits, clean_target, stub_target,
}
use rust_tor_proxy.Pool.Retire.{retire}

pub data Job : Type 0 where
  stub clean : Job

abbrev unused : Option ℕ → Bool
unused none = true
unused (some at) = false

-- The clean circuits: usable, never used, and open to every port asked for.
unfoldable pub clean_count : Net → List ℕ → List Pooled → ℕ
clean_count n ports cs = length (
    retain (λ c. unused c.first_used && all (λ p. allows c.exit_policy p) ports)
      (retain (usable n) cs))

-- `next_job`, on the state after its sweep.
unfoldable pub next_job : Net → List ℕ → State → Option Job
next_job n ports s =
    let ready = clean_count n ports s.circuits in
    if leb max_circuits (total s)
    then none
    else if ready == 0
    then some clean
    else if length s.stubs == 0
    then some stub
    else if ltb ready clean_target
    then some clean
    else if ltb (length s.stubs) stub_target
    then some stub
    else none

-- The loop of `next_jobs`. Each turn lowers one of the two shortages; `fuel` is their sum.
unfoldable pub fill : ℕ → ℕ → ℕ → List Job → ℕ → ℕ → ℕ → List Job
fill zero limit room jobs budget clean_short stubs_short = jobs
fill (suc fuel) limit room jobs budget clean_short stubs_short =
    let with_stub =
      fill fuel limit room (jobs ++ (stub ∷ [])) (budget + 1) clean_short (stubs_short - 1) in
    let with_clean =
      fill fuel limit room (jobs ++ (clean ∷ [])) (budget + 1) (clean_short - 1) stubs_short in
    if ltb budget limit && ltb (length jobs) (room + 1) && (ltb 0 clean_short || ltb 0 stubs_short)
    then (if ltb 0 stubs_short then with_stub else with_clean)
    else jobs

unfoldable pub fill_from : Net → List ℕ → ℕ → State → Job → List Job
fill_from n ports limit s first =
    let clean_short = clean_target - (clean_count n ports s.circuits + 1) in
    let stubs_short = stub_target - length s.stubs in
    let room = max_circuits - (total s + 1) in
    fill (clean_short + stubs_short) limit room (first ∷ []) 1 clean_short stubs_short

-- `next_jobs`: the state and the circuits closed by the sweep of `next_job`, and the jobs.
unfoldable pub next_jobs : Net → List ℕ → ℕ → State → State × List ℕ × List Job
next_jobs n ports limit s =
    let (s', closing) = retire n s in
    elim (next_job n ports s') [
      | none ↦ (s', closing, [])
      | some first ↦ (s', closing, fill_from n ports limit s' first)
    ]
