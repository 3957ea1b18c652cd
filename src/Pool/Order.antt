-- ===== src/Pool/Order.antt =====
-- src/tor/pool.rs, `next_jobs`: the order of the jobs.
use rust_tor_proxy.Prelude.{
  ℕ, zero, suc, ◌+◌, ◌-◌, ◌≤◌, ◌≡◌, refl, ap, ap₂, sym, ◌∙◌, inl, inr, min, Bool, true, false, ◌&&◌,
  ◌||◌, List, [], ◌∷◌, ◌++◌, append_assoc, append-nil, length, length-append, replicate, ltb,
  if◌then◌else◌, arith, Bool-cases,
}
use rust_tor_proxy.Pool.Jobs.{Job, stub, clean, fill}

-- Some jobs, then stubs, then clean circuits.
abbrev pub plan : List Job → ℕ → ℕ → List Job
plan jobs stubs cleans = jobs ++ (replicate stubs stub ++ replicate cleans clean)

plan-same : (jobs : List Job) {a b c d : ℕ} → a ≡ c → b ≡ d → plan jobs a b ≡ plan jobs c d
plan-same jobs p q = ap₂ (plan jobs) p q

plan-none : (jobs : List Job) (a b : ℕ) → a ≡ 0 → b ≡ 0 → jobs ≡ plan jobs a b
plan-none jobs a b p q = sym (plan-same jobs p q ∙ append-nil jobs)

plan-stub : (jobs : List Job) (a b : ℕ) → plan (jobs ++ (stub ∷ [])) a b ≡ plan jobs (suc a) b
plan-stub jobs a b = append_assoc jobs (stub ∷ []) (replicate a stub ++ replicate b clean)

plan-clean : (jobs : List Job) (b : ℕ) → plan (jobs ++ (clean ∷ [])) 0 b ≡ plan jobs 0 (suc b)
plan-clean jobs b = append_assoc jobs (clean ∷ []) (replicate b clean)

abbrev goes_on : ℕ → ℕ → List Job → ℕ → ℕ → Bool
goes_on limit room jobs cs ss =
    ltb (length jobs) limit && ltb (length jobs) (room + 1) && (ltb 0 cs || ltb 0 ss)

fill-stop :
    (fuel limit room : ℕ) (jobs : List Job) (cs ss : ℕ)
    → goes_on limit room jobs cs ss ≡ false
    → fill (suc fuel) limit room jobs (length jobs) cs ss ≡ jobs
unfolding fill
fill-stop fuel limit room jobs cs ss e = rw e refl

fill-more :
    (fuel limit room : ℕ) (jobs : List Job) (cs ss : ℕ)
    → goes_on limit room jobs cs ss ≡ true
    → fill (suc fuel) limit room jobs (length jobs) cs ss ≡ (
        if ltb 0 ss
        then fill fuel limit room (jobs ++ (stub ∷ [])) (length jobs + 1) cs (ss - 1)
        else fill fuel limit room (jobs ++ (clean ∷ [])) (length jobs + 1) (cs - 1) ss)
unfolding fill
fill-more fuel limit room jobs cs ss e = rw e refl

-- The loop of `next_jobs` does not alternate: as far as its bounds allow, it adds every stub that is
-- short before the first further clean circuit.
pub fill-plan :
    (fuel limit room : ℕ) (jobs : List Job) (cs ss : ℕ)
    → cs + ss ≤ fuel
    → let n = min limit (room + 1) - length jobs in
      fill fuel limit room jobs (length jobs) cs ss ≡ plan jobs (min n ss) (min (n - ss) cs)
fill-plan zero limit room jobs cs ss h =
    let n = min limit (room + 1) - length jobs in
    unfold fill in plan-none jobs (min n ss) (min (n - ss) cs) (omega arith) (omega arith)
fill-plan (suc fuel) limit room jobs cs ss h =
    let n = min limit (room + 1) - length jobs in
    elim (Bool-cases (goes_on limit room jobs cs ss)) [
      | inr stop ↦
          fill-stop fuel limit room jobs cs ss stop
          ∙ plan-none jobs (min n ss) (min (n - ss) cs) (ground arith) (ground arith)
      | inl more ↦ elim (Bool-cases (ltb 0 ss)) [
        | inl s ↦
            let js = jobs ++ (stub ∷ []) in
            let len : length jobs + 1 ≡ length js = sym (length-append jobs (stub ∷ [])) in
            let n' = min limit (room + 1) - length js in
            fill-more fuel limit room jobs cs ss more
            ∙ rw s (ap (λ l. fill fuel limit room js l cs (ss - 1)) len)
            ∙ fill-plan fuel limit room js cs (ss - 1) (ground arith)
            ∙ plan-stub jobs (min n' (ss - 1)) (min (n' - (ss - 1)) cs)
            ∙ plan-same jobs {a = suc (min n' (ss - 1))} {b = min (n' - (ss - 1)) cs} {c = min n ss}
                {d = min (n - ss) cs} (ground (arith, len)) (ground (arith, len))
        | inr s ↦
            let js = jobs ++ (clean ∷ []) in
            let len : length jobs + 1 ≡ length js = sym (length-append jobs (clean ∷ [])) in
            let n' = min limit (room + 1) - length js in
            fill-more fuel limit room jobs cs ss more
            ∙ rw s (ap (λ l. fill fuel limit room js l (cs - 1) ss) len)
            ∙ fill-plan fuel limit room js (cs - 1) ss (ground arith)
            ∙ plan-same js {a = min n' ss} {b = min (n' - ss) (cs - 1)} {c = 0}
                {d = min (n' - ss) (cs - 1)} (ground arith) refl
            ∙ plan-clean jobs (min (n' - ss) (cs - 1))
            ∙ plan-same jobs {a = 0} {b = suc (min (n' - ss) (cs - 1))} {c = min n ss}
                {d = min (n - ss) cs} (ground (arith, len)) (ground (arith, len))
      ]
    ]
