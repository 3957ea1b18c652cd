-- ===== src/Hs/Shared.antt =====
-- Which shared random value goes with which time period.
use rust_tor_proxy.Prelude.{
  ℕ, ◌-◌, ◌/◌, ◌%◌, ◌≤◌, ◌≡◌, ap, arith, Bool-cases, inl, inr, some, List, leb,
}
use rust_tor_proxy.Hs.Ring.{containing, SharedRandom, shared_random_value}

-- A consensus of day `t / 86400`, where the authorities agree on one value each midnight.
abbrev pub published : (ℕ → List ℕ) → ℕ → SharedRandom
published values t = record {
  valid_after = t;
  shared_rand_current = some (values (t / 86400));
  shared_rand_previous = some (values (t / 86400 - 1));
}

-- Where the authorities publish a value each midnight and a period is a day, every consensus of period N, on
-- either side of midnight, gives the value that was current when the period began: that of day N.
pub shared_random_value-published :
    (sha3_256 : List ℕ → List ℕ) (values : ℕ → List ℕ) (t : ℕ)
    → 86400 ≤ t
    → shared_random_value sha3_256 (published values t) (containing t 1440)
      ≡ values (containing t 1440).number
unfolding shared_random_value containing
shared_random_value-published sha3_256 values t late = elim (Bool-cases (leb 43200 (t % 86400))) [
  | inl afternoon ↦
      let day : t / 86400 ≡ (t / 60 - 720) / 1440 = ground arith in rw (afternoon) (ap values day)
  | inr morning ↦
      let day : t / 86400 - 1 ≡ (t / 60 - 720) / 1440 = ground arith in rw (morning) (ap values day)
]
