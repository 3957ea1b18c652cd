-- ===== src/Pool/Tests.antt =====
-- A pool with two circuits and two stubs, and instances of what is proved of src/tor/pool.rs.
use rust_tor_proxy.Prelude.{
  ℕ, zero, suc, ◌+◌, ◌-◌, min, ◌≤◌, ◌≡◌, refl, true, false, Option, none, some, [], ◌∷◌, ◌==◌,
  if◌then◌else◌, arith,
}
use rust_tor_proxy.Path.Constraints.{empty}
use rust_tor_proxy.Pool.{
  Net, PortPolicy, allows, Stub, Pooled, State, total, usable, verdict, judge, kbps, stub_usable,
  max_circuits, max_pending_blame, stream_limit,
}
use rust_tor_proxy.Pool.Retire.{retire}
use rust_tor_proxy.Pool.Ops.{clear, choose, usable_from, fewest_of, candidates_of}
use rust_tor_proxy.Pool.Jobs.{fill, stub}
use rust_tor_proxy.Pool.Order.{plan, fill-plan}
use rust_tor_proxy.Pool.Outcome.{IsRetired, IsCleared, retire-IsRetired, clear-IsCleared}
use rust_tor_proxy.Pool.Choice.{IsBelow, IsChoice, choose-IsChoice}

-- Circuit 3 is closed, circuit 2 carries a stream, and circuit 4 is slow.
abbrev net : Net
net = record {
  now = 1000000;
  is_closed = λ id. id == 3;
  open_streams = λ id. if id == 2 then 1 else 0;
  delivery = λ id.
      if id == 4
      then record { bytes = 2000000; active_ms = 100000 }
      else record { bytes = 0; active_ms = 0 };
}

abbrev web : PortPolicy
web = record { is_accept = true; ranges = (80, 80) ∷ (443, 443) ∷ [] }

abbrev circuit : ℕ → Pooled
circuit id = record {
  circuit = id;
  exit_policy = web;
  guard_id = 7;
  blamed = false;
  built = 900000;
  first_used = some 950000;
}

abbrev spare : ℕ → Stub
spare id = record { circuit = id; constraints = empty; guard_id = 7; built = 900000 }

abbrev pool : State
pool = record {
  stubs = spare 3 ∷ spare 1 ∷ [];
  circuits = circuit 2 ∷ circuit 4 ∷ [];
  predicted = record { port = 80; last = 999000 } ∷ [];
  onion_in_use = 1;
  blamed = [];
}

-- The closed stub and the slow circuit go.
retire-pool : (retire net pool).1 ≡ 3 ∷ 4 ∷ []
unfolding retire stub_usable verdict judge kbps rust_tor_proxy.Pool.Retire.sweep_stubs
    rust_tor_proxy.Pool.Retire.sweep_circuits rust_tor_proxy.Pool.blames_the_path
retire-pool = refl

retire-IsRetired_example : IsRetired net pool (retire net pool)
retire-IsRetired_example = retire-IsRetired net pool

clear-IsCleared_example : IsCleared net pool (clear net pool)
clear-IsCleared_example = clear-IsCleared net pool

-- A draw that always gives the last number below its bound.
abbrev last_below : ℕ → Option ℕ
last_below zero = none
last_below (suc k) = some k

last_below-IsBelow : IsBelow last_below
last_below-IsBelow zero k e = cc
last_below-IsBelow (suc n) k e = ground arith

choose_crowded : choose last_below net 443 (record pool { onion_in_use = 20 }) ≡ some 0
unfolding choose usable_from fewest_of candidates_of usable verdict judge kbps allows total
    stream_limit
choose_crowded = refl

choose-IsChoice_example : IsChoice net 443 (record pool { onion_in_use = 20 }) 0
choose-IsChoice_example =
    choose-IsChoice last_below net 443 (record pool { onion_in_use = 20 }) 0 last_below-IsBelow
      choose_crowded

choose_spreads : choose last_below net 443 pool ≡ none
unfolding choose usable_from fewest_of candidates_of usable verdict judge kbps allows total
    stream_limit
choose_spreads = refl

usable_busy : usable net (circuit 2) ≡ true
unfolding usable verdict judge kbps
usable_busy = refl

web-allows : allows web 443 ≡ true
unfolding allows
web-allows = refl

total-pool : total pool ≤ max_circuits
unfolding total
total-pool = omega arith

fill-plan_example :
    let n = min 4 (9 + 1) - 1 in
    fill 5 4 9 (stub ∷ []) 1 3 2 ≡ plan (stub ∷ []) (min n 2) (min (n - 2) 3)
fill-plan_example = fill-plan 5 4 9 (stub ∷ []) 3 2 (omega arith)
