-- ===== src/Guards/Tests.antt =====
-- Runs of the guards, and instances of what is proved of them.
use rust_tor_proxy.Prelude.{ℕ, suc, ◌≡◌, refl, arith, true, none, some, [], ◌∷◌, length}
use rust_tor_proxy.Guards.{
  GuardEntry, Guards, mark_failed, is_demoted, find_identity, next_candidate, decide, choose,
  add_guard, max_guards, strike, least_failed, use_guard,
}
use rust_tor_proxy.Guards.Candidate.{
  Found, is_ready, next_candidate-Found, mark_failed-none, add_guard-decide,
}

abbrev failed_entry : ℕ → ℕ → GuardEntry
failed_entry identity at = record {
  identity = identity;
  strikes = [];
  demoted_unix = none;
  contact = none;
  failed_at = some at;
}

abbrev two_failed : Guards
two_failed = record {
  entries = failed_entry 11 900000000 ∷ failed_entry 12 950000000 ∷ [];
  in_use = none;
}

next_candidate-Found_example :
    Found
      (is_ready 1000000000 1788345000)
      two_failed.entries
      (next_candidate 1000000000 1788345000 two_failed)
next_candidate-Found_example = next_candidate-Found 1000000000 1788345000 two_failed

two_choose : decide 1000000000 1788345000 two_failed ≡ choose (11 ∷ 12 ∷ [])
unfolding decide next_candidate find_identity is_demoted
two_choose = refl

add_guard-decide_example : length (add_guard 22 (add_guard 21 two_failed)).entries ≡ suc max_guards
add_guard-decide_example =
    add_guard-decide 1000000000 1788345000 21 22 two_failed (11 ∷ 12 ∷ []) two_choose refl refl refl
      (omega arith)

third_strike : (strike (10 ∷ 20 ∷ []) 30).1 ≡ true
unfolding strike
third_strike = refl

-- After a restart a demoted guard has not failed, and is taken for the one that failed least recently.
demoted_retried :
    decide 1000000000 1788345000 (record {
      entries =
          failed_entry 11 900000000
          ∷ failed_entry 12 950000000
          ∷ record (failed_entry 13 0) { failed_at = none; demoted_unix = some 1788344000 }
          ∷ [];
      in_use = none;
    })
    ≡ use_guard 13
unfolding decide next_candidate find_identity is_demoted least_failed
demoted_retried = refl

abbrev one_open : Guards
one_open = record two_failed {
  in_use = some (record { identity = 11; peer = record { addr = 1; ed_identity = 2 } });
}

mark_failed-none_example : (mark_failed 1000000000 11 one_open).1 ≡ none
mark_failed-none_example = mark_failed-none 1000000000 11 one_open
