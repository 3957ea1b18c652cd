-- ===== src/Path/Tests.antt =====
-- Four relays, and instances of what is proved of src/tor/path.rs.
use rust_tor_proxy.Prelude.{ℕ, ◌≤◌, ◌≡◌, refl, false, none, some, List, [], ◌∷◌, Result, ok, arith}
use rust_tor_proxy.Path.Relay.{RouterStatus, has, subnet16, default_weights, weight_scale}
use rust_tor_proxy.Path.Constraints.{empty, add, add_relay, accepts, contains}
use rust_tor_proxy.Path.Disjoint.{Built, start, extend, Hop, Pairwise, Built-Pairwise}
use rust_tor_proxy.Path.Draw.{exit, weight, guard_candidates}

abbrev relay : ℕ → ℕ → ℕ → RouterStatus
relay id net bandwidth = record {
  identity = id;
  microdesc_digest = id;
  ipv4 = (10, net, 0, 1);
  or_port = 9001;
  flags = 1432;
  bandwidth = bandwidth;
}

abbrev hops : List Hop
hops = (relay 2 2 20, some (9 ∷ [])) ∷ (relay 1 1 10, none) ∷ []

hops-Built : Built (add (add empty (relay 1 1 10) none) (relay 2 2 20) (some (9 ∷ []))) hops
unfolding add add_relay accepts contains subnet16
hops-Built = extend (relay 2 2 20) (some (9 ∷ [])) (extend (relay 1 1 10) none start refl) refl

Built-Pairwise_example : Pairwise hops
Built-Pairwise_example = Built-Pairwise hops-Built

-- The family declared by a relay of the path is turned away, as is its /16.
family_refused : accepts (add empty (relay 1 1 10) (some (2 ∷ []))) (relay 2 2 20) none ≡ false
unfolding add add_relay accepts contains subnet16
family_refused = refl

-- A generator that always gives 12.
abbrev twelve : ℕ → Result ℕ
twelve n = ok 12

guards : guard_candidates (relay 1 1 10 ∷ []) ≡ relay 1 1 10 ∷ []
unfolding guard_candidates has
guards = refl

weight_10000 : weight exit (relay 1 1 10) default_weights ≤ weight_scale
unfolding weight has
weight_10000 = omega arith
