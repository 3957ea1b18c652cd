-- ===== src/Path/Disjoint.antt =====
-- src/tor/path.rs, `PathConstraints`: a path whose every relay was accepted has no two related relays.
use rust_tor_proxy.Prelude.{
  ℕ, ◌≡◌, ◌≢◌, refl, Bool, true, false, Option, none, some, List, [], ◌∷◌, ◌++◌, any, All, ◌==◌,
  arith,
}
use rust_tor_proxy.Path.Relay.{RouterStatus, subnet16}
use rust_tor_proxy.Path.Constraints.{
  PathConstraints, Family, empty, contains, add, add_relay, family_or_none, declares_any, accepts,
}

-- A relay of a path with its microdescriptor's family, where it was known.
abbrev pub Hop : Type 0
Hop = RouterStatus × Option Family

-- The constraints after each hop was accepted and then added, the latest hop first.
pub data Built : PathConstraints → List Hop → Type 0 where
  start : Built empty []
  extend :
      {c : PathConstraints} {hops : List Hop} (r : RouterStatus) (md : Option Family)
      → Built c hops
      → accepts c r md ≡ true
      → Built (add c r md) ((r, md) ∷ hops)

-- Two hops that may share a circuit: different relays, in different networks, neither of which
-- declares the other as family.
pub record Unrelated (a b : Hop) : Type 0 where
  pub relay : a.0.identity ≢ b.0.identity
  pub network : subnet16 a.0 ≢ subnet16 b.0
  pub declares : contains (family_or_none a.1) b.0.identity ≡ false
  pub declared : contains (family_or_none b.1) a.0.identity ≡ false

abbrev pub Pairwise : List Hop → Type 0
Pairwise [] = Unit
Pairwise (h ∷ hops) = All (Unrelated h) hops × Pairwise hops

any-append {ℓ} :
    {A : Type ℓ} (p : A → Bool) (xs : List A) (a : A)
    → any p (xs ++ (a ∷ [])) ≡ false
    → (any p xs ≡ false) × (p a ≡ false)
any-append p [] a h = (refl, ground arith)
any-append p (x ∷ xs) a h = ground (arith, any-append p xs a)

-- What a test that fails on all that the constraints hold says of the hops.
Built-identities :
    {c : PathConstraints} {hops : List Hop} (p : ℕ → Bool)
    → Built c hops
    → any p c.identities ≡ false
    → All (λ h. p h.0.identity ≡ false) hops
unfolding add add_relay
Built-identities p start h = tt
Built-identities p (extend {c} r md b fits) h =
    let (rest, here) = any-append p c.identities r.identity h in (here, Built-identities p b rest)

Built-subnets :
    {c : PathConstraints} {hops : List Hop} (p : ℕ → Bool)
    → Built c hops
    → any p c.subnets ≡ false
    → All (λ h. p (subnet16 h.0) ≡ false) hops
unfolding add add_relay
Built-subnets p start h = tt
Built-subnets p (extend {c} r md b fits) h =
    let (rest, here) = any-append p c.subnets (subnet16 r) h in (here, Built-subnets p b rest)

Built-families :
    {c : PathConstraints} {hops : List Hop} (p : Family → Bool)
    → Built c hops
    → any p c.families ≡ false
    → All (λ h. p (family_or_none h.1) ≡ false) hops
unfolding add add_relay
Built-families p start h = tt
Built-families p (extend {c} r md b fits) h =
    let (rest, here) = any-append p c.families (family_or_none md) h in
    (here, Built-families p b rest)

declares_any-family :
    (md : Option Family) (ids : List ℕ)
    → declares_any md ids ≡ false
    → any (λ id. contains (family_or_none md) id) ids ≡ false
unfolding contains
declares_any-family none [] h = refl
declares_any-family none (x ∷ ids) h = declares_any-family none ids refl
declares_any-family (some f) ids h = h

-- What the code finds before it accepts.
record Clear (c : PathConstraints) (r : RouterStatus) (md : Option Family) : Type 0 where
  identity : any (λ x. x == r.identity) c.identities ≡ false
  subnet : any (λ x. x == subnet16 r) c.subnets ≡ false
  declared : any (λ f. contains f r.identity) c.families ≡ false
  declares : any (λ id. contains (family_or_none md) id) c.identities ≡ false

accepts-Clear :
    (c : PathConstraints) (r : RouterStatus) (md : Option Family)
    → accepts c r md ≡ true
    → Clear c r md
accepts-Clear c r md h = record {
  identity = unfold accepts contains in ground arith;
  subnet = unfold accepts contains in ground arith;
  declared = unfold accepts in ground arith;
  declares = declares_any-family md c.identities (unfold accepts in ground arith);
}

Unrelated-All :
    (r : RouterStatus) (md : Option Family) (hops : List Hop)
    → All (λ h. (h.0.identity == r.identity) ≡ false) hops
    → All (λ h. (subnet16 h.0 == subnet16 r) ≡ false) hops
    → All (λ h. contains (family_or_none h.1) r.identity ≡ false) hops
    → All (λ h. contains (family_or_none md) h.0.identity ≡ false) hops
    → All (Unrelated (r, md)) hops
Unrelated-All r md [] i s f g = tt
Unrelated-All r md (h ∷ hops) i s f g = (
  record {
    relay = λ e. absurd (ground arith);
    network = λ e. absurd (ground arith);
    declares = g.0;
    declared = f.0;
  },
  Unrelated-All r md hops i.1 s.1 f.1 g.1,
)

-- A path of any length whose every hop was accepted under the constraints of those before it holds
-- no relay twice, no two relays of one /16, and no two of which one declares the other as family.
pub Built-Pairwise : {c : PathConstraints} {hops : List Hop} → Built c hops → Pairwise hops
Built-Pairwise start = tt
Built-Pairwise (extend {c} {hops} r md b fits) =
    let clear = accepts-Clear c r md fits in
    (
      Unrelated-All r md hops (Built-identities (λ x. x == r.identity) b clear.identity)
          (Built-subnets (λ x. x == subnet16 r) b clear.subnet)
          (Built-families (λ f. contains f r.identity) b clear.declared)
          (Built-identities (λ id. contains (family_or_none md) id) b clear.declares),
      Built-Pairwise b,
    )
