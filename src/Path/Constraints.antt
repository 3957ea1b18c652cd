-- ===== src/Path/Constraints.antt =====
-- src/tor/path.rs, `PathConstraints`: which relays may join a path. An identity (20 bytes) and a /16
-- (2 bytes) are numbers, since the code only compares them.
use rust_tor_proxy.Prelude.{
  ℕ, Bool, not, ◌&&◌, Option, none, some, List, [], ◌∷◌, ◌++◌, any, ◌==◌, if◌then◌else◌,
}
use rust_tor_proxy.Path.Relay.{RouterStatus, subnet16}

pub record PathConstraints : Type 0 where
  pub identities : List ℕ
  pub subnets : List ℕ
  pub families : List (List ℕ)

-- `PathConstraints::default()`
abbrev pub empty : PathConstraints
empty = record { identities = []; subnets = []; families = [] }

-- `contains`
unfoldable pub contains : List ℕ → ℕ → Bool
contains xs a = any (λ x. x == a) xs

-- What it reads of a `Microdesc`: the declared family.
abbrev pub Family : Type 0
Family = List ℕ

-- `add_relay`
unfoldable pub add_relay : PathConstraints → ℕ → ℕ → Family → PathConstraints
add_relay c identity subnet family = record {
  identities = c.identities ++ (identity ∷ []);
  subnets = c.subnets ++ (subnet ∷ []);
  families = c.families ++ (family ∷ []);
}

abbrev pub family_or_none : Option Family → Family
family_or_none none = []
family_or_none (some f) = f

-- `add`
unfoldable pub add : PathConstraints → RouterStatus → Option Family → PathConstraints
unfolding add_relay
add c router microdesc = add_relay c router.identity (subnet16 router) (family_or_none microdesc)

-- `accepts_relay`
unfoldable pub accepts_relay : PathConstraints → ℕ → ℕ → Family → Bool
unfolding contains
accepts_relay c identity subnet family =
    not (contains c.identities identity)
    && not (contains c.subnets subnet)
    && not (any (λ f. contains f identity) c.families)
    && not (any (λ id. contains c.identities id) family)

-- `microdesc.shares_family_with(id)` for some id of the path, where a descriptor is known.
abbrev pub declares_any : Option Family → List ℕ → Bool
declares_any none ids = Bool.false
declares_any (some f) ids = any (λ id. contains f id) ids

-- `accepts`
unfoldable pub accepts : PathConstraints → RouterStatus → Option Family → Bool
unfolding contains
accepts c router microdesc =
    if contains c.identities router.identity
    then Bool.false
    else if contains c.subnets (subnet16 router)
    then Bool.false
    else if any (λ f. contains f router.identity) c.families
    then Bool.false
    else not (declares_any microdesc c.identities)
