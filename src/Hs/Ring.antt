-- ===== src/Hs/Ring.antt =====
-- src/tor/hs/hsdir.rs: the hash ring, and which of its nodes hold a descriptor.
use rust_tor_proxy.Prelude.{
  ℕ, zero, suc, ◌+◌, ◌-◌, ◌/◌, ◌%◌, max, Bool, true, false, ◌||◌, ◌&&◌, Option, none, some, List,
  [], ◌∷◌, ◌++◌, any, length, get_elem?, ltb, leb, u64_mod, ◌==◌, if◌then◌else◌, codes,
}
use rust_tor_proxy.Cell.Bytes.{be32}

abbrev pub rotation_offset_minutes : ℕ
rotation_offset_minutes = 720

pub record TimePeriod : Type 0 where
  pub number : ℕ
  pub length : ℕ

-- `TimePeriod::containing`
unfoldable pub containing : ℕ → ℕ → TimePeriod
containing valid_after_unix length_minutes =
    let length = max length_minutes 1 in
    record { number = (valid_after_unix / 60 - rotation_offset_minutes) / length; length = length }

-- `int8`
unfoldable pub int8 : ℕ → List ℕ
int8 value = be32 (value / 4294967296) ++ be32 (value % 4294967296)

-- `RingNode`
pub record RingNode : Type 0 where
  pub identity : ℕ
  pub index : List ℕ

-- What is read of a `Consensus`.
pub record SharedRandom : Type 0 where
  pub valid_after : ℕ
  pub shared_rand_current : Option (List ℕ)
  pub shared_rand_previous : Option (List ℕ)

-- The order of arrays of bytes.
unfoldable pub before : List ℕ → List ℕ → Bool
before [] [] = false
before [] (y ∷ ys) = true
before (x ∷ xs) [] = false
before (x ∷ xs) (y ∷ ys) = ltb x y || (x == y && before xs ys)

-- `slice::partition_point`, of a slice that is partitioned.
unfoldable pub partition_point : (RingNode → Bool) → List RingNode → ℕ
partition_point p [] = 0
partition_point p (node ∷ nodes) = if p node then suc (partition_point p nodes) else 0

unfoldable pub insert_node : RingNode → List RingNode → List RingNode
insert_node node [] = node ∷ []
insert_node node (n ∷ ns) =
    if before n.index node.index then n ∷ insert_node node ns else node ∷ n ∷ ns

-- One step of the loop below: the node in question, and what the rest of the loop makes of skipping or taking it.
abbrev pub step : ℕ → ℕ → List ℕ → Option RingNode → List ℕ → (ℕ → List ℕ) → List ℕ
step spread taken out none skipped pushed = out
step spread taken out (some node) skipped pushed =
    let grown = pushed node.identity in
    if taken == spread then out else if any (λ x. x == node.identity) out then skipped else grown

-- The loop of `responsible` for one replica: the steps left, the place of the next, and what was taken.
unfoldable pub visit : List RingNode → ℕ → ℕ → ℕ → ℕ → List ℕ → List ℕ
visit ring spread zero place taken out = out
visit ring spread (suc steps) place taken out =
    step spread taken out (get_elem? ring (place % length ring))
      (visit ring spread steps (place + 1) taken out)
      (λ id. visit ring spread steps (place + 1) (taken + 1) (out ++ (id ∷ [])))

module _ (sha3_256 : List ℕ → List ℕ) where
  -- `hs_index`
  unfoldable pub hs_index : List ℕ → ℕ → TimePeriod → List ℕ
  hs_index blinded_key replica period = sha3_256 (
      codes "store-at-idx"
      ++ (blinded_key ++ (int8 replica ++ (int8 period.length ++ int8 period.number))))

  -- `hsdir_index`
  unfoldable pub hsdir_index : List ℕ → List ℕ → TimePeriod → List ℕ
  hsdir_index node_ed_identity srv period = sha3_256 (
      codes "node-idx" ++ (node_ed_identity ++ (srv ++ (int8 period.number ++ int8 period.length))))

  -- `build_ring`: nodes with the same index keep the order in which they are given.
  unfoldable pub build_ring : List (ℕ × List ℕ) → List ℕ → TimePeriod → List RingNode
  build_ring [] srv period = []
  build_ring ((identity, ed_identity) ∷ nodes) srv period =
      insert_node (record { identity = identity; index = hsdir_index ed_identity srv period })
        (build_ring nodes srv period)

  -- The replicas from `replica` on.
  unfoldable pub replicas_from : List RingNode → List ℕ → TimePeriod → ℕ → ℕ → ℕ → List ℕ → List ℕ
  replicas_from ring blinded_key period spread zero replica out = out
  replicas_from ring blinded_key period spread (suc n) replica out =
      let start = hs_index blinded_key replica period in
      let first = partition_point (λ node. before node.index start) ring in
      replicas_from ring blinded_key period spread n (replica + 1)
        (visit ring spread (length ring) first 0 out)

  -- `responsible`
  unfoldable pub responsible : List RingNode → List ℕ → TimePeriod → ℕ → ℕ → List ℕ
  responsible [] blinded_key period n_replicas spread = []
  responsible (node ∷ nodes) blinded_key period n_replicas spread =
      replicas_from (node ∷ nodes) blinded_key period spread n_replicas 1 []

  -- `disaster_srv`
  unfoldable pub disaster_srv : ℕ → ℕ → List ℕ
  disaster_srv period_length period_num =
      sha3_256 (codes "shared-random-disaster" ++ (int8 period_length ++ int8 period_num))

  abbrev published_or : Option (List ℕ) → List ℕ → List ℕ
  published_or none other = other
  published_or (some value) other = value

  -- `shared_random_value`
  unfoldable pub shared_random_value : SharedRandom → TimePeriod → List ℕ
  shared_random_value consensus period =
      if leb 43200 (consensus.valid_after % 86400)
      then published_or consensus.shared_rand_current (disaster_srv period.length period.number)
      else published_or consensus.shared_rand_previous
          (disaster_srv period.length ((period.number + 18446744073709551615) % u64_mod))
