-- ===== src/Hs/Chosen.antt =====
-- The nodes that are asked for a descriptor are different nodes of the ring, and no more than allowed.
use rust_tor_proxy.Prelude.{
  ℕ, zero, suc, ◌+◌, ◌*◌, ◌%◌, ◌≤◌, ◌≡◌, refl, ap, subst, arith, true, false, Bool-cases, inl, inr,
  Option, none, some, List, [], ◌∷◌, ◌++◌, map, length, get_elem?, ◌==◌, length-append,
  has_identity, distinct, has_identity-append, distinct-append,
}
use rust_tor_proxy.Hs.Ring.{
  TimePeriod, RingNode, before, partition_point, hs_index, step, visit, replicas_from, responsible,
}

-- Different nodes of the ring, at most `limit` of them.
pub record IsSelection (ring : List RingNode) (limit : ℕ) (out : List ℕ) : Type 0 where
  pub are_distinct : distinct out ≡ true
  pub are_nodes :
      (a : ℕ) → has_identity a out ≡ true → has_identity a (map (λ n. n.identity) ring) ≡ true
  pub bounded : length out ≤ limit

abbrev identity_or : Option RingNode → ℕ
identity_or none = 0
identity_or (some n) = n.identity

get_elem?-identity :
    (ring : List RingNode) (i : ℕ) (node : RingNode)
    → get_elem? ring i ≡ some node
    → has_identity node.identity (map (λ n. n.identity) ring) ≡ true
get_elem?-identity [] i node e = ground arith
get_elem?-identity (n ∷ ns) zero node e =
    let same : n.identity ≡ node.identity = ap (λ o. identity_or o) e in ground arith
get_elem?-identity (n ∷ ns) (suc i) node e =
    let later = get_elem?-identity ns i node e in ground arith

pushed-IsSelection :
    (ring : List RingNode) (limit i : ℕ) (node : RingNode) (out : List ℕ)
    → get_elem? ring i ≡ some node
    → has_identity node.identity out ≡ false
    → IsSelection ring limit out
    → IsSelection ring (limit + 1) (out ++ (node.identity ∷ []))
pushed-IsSelection ring limit i node out at fresh h = record {
  are_distinct = distinct-append node.identity out h.are_distinct fresh;
  are_nodes = λ a e. elim (Bool-cases (has_identity a out)) [
    | inl old ↦ h.are_nodes a old
    | inr new ↦
        let known = has_identity-append a node.identity out in
        let same : node.identity ≡ a = ground arith in
        subst (λ x. has_identity x (map (λ n. n.identity) ring) ≡ true) same
          (get_elem?-identity ring i node at)
  ];
  bounded =
      (let longer = length-append out (node.identity ∷ []) in let h₁ = h.bounded in omega arith);
}

wider :
    (ring : List RingNode) (limit more : ℕ) (out : List ℕ)
    → limit ≤ more
    → IsSelection ring limit out
    → IsSelection ring more out
wider ring limit more out le h = record {
  are_distinct = h.are_distinct;
  are_nodes = h.are_nodes;
  bounded = (let h₁ = h.bounded in omega arith);
}

step-IsSelection :
    (ring : List RingNode) (base spread i taken : ℕ) (out : List ℕ) (found : Option RingNode)
    (skipped : List ℕ) (pushed : ℕ → List ℕ)
    → get_elem? ring i ≡ found
    → taken ≤ spread
    → IsSelection ring (base + taken) out
    → IsSelection ring (base + spread) skipped
    → ((id : ℕ)
        → suc taken ≤ spread
        → IsSelection ring (base + suc taken) (out ++ (id ∷ []))
        → IsSelection ring (base + spread) (pushed id))
    → IsSelection ring (base + spread) (step spread taken out found skipped pushed)
step-IsSelection ring base spread i taken out none skipped pushed e le h skip push =
    wider ring (base + taken) (base + spread) out (omega arith) h
step-IsSelection ring base spread i taken out (some node) skipped pushed e le h skip push =
    elim (Bool-cases (taken == spread)) [
      | inl enough ↦ rw (enough) (wider ring (base + taken) (base + spread) out (omega arith) h)
      | inr room ↦ elim (Bool-cases (has_identity node.identity out)) [
        | inl old ↦ rw (room, old) skip
        | inr fresh ↦
            rw (room, fresh)
              (push node.identity (ground arith) (
                wider ring (base + taken + 1) (base + suc taken) (out ++ (node.identity ∷ []))
                  (omega arith) (pushed-IsSelection ring (base + taken) i node out e fresh h)))
      ]
    ]

visit-IsSelection :
    (ring : List RingNode) (base spread steps place taken : ℕ) (out : List ℕ)
    → taken ≤ spread
    → IsSelection ring (base + taken) out
    → IsSelection ring (base + spread) (visit ring spread steps place taken out)
unfolding visit
visit-IsSelection ring base spread zero place taken out le h =
    wider ring (base + taken) (base + spread) out (omega arith) h
visit-IsSelection ring base spread (suc steps) place taken out le h =
    step-IsSelection ring base spread (place % length ring) taken out
      (get_elem? ring (place % length ring)) (visit ring spread steps (place + 1) taken out)
      (λ id. visit ring spread steps (place + 1) (taken + 1) (out ++ (id ∷ []))) refl le h
      (visit-IsSelection ring base spread steps (place + 1) taken out le h)
      (λ id room grown.
        visit-IsSelection ring base spread steps (place + 1) (taken + 1) (out ++ (id ∷ []))
          (omega arith)
          (wider ring (base + suc taken) (base + (taken + 1)) (out ++ (id ∷ [])) (omega arith)
            grown))

module _ (sha3_256 : List ℕ → List ℕ) where
  replicas_from-IsSelection :
      (ring : List RingNode) (blinded_key : List ℕ) (period : TimePeriod)
      (spread n replica base : ℕ) (out : List ℕ)
      → IsSelection ring base out
      → IsSelection ring
          (base + n * spread)
          (replicas_from sha3_256 ring blinded_key period spread n replica out)
  unfolding replicas_from
  replicas_from-IsSelection ring key period spread zero replica base out h =
      wider ring base (base + 0 * spread) out (omega arith) h
  replicas_from-IsSelection ring key period spread (suc n) replica base out h =
      let first =
        partition_point (λ node. before node.index (hs_index sha3_256 key replica period)) ring in
      let next = visit ring spread (length ring) first 0 out in
      wider ring (base + spread + n * spread) (base + suc n * spread)
        (replicas_from sha3_256 ring key period spread n (replica + 1) next) (grind arith)
        (replicas_from-IsSelection ring key period spread n (replica + 1) (base + spread) next (
          visit-IsSelection ring base spread (length ring) first 0 out (omega arith)
            (wider ring base (base + 0) out (omega arith) h)))

  -- Whatever the ring and the descriptor, the nodes to ask are nodes of the ring, none of them twice, and at
  -- most the spread for each replica.
  pub responsible-IsSelection :
      (ring : List RingNode) (blinded_key : List ℕ) (period : TimePeriod) (n_replicas spread : ℕ)
      → IsSelection ring
          (n_replicas * spread)
          (responsible sha3_256 ring blinded_key period n_replicas spread)
  unfolding responsible
  responsible-IsSelection [] key period n spread = record {
    are_distinct = refl;
    are_nodes = λ a e. e;
    bounded = omega arith;
  }
  responsible-IsSelection (node ∷ nodes) key period n spread =
      wider (node ∷ nodes) (0 + n * spread) (n * spread)
        (replicas_from sha3_256 (node ∷ nodes) key period spread n 1 []) (omega arith)
        (replicas_from-IsSelection (node ∷ nodes) key period spread n 1 0 []
          (record { are_distinct = refl; are_nodes = λ a e. ground arith; bounded = omega arith }))
