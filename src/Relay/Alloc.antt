-- ===== src/Relay/Alloc.antt =====
-- `alloc_stream_id`: which identifier a new stream gets, and when there is none.
use rust_tor_proxy.Prelude.{
  ℕ, zero, suc, ◌+◌, ◌%◌, ◌<◌, ◌≡◌, ◌≢◌, refl, subst, ◌-◌, arith, Bool-cases, inl, inr, true, false,
  ◌||◌, ◌==◌, Option, none, some, List,
}
use rust_tor_proxy.Relay.Circuit.{Stream, is_open, try_ids, alloc_stream_id}

try_ids-some :
    (tries : ℕ) (streams : List Stream) (next id : ℕ)
    → next < 65536
    → (try_ids tries streams next).0 ≡ some id
    → (0 < id) × (id < 65536) × (is_open id streams ≡ false)
unfolding try_ids
try_ids-some zero streams next id small e = ground arith
try_ids-some (suc tries) streams next id small e =
    elim (Bool-cases (next == 0 || is_open next streams)) [
      | inl used ↦ try_ids-some tries streams ((next + 1) % 65536) id (omega arith) (ground arith)
      | inr unused ↦ ground arith
    ]

try_ids-none :
    (tries : ℕ) (streams : List Stream) (next i : ℕ)
    → next < 65536
    → (try_ids tries streams next).0 ≡ none
    → i < tries
    → (next + i) % 65536 ≢ 0
    → is_open ((next + i) % 65536) streams ≡ true
unfolding try_ids
try_ids-none zero streams next i small e bound nonzero = ground arith
try_ids-none (suc tries) streams next zero small e bound nonzero =
    let same : (next + 0) % 65536 ≡ next = omega arith in
    elim (Bool-cases (next == 0 || is_open next streams)) [
      | inl used ↦ rw (same) (ground arith)
      | inr unused ↦ ground arith
    ]
try_ids-none (suc tries) streams next (suc i) small e bound nonzero =
    let same : ((next + 1) % 65536 + i) % 65536 ≡ (next + suc i) % 65536 = omega arith in
    elim (Bool-cases (next == 0 || is_open next streams)) [
      | inl used ↦
          subst (λ x. is_open x streams ≡ true) same
            (try_ids-none tries streams ((next + 1) % 65536) i (omega arith) (ground arith)
              (omega arith) (omega arith))
      | inr unused ↦ ground arith
    ]

-- Every identifier but 0 is open, except perhaps the one before the next to try.
pub record IsFull (streams : List Stream) (next : ℕ) : Type 0 where
  pub taken :
      (id : ℕ) → 0 < id → id < 65536 → id ≢ (next + 65535) % 65536 → is_open id streams ≡ true

pub data Allocated (streams : List Stream) (next : ℕ) : Option ℕ → Type 0 where
  fresh :
      {id : ℕ} → 0 < id → id < 65536 → is_open id streams ≡ false → Allocated streams next (some id)
  full : IsFull streams next → Allocated streams next none

-- A new stream gets a nonzero identifier of 16 bits that is not open, or it gets none and every nonzero
-- identifier is open, except perhaps the one before the next to try.
pub alloc_stream_id-Allocated :
    (streams : List Stream) (next : ℕ)
    → next < 65536
    → Allocated streams next (alloc_stream_id streams next).0
unfolding alloc_stream_id
alloc_stream_id-Allocated streams next small = go (try_ids 65535 streams next).0 refl
  where
    go : (found : Option ℕ) → (try_ids 65535 streams next).0 ≡ found → Allocated streams next found
    go (some id) e =
        let (pos, bound, unused) = try_ids-some 65535 streams next id small e in
        fresh pos bound unused
    go none e = full (record {
      taken = λ id pos bound other.
          let i = (id + (65536 - next)) % 65536 in
          let back : (next + i) % 65536 ≡ id = omega arith in
          subst (λ x. is_open x streams ≡ true) back
            (try_ids-none 65535 streams next i small e (omega arith) (omega arith));
    })
