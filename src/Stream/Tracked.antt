-- ===== src/Stream/Tracked.antt =====
-- src/tor/circuit.rs, `TorStream`: what a turn of a half does to the bytes that are kept for another attempt.
use rust_tor_proxy.Prelude.{
  ℕ, ◌+◌, ◌≤◌, ◌<◌, ◌≡◌, ap, arith, Bool, true, false, Bool-cases, inl, inr, List, ◌++◌, length,
  length-append, ltb, if◌then◌else◌, Error, Result, ok, err,
}
use rust_tor_proxy.Stream.{
  Replay, max_replay_bytes, max_reattaches, may_retry, record_written, note_established,
  take_replay, Turn, finished, moving, gave_up, retried, write_turn, read_turn,
}

-- What is kept for another attempt, while there may be one, is all that was written.
pub record Tracks (r : Replay) (written : List ℕ) : Type 0 where
  pub all_kept : r.allowed ≡ true → r.buffered ≡ written
  pub small : length r.buffered ≤ max_replay_bytes
  pub few : r.attempts ≤ max_reattaches

note_established-Tracks :
    (r : Replay) (written : List ℕ) → Tracks r written → Tracks (note_established r) written
unfolding note_established
note_established-Tracks r written h = elim (Bool-cases r.allowed) [
  | inl may ↦
      rw may (record { all_kept = λ e. absurd (ground arith); small = omega arith; few = h.few })
  | inr closed ↦
      rw closed (record { all_kept = λ e. absurd (ground arith); small = h.small; few = h.few })
]

pub record_written-Tracks :
    (r : Replay) (written chunk : List ℕ)
    → Tracks r written
    → Tracks (record_written r chunk) (written ++ chunk)
unfolding record_written
record_written-Tracks r written chunk h = elim (Bool-cases r.allowed) [
  | inr closed ↦
      rw closed (record { all_kept = λ e. absurd (ground arith); small = h.small; few = h.few })
  | inl may ↦ elim (Bool-cases (ltb max_replay_bytes (length r.buffered + length chunk))) [
    | inl much ↦
        rw (may, much)
          (record { all_kept = λ e. absurd (ground arith); small = omega arith; few = h.few })
    | inr room ↦
        let longer = length-append r.buffered chunk in
        rw (may, room)
          (record {
            all_kept = λ e. ap (λ l. l ++ chunk) (h.all_kept may);
            small = ground arith;
            few = h.few;
          })
  ]
]

may_retry-true :
    (r : Replay) (e : Error)
    → may_retry true r e ≡ true
    → (r.allowed ≡ true) × (r.attempts < max_reattaches)
unfolding may_retry
may_retry-true r e h = (ground arith, ground arith)

-- A turn that moves takes all that was written, and one more attempt.
abbrev pub Moves {ℓ} : {A : Type ℓ} → List ℕ → Turn A → Type 0
Moves written (finished a after) = Unit
Moves written (moving bytes after) = (bytes ≡ written) × Tracks after written
Moves written (gave_up e after) = Unit

retried-Moves {ℓ} :
    (A : Type ℓ) (r : Replay) (written : List ℕ) (e : Error)
    → Tracks r written
    → Moves {A = A} written (retried true r e)
unfolding take_replay
retried-Moves A r written e h = elim (Bool-cases (may_retry true r e)) [
  | inr no_more ↦ rw no_more tt
  | inl again ↦
      let (allowed, left) = may_retry-true r e again in
      rw again (
        h.all_kept allowed,
        record { all_kept = λ a. h.all_kept allowed; small = h.small; few = omega arith },
      )
]

pub write_turn-Moves :
    (connected : Bool) (r : Replay) (written chunk : List ℕ) (e : Error)
    → Tracks r written
    → Moves written (write_turn connected true r chunk (err e))
unfolding write_turn
write_turn-Moves true r written chunk e h =
    retried-Moves ℕ (note_established r) written e (note_established-Tracks r written h)
write_turn-Moves false r written chunk e h = retried-Moves ℕ r written e h

pub read_turn-Moves :
    (r : Replay) (written : List ℕ) (e : Error)
    → Tracks r written
    → Moves written (read_turn true r (err e))
unfolding read_turn
read_turn-Moves r written e h = retried-Moves (List ℕ) r written e h

abbrev pub Keeps {ℓ} : {A : Type ℓ} → List ℕ → Turn A → Type 0
Keeps written (finished a after) = Tracks after written
Keeps written (moving bytes after) = Unit
Keeps written (gave_up e after) = Tracks after written

retried-Keeps {ℓ} :
    (A : Type ℓ) (r : Replay) (written : List ℕ) (e : Error)
    → Tracks r written
    → Keeps {A = A} written (retried true r e)
unfolding take_replay
retried-Keeps A r written e h = elim (Bool-cases (may_retry true r e)) [
  | inl again ↦ rw again tt
  | inr no_more ↦ rw no_more h
]

pub read_turn-Keeps :
    (r : Replay) (written : List ℕ) (result : Result (List ℕ))
    → Tracks r written
    → Keeps written (read_turn true r result)
unfolding read_turn
read_turn-Keeps r written (ok bytes) h = note_established-Tracks r written h
read_turn-Keeps r written (err e) h = retried-Keeps (List ℕ) r written e h

-- What `write` notes before it sends.
abbrev pub seen : Bool → Replay → Replay
seen connected r = if connected then note_established r else r

pub seen-Tracks :
    (connected : Bool) (r : Replay) (written : List ℕ)
    → Tracks r written
    → Tracks (seen connected r) written
seen-Tracks true r written h = note_established-Tracks r written h
seen-Tracks false r written h = h

pub write_turn-Keeps :
    (connected : Bool) (r : Replay) (written chunk : List ℕ) (e : Error)
    → Tracks r written
    → Keeps written (write_turn connected true r chunk (err e))
unfolding write_turn
write_turn-Keeps connected r written chunk e h =
    retried-Keeps ℕ (seen connected r) written e (seen-Tracks connected r written h)
