-- ===== src/Stream/Calm.antt =====
-- src/tor/circuit.rs, `TorStream`: a connection whose writes and moves are each over before the next starts.
use rust_tor_proxy.Prelude.{
  ℕ, ◌≡◌, refl, sym, ap, ◌∙◌, subst, Bool, true, List, [], ◌∷◌, ◌++◌, length, Error, ok, err,
}
use rust_tor_proxy.Stream.{
  Replay, new_replay, record_written, chunks, finished, moving, gave_up, write_turn, read_turn,
}
use rust_tor_proxy.Stream.Halves.{concat, concat-chunks}
use rust_tor_proxy.Stream.Tracked.{Tracks, Moves, read_turn-Moves, seen}

-- A write that succeeds is what it notes before the send and, after it, `record_written`.
pub write_turn_sent :
    (connected : Bool) (r : Replay) (chunk : List ℕ)
    → write_turn connected true r chunk (ok tt)
      ≡ finished (length chunk) (record_written (seen connected r) chunk)
unfolding write_turn
write_turn_sent connected r chunk = refl

-- What the halves are in the middle of: a chunk that was sent and is not recorded yet, a move with these chunks
-- still to send again, or nothing. A move one of whose sends failed returns its error, and no write or
-- move follows.
pub data Phase : Type 0 where
  idle : Phase
  unrecorded : List ℕ → Phase
  resending : List (List ℕ) → Phase
  failed : List ℕ → Phase

-- What would be sent again, what was sent on the stream that carries the connection, and what the writer was told
-- was taken.
pub record Line : Type 0 where
  pub replay : Replay
  pub carried : List ℕ
  pub written : List ℕ
  pub phase : Phase

abbrev pub opened : Line
opened = record { replay = new_replay; carried = []; written = []; phase = idle }

abbrev switched : Line → Replay → List ℕ → Line
switched l after bytes = record l { replay = after; carried = []; phase = resending (chunks bytes) }

-- The steps of the two halves. A write starts, and a move starts, only when no other write or move is unfinished; a
-- read may return, or fail, at any time. A move starts when a turn decides for it, and it has then taken its bytes
-- and put the connection on its new stream; where that stream cannot be opened the old one stays.
pub data Step : Line → Line → Type 0 where
  sends :
      {l : Line} (connected : Bool) (chunk : List ℕ)
      → l.phase ≡ idle
      → Step l (record l {
        replay = seen connected l.replay;
        carried = l.carried ++ chunk;
        phase = unrecorded chunk;
      })
  records :
      {l : Line} (chunk : List ℕ)
      → l.phase ≡ unrecorded chunk
      → Step l (record l {
        replay = record_written l.replay chunk;
        written = l.written ++ chunk;
        phase = idle;
      })
  write_fails :
      {l : Line} (connected : Bool) (chunk : List ℕ) (e returned : Error) (after : Replay)
      → write_turn connected true l.replay chunk (err e) ≡ gave_up returned after
      → Step l (record l { replay = after })
  got :
      {l : Line} (bytes out : List ℕ) (after : Replay)
      → read_turn true l.replay (ok bytes) ≡ finished out after
      → Step l (record l { replay = after })
  read_fails :
      {l : Line} (e returned : Error) (after : Replay)
      → read_turn true l.replay (err e) ≡ gave_up returned after
      → Step l (record l { replay = after })
  writer_moves :
      {l : Line} (connected : Bool) (chunk bytes : List ℕ) (e : Error) (after : Replay)
      → l.phase ≡ idle
      → write_turn connected true l.replay chunk (err e) ≡ moving bytes after
      → Step l (switched l after bytes)
  reader_moves :
      {l : Line} (bytes : List ℕ) (e : Error) (after : Replay)
      → l.phase ≡ idle
      → read_turn true l.replay (err e) ≡ moving bytes after
      → Step l (switched l after bytes)
  writer_unopened :
      {l : Line} (connected : Bool) (chunk bytes : List ℕ) (e : Error) (after : Replay)
      → l.phase ≡ idle
      → write_turn connected true l.replay chunk (err e) ≡ moving bytes after
      → Step l (record l { replay = after })
  reader_unopened :
      {l : Line} (bytes : List ℕ) (e : Error) (after : Replay)
      → l.phase ≡ idle
      → read_turn true l.replay (err e) ≡ moving bytes after
      → Step l (record l { replay = after })
  resends :
      {l : Line} (chunk : List ℕ) (rest : List (List ℕ))
      → l.phase ≡ resending (chunk ∷ rest)
      → Step l (record l { carried = l.carried ++ chunk; phase = resending rest })
  resent : {l : Line} → l.phase ≡ resending [] → Step l (record l { phase = idle })
  resend_fails :
      {l : Line} (rest : List (List ℕ))
      → l.phase ≡ resending rest
      → Step l (record l { phase = failed (concat rest) })

pub data Steps : Line → Line → Type 0 where
  here : {l : Line} → Steps l l
  next : {a b c : Line} → Steps a b → Step b c → Steps a c

-- How what was sent on the stream and what was taken from the application differ.
abbrev pub Balanced : Phase → List ℕ → List ℕ → Type 0
Balanced idle carried written = carried ≡ written
Balanced (unrecorded chunk) carried written = carried ≡ written ++ chunk
Balanced (resending rest) carried written = carried ++ concat rest ≡ written
Balanced (failed rest) carried written = carried ++ rest ≡ written

pub record IsComplete (l : Line) : Type 0 where
  pub balanced : Balanced l.phase l.carried l.written
  pub tracks : Tracks l.replay l.written

-- What the phase says, once it is known.
in_phase :
    (l : Line) (phase : Phase) → l.phase ≡ phase → IsComplete l → Balanced phase l.carried l.written
in_phase l phase e h = subst (λ p. Balanced p l.carried l.written) e h.balanced

read_moves :
    (l : Line) (bytes : List ℕ) (e : Error) (after : Replay)
    → IsComplete l
    → read_turn true l.replay (err e) ≡ moving bytes after
    → (bytes ≡ l.written) × Tracks after l.written
read_moves l bytes e after h m =
    subst (Moves l.written) m (read_turn-Moves l.replay l.written e h.tracks)

-- Why a write is not to be interrupted: a move of the reader that starts between a send and its record takes bytes
-- without the chunk, which the old stream was sent and the new one is not.
pub read_turn-unrecorded :
    (l : Line) (chunk bytes : List ℕ) (e : Error) (after : Replay)
    → IsComplete l
    → l.phase ≡ unrecorded chunk
    → read_turn true l.replay (err e) ≡ moving bytes after
    → l.carried ≡ concat (chunks bytes) ++ chunk
read_turn-unrecorded l chunk bytes e after h at m =
    in_phase l (unrecorded chunk) at h
    ∙ ap (λ r. r ++ chunk) (sym (concat-chunks bytes ∙ (read_moves l bytes e after h m).0))
