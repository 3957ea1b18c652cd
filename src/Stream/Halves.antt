-- ===== src/Stream/Halves.antt =====
-- src/tor/circuit.rs, `TorStream`: a connection that is moved while its two halves read and write.
use rust_tor_proxy.Prelude.{
  ℕ, zero, suc, ◌+◌, ◌≤◌, ◌≡◌, refl, ap, ◌∙◌, arith, Bool, true, false, Option, none, some, List,
  [], ◌∷◌, ◌++◌, length, length-drop, take, drop, take-append-drop, ltb, Error, ok, err, stream_end,
}
use rust_tor_proxy.Flow.{relay_data_max}
use rust_tor_proxy.Stream.{
  Replay, new_replay, max_replay_bytes, may_retry, record_written, take_replay, worth_it, chunks_of,
  chunks, finished, moving, write_turn, read_turn,
}

abbrev pub concat : List (List ℕ) → List ℕ
concat [] = []
concat (c ∷ cs) = c ++ concat cs

-- What is known of a connection: what it would send again, what was sent on the stream that carries it now, and what
-- the writer was told was taken. A half that is between the two steps of `reattach` has its bytes in hand.
pub record Connection : Type 0 where
  pub replay : Replay
  pub carried : List ℕ
  pub written : List ℕ
  pub reader : Option (List ℕ)
  pub writer : Option (List ℕ)

abbrev pub opened : Connection
opened = record { replay = new_replay; carried = []; written = []; reader = none; writer = none }

abbrev switched : Connection → List ℕ → Connection
switched c bytes = record c { carried = concat (chunks bytes) }

-- The steps of the two halves; a write that succeeds, its send and its record, is one of them.
pub data Step : Connection → Connection → Type 0 where
  wrote :
      {c : Connection} (connected : Bool) (chunk : List ℕ) (n : ℕ) (after : Replay)
      → c.writer ≡ none
      → 1 ≤ length chunk
      → length chunk ≤ relay_data_max
      → write_turn connected true c.replay chunk (ok tt) ≡ finished n after
      → Step c
          (record c { replay = after; carried = c.carried ++ chunk; written = c.written ++ chunk })
  got :
      {c : Connection} (bytes out : List ℕ) (after : Replay)
      → c.reader ≡ none
      → read_turn true c.replay (ok bytes) ≡ finished out after
      → Step c (record c { replay = after })
  writer_moves :
      {c : Connection} (connected : Bool) (chunk bytes : List ℕ) (e : Error) (after : Replay)
      → c.writer ≡ none
      → write_turn connected true c.replay chunk (err e) ≡ moving bytes after
      → Step c (record c { replay = after; writer = some bytes })
  reader_moves :
      {c : Connection} (bytes : List ℕ) (e : Error) (after : Replay)
      → c.reader ≡ none
      → read_turn true c.replay (err e) ≡ moving bytes after
      → Step c (record c { replay = after; reader = some bytes })
  writer_switches :
      {c : Connection} (bytes : List ℕ)
      → c.writer ≡ some bytes
      → Step c (record c { carried = concat (chunks bytes); writer = none })
  reader_switches :
      {c : Connection} (bytes : List ℕ)
      → c.reader ≡ some bytes
      → Step c (record c { carried = concat (chunks bytes); reader = none })

pub data Steps : Connection → Connection → Type 0 where
  here : {c : Connection} → Steps c c
  next : {a b c : Connection} → Steps a b → Step b c → Steps a c

concat-chunks_of :
    (fuel : ℕ) (bytes : List ℕ) → length bytes ≤ fuel → concat (chunks_of fuel bytes) ≡ bytes
unfolding chunks_of
concat-chunks_of zero [] h = refl
concat-chunks_of zero (b ∷ bytes) h = absurd (omega arith)
concat-chunks_of (suc fuel) [] h = refl
concat-chunks_of (suc fuel) (b ∷ bytes) h =
    let rest = b ∷ bytes in
    let shorter = length-drop relay_data_max rest in
    ap (λ l. take relay_data_max rest ++ l)
      (concat-chunks_of fuel (drop relay_data_max rest) (omega arith))
    ∙ take-append-drop relay_data_max rest

-- The chunks of `reattach` are the bytes it took, in order.
pub concat-chunks : (bytes : List ℕ) → concat (chunks bytes) ≡ bytes
unfolding chunks
concat-chunks bytes = concat-chunks_of (length bytes) bytes (omega arith)

abbrev kept : List ℕ → ℕ → Replay
kept bytes attempts = record { buffered = bytes; allowed = true; attempts = attempts }

write_turn-room :
    (bytes chunk : List ℕ) (attempts : ℕ)
    → length bytes + length chunk ≤ max_replay_bytes
    → write_turn false true (kept bytes attempts) chunk (ok tt)
      ≡ finished (length chunk) (kept (bytes ++ chunk) attempts)
unfolding write_turn record_written
write_turn-room bytes chunk attempts h =
    let room : ltb max_replay_bytes (length bytes + length chunk) ≡ false = ground arith in rw room

abbrev no_resolve : Error
no_resolve = stream_end 2

reader_turn :
    (bytes : List ℕ) → read_turn true (kept bytes 0) (err no_resolve) ≡ moving bytes (kept bytes 1)
unfolding read_turn may_retry worth_it take_replay
reader_turn bytes = refl

writer_turn :
    (bytes chunk : List ℕ)
    → write_turn false true (kept bytes 1) chunk (err no_resolve) ≡ moving bytes (kept bytes 2)
unfolding write_turn may_retry worth_it take_replay
writer_turn bytes chunk = refl

-- The two halves of one connection can both move it. Then whatever chunk was written before, and whatever chunk the
-- writer writes after its own move, a run ends with the connection on the reader's stream, which carries the first
-- alone, while both were taken from the application.
pub lost_write :
    (before after : List ℕ)
    → 1 ≤ length before
    → length before ≤ relay_data_max
    → 1 ≤ length after
    → length after ≤ relay_data_max
    → (c : Connection) × Steps opened c × (c.carried ≡ before) × (c.written ≡ before ++ after)
lost_write before after b b' a a' =
    let c₁ : Connection = record {
      replay = kept before 0;
      carried = before;
      written = before;
      reader = none;
      writer = none;
    } in
    let c₂ : Connection = record c₁ { replay = kept before 1; reader = some before } in
    let c₃ : Connection = record c₂ { replay = kept before 2; writer = some before } in
    let c₄ : Connection = record c₃ { carried = concat (chunks before); writer = none } in
    let c₅ : Connection = record c₄ {
      replay = kept (before ++ after) 2;
      carried = concat (chunks before) ++ after;
      written = before ++ after;
    } in
    let c₆ : Connection = record c₅ { carried = concat (chunks before); reader = none } in
    let s₁ : Step opened c₁ =
      wrote false before (length before) (kept before 0) refl b b'
        (write_turn-room [] before 0 (omega arith)) in
    let s₂ : Step c₁ c₂ =
      reader_moves before no_resolve (kept before 1) refl (reader_turn before) in
    let s₃ : Step c₂ c₃ =
      writer_moves false after before no_resolve (kept before 2) refl (writer_turn before after) in
    let s₄ : Step c₃ c₄ = writer_switches before refl in
    let s₅ : Step c₄ c₅ =
      wrote false after (length after) (kept (before ++ after) 2) refl a a'
        (write_turn-room before after 2 (omega arith)) in
    let s₆ : Step c₅ c₆ = reader_switches before refl in
    (c₆, next (next (next (next (next (next here s₁) s₂) s₃) s₄) s₅) s₆, concat-chunks before, refl)
