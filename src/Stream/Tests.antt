-- ===== src/Stream/Tests.antt =====
-- Runs of a connection, and instances of what is proved of it.
use rust_tor_proxy.Prelude.{
  ℕ, ◌≡◌, refl, arith, true, false, List, [], ◌∷◌, ◌++◌, replicate, ok, err, timed_out, ◌>>=◌,
}
use rust_tor_proxy.Relay.Circuit.{StreamBuf}
use rust_tor_proxy.Stream.{
  Replay, new_replay, new_buf, write_turn, record_written, finished, release_window,
  send_stream_data,
}
use rust_tor_proxy.Stream.Halves.{Connection, opened, lost_write, concat-chunks}
use rust_tor_proxy.Stream.Halves
use rust_tor_proxy.Stream.Calm
use rust_tor_proxy.Stream.Windows.{quiet, send_all, with_window, send_all-run_out}
use rust_tor_proxy.Stream.Released.{IsReleased, release_window-IsReleased}

abbrev hello : List ℕ
hello = 104 ∷ 105 ∷ []

abbrev kept_hello : ℕ → Replay
kept_hello n = record { buffered = hello; allowed = true; attempts = n }

hello_written : write_turn false true new_replay hello (ok tt) ≡ finished 2 (kept_hello 0)
unfolding write_turn record_written
hello_written = refl

-- A write, a move of the reader, and the bytes sent again.
abbrev moved : Calm.Line
moved = record { replay = kept_hello 1; carried = hello; written = hello; phase = Calm.idle }

abbrev written_once : Replay → Calm.Line
written_once r = record { replay = r; carried = hello; written = hello; phase = Calm.idle }

abbrev resending_all : List (List ℕ) → Calm.Line
resending_all rest = record {
  replay = kept_hello 1;
  carried = [];
  written = hello;
  phase = Calm.resending rest;
}

lost_write_example :
    (c : Connection) × Halves.Steps opened c
    × (c.carried ≡ hello)
    × (c.written ≡ hello ++ (33 ∷ []))
lost_write_example =
    lost_write hello (33 ∷ []) (omega arith) (omega arith) (omega arith) (omega arith)

send_all-run_out_example :
    (send_all 500 (with_window new_buf 500) >>= λ after.
    send_stream_data (replicate 3 (quiet after)) after)
    ≡ err (timed_out "stream send window stayed empty")
send_all-run_out_example =
    send_all-run_out 500 3 new_buf (record { not_ended = refl; no_error = refl }) (omega arith)

abbrev behind : StreamBuf
behind = record new_buf { unacked = 120; deliver_window = 380 }

release_window-IsReleased_example :
    IsReleased behind (release_window 120 behind).0 (release_window 120 behind).1
release_window-IsReleased_example =
    release_window-IsReleased 120 behind (omega arith) (omega arith) (omega arith)

two_sendmes : (release_window 120 behind).0 ≡ 2
unfolding release_window
two_sendmes = refl
