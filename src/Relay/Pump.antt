-- ===== src/Relay/Pump.antt =====
-- src/tor/circuit.rs, `pump` and `fail_all`: the thread that takes a circuit's cells from the channel. An
-- arrival has the time, and whether another thread has closed the circuit meanwhile; when there are no more
-- the channel has hung up.
use rust_tor_proxy.Prelude.{
  ℕ, Bool, Option, none, some, List, [], ◌∷◌, ◌++◌, map, if◌then◌else◌, Result, ok, err, Text,
  codes,
}
use rust_tor_proxy.Cell.{Cell}
use rust_tor_proxy.Relay.{Crypto}
use rust_tor_proxy.Relay.Circuit.{Circuit, Stream, StreamBuf}
use rust_tor_proxy.Relay.Handle.{handle_cell}

pub record Arrival : Type 0 where
  pub at : ℕ
  pub is_closed : Bool
  pub cell : Cell

abbrev pub fail_buf : Text → Option Text → Option ℕ → StreamBuf → StreamBuf
fail_buf reason none none buf = record buf { error = some reason }
fail_buf reason (some e) ended buf = buf
fail_buf reason none (some r) buf = buf

abbrev pub fail_stream : Text → Stream → Stream
fail_stream reason s = record s { buf = fail_buf reason s.buf.error s.buf.ended s.buf }

module _ (k : Crypto) where
  -- `fail_all`
  unfoldable pub fail_all : Text → Circuit k → Circuit k
  fail_all reason c = record c {
    streams = [];
    released = c.released ++ map (fail_stream reason) c.streams;
  }

  module _ (fill : ℕ → Result (List ℕ)) (send : Cell → Result (Unit {0})) (circ_id : ℕ) where
    -- The loop of `pump`: the circuit as the loop leaves it.
    unfoldable pub pump_loop : List Arrival → Circuit k → Circuit k
    pump_loop [] c = c
    pump_loop (a ∷ later) c =
        let (c', cells, r) = handle_cell k fill send circ_id a.at a.cell c in
        let more = pump_loop later c' in
        if a.is_closed then c else elim r [ err e ↦ c' | ok accepted ↦ more ]

    -- `pump`
    unfoldable pub pump : List Arrival → Circuit k → Circuit k
    pump arrivals c = fail_all (codes "circuit closed") (pump_loop arrivals c)
