-- ===== src/Relay/Ended.antt =====
-- When the pump of a circuit ends, every stream is settled.
use rust_tor_proxy.Prelude.{
  ℕ, ◌+◌, ◌≤◌, ◌≡◌, refl, ap, ap₂, arith, Bool, true, false, if◌then◌else◌, Option, none, some,
  List, [], ◌∷◌, map, ◌==◌, Result, ok, err, codes, Text,
}
use rust_tor_proxy.Cell.{Cell}
use rust_tor_proxy.Relay.{Crypto}
use rust_tor_proxy.Relay.Circuit.{Circuit, Stream, StreamBuf}
use rust_tor_proxy.Relay.Handle.{handle_cell}
use rust_tor_proxy.Relay.Kept.{
  count_id, count_id-append, is_waiting, waiting, waiting-append, Kept, Kept-refl, Kept-trans,
}
use rust_tor_proxy.Relay.Pumped.{handle_cell-Kept}
use rust_tor_proxy.Relay.Pump.{Arrival, fail_all, fail_buf, fail_stream, pump_loop, pump}

waiting-fail_buf :
    (reason : Text) (error : Option Text) (ended : Option ℕ) (buf : StreamBuf)
    → buf.error ≡ error
    → buf.ended ≡ ended
    → is_waiting (fail_buf reason error ended buf).ended (fail_buf reason error ended buf).error ≡ 0
waiting-fail_buf reason none none buf e d = rw (d)
waiting-fail_buf reason none (some r) buf e d = rw (d)
waiting-fail_buf reason (some x) none buf e d = rw (d, e)
waiting-fail_buf reason (some x) (some r) buf e d = rw (d)

waiting-map-fail_stream :
    (reason : Text) (ss : List Stream) → waiting (map (fail_stream reason) ss) ≡ 0
waiting-map-fail_stream reason [] = refl
waiting-map-fail_stream reason (s ∷ ss) =
    ap₂ (λ m n. m + n) (waiting-fail_buf reason s.buf.error s.buf.ended s.buf refl refl)
      (waiting-map-fail_stream reason ss)

count_id-map-fail_stream :
    (reason : Text) (id : ℕ) (ss : List Stream)
    → count_id id (map (fail_stream reason) ss) ≡ count_id id ss
count_id-map-fail_stream reason id [] = refl
count_id-map-fail_stream reason id (s ∷ ss) =
    ap (λ n. (if s.id == id then 1 else 0) + n) (count_id-map-fail_stream reason id ss)

-- The state in which a pump leaves the streams of its circuit.
pub record AreSettled (k : Crypto) (before after : Circuit k) : Type 0 where
  pub none_open : after.streams ≡ []
  pub none_waits : waiting after.released ≤ waiting before.released
  pub none_lost :
      (id : ℕ)
      → count_id id after.released ≡ count_id id before.streams + count_id id before.released

module _ (k : Crypto) (fill : ℕ → Result (List ℕ)) (send : Cell → Result (Unit {0}))
    (circ_id : ℕ) where
  turn-Kept :
      (c c' more : Circuit k) (closed : Bool) (r : Result (Unit {0}))
      → Kept k c c'
      → Kept k c more
      → Kept k c (if closed then c else elim r [ err e ↦ c' | ok accepted ↦ more ])
  turn-Kept c c' more true r p q = Kept-refl k c
  turn-Kept c c' more false (err e) p q = p
  turn-Kept c c' more false (ok accepted) p q = q

  pub pump_loop-Kept :
      (arrivals : List Arrival) (c : Circuit k)
      → Kept k c (pump_loop k fill send circ_id arrivals c)
  unfolding pump_loop
  pump_loop-Kept [] c = Kept-refl k c
  pump_loop-Kept (a ∷ later) c =
      let (c', cells, r) = handle_cell k fill send circ_id a.at a.cell c in
      let kept = handle_cell-Kept k fill send circ_id a.at a.cell c in
      let more = pump_loop k fill send circ_id later c' in
      turn-Kept c c' more a.is_closed r kept (Kept-trans k c c' more kept (pump_loop-Kept later c'))

  -- However a circuit comes to its end, no stream stays open, no stream is lost, and none that was open is
  -- left waiting: its reader finds an end or an error.
  pub pump-AreSettled :
      (arrivals : List Arrival) (c : Circuit k)
      → AreSettled k c (pump k fill send circ_id arrivals c)
  unfolding pump fail_all
  pump-AreSettled arrivals c =
      let left = pump_loop k fill send circ_id arrivals c in
      let kept = pump_loop-Kept arrivals c in
      let reason = codes "circuit closed" in
      let failed = map (fail_stream reason) left.streams in
      record {
        none_open = refl;
        none_waits =
            (let joined = waiting-append left.released failed in
              let none_left = waiting-map-fail_stream reason left.streams in
              let settled = kept.settled in omega arith);
        none_lost = λ id.
            (let joined = count_id-append id left.released failed in
              let all_failed = count_id-map-fail_stream reason id left.streams in
              let same = kept.same_streams id in omega arith);
      }
