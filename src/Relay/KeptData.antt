-- ===== src/Relay/KeptData.antt =====
-- A cell of data, with the acknowledgement and the XOFF that may answer it, keeps what must be kept.
use rust_tor_proxy.Prelude.{
  ℕ, ◌+◌, ◌≡◌, refl, ap, ap₂, arith, Bool, true, false, if◌then◌else◌, Option, none, some, List, [],
  ◌∷◌, length, Result, ok, err,
}
use rust_tor_proxy.Cell.{Cell}
use rust_tor_proxy.Flow.{note_received}
use rust_tor_proxy.Relay.{Crypto, relay_xoff, relay_sendme}
use rust_tor_proxy.Relay.Seal.{Outbound, build_relay_cell}
use rust_tor_proxy.Relay.Circuit.{Circuit, Stream, note_data, StreamBuf, at_stream, lookup}
use rust_tor_proxy.Relay.Handle.{
  Outcome, on_data_cell, deliver, acknowledge, send_prebuilt, after, built, backed_up, buffered,
  sendme_payload, stopped, send_xoff,
}
use rust_tor_proxy.Relay.Kept.{
  count_id, count_id-at_stream, Kept, Kept-refl, Kept-trans, Kept-streams, build_relay_cell-length,
}

module _ (k : Crypto) where
  -- A change of a stream's buffer, and of nothing else that is kept.
  pub at_stream-Kept :
      (x : ℕ) (f : StreamBuf → StreamBuf) (c : Circuit k)
      → Kept k c (record c { streams = at_stream x f c.streams })
  at_stream-Kept x f c =
      Kept-streams k c (record c { streams = at_stream x f c.streams }) refl refl refl refl
        (λ id. count_id-at_stream id x f c.streams)

  -- A step that touches no stream.
  pub other-Kept :
      (c c' : Circuit k)
      → c'.out ≡ c.out
      → c'.next_stream_id ≡ c.next_stream_id
      → c'.control ≡ c.control
      → c'.released ≡ c.released
      → c'.streams ≡ c.streams
      → Kept k c c'
  other-Kept c c' out next control released streams =
      Kept-streams k c c' out next control released (λ id. ap (count_id id) streams)

  pub hops-Kept :
      (c c' : Circuit k)
      → length c'.out.hops ≡ length c.out.hops
      → c'.out.relay_early_left ≡ c.out.relay_early_left
      → c'.next_stream_id ≡ c.next_stream_id
      → c'.control ≡ c.control
      → c'.released ≡ c.released
      → c'.streams ≡ c.streams
      → Kept k c c'
  hops-Kept c c' hops early next control released streams = record {
    same_hops = hops;
    same_early = early;
    same_next = next;
    same_streams = λ id. ap₂ (λ m n. count_id id m + count_id id n) streams released;
    settled = rw (released) (omega arith);
    bounded_control = rw (control) (ground arith);
  }

  pub if-Kept :
      (c : Circuit k) (b : Bool) (x y : Circuit k × List Cell × Result (Unit {0}))
      → Kept k c x.0
      → Kept k c y.0
      → Kept k c (if b then x else y).0
  if-Kept c true x y p q = p
  if-Kept c false x y p q = q

  module _ (fill : ℕ → Result (List ℕ)) (send : Cell → Result (Unit {0})) (circ_id : ℕ) where
    built-Kept :
        (c : Circuit k) (b : Outbound k × Result Cell)
        → length b.0.hops ≡ length c.out.hops
        → b.0.relay_early_left ≡ c.out.relay_early_left
        → Kept k c (built k fill send circ_id c b).0
    built-Kept c (out, err e) hops early =
        hops-Kept c (record c { out = out }) hops early refl refl refl refl
    built-Kept c (out, ok cell) hops early =
        hops-Kept c (record c { out = out }) hops early refl refl refl refl

    send_prebuilt-Kept :
        (c : Circuit k) (hop cmd s : ℕ) (message : List ℕ)
        → Kept k c (send_prebuilt k fill send circ_id c hop cmd s message).0
    unfolding send_prebuilt
    send_prebuilt-Kept c hop cmd s message =
        let (hops, early) = build_relay_cell-length k fill c.out circ_id hop cmd s message in
        built-Kept c (build_relay_cell k fill c.out circ_id hop cmd s message false) hops early

    after-Kept :
        (c : Circuit k) (o : Outcome k fill send circ_id)
        (next : Circuit k → Outcome k fill send circ_id)
        → Kept k c o.0
        → ((c' : Circuit k) → Kept k c' (next c').0)
        → Kept k c (after k fill send circ_id o next).0
    after-Kept c (c', cells, err e) next p q = p
    after-Kept c (c', cells, ok accepted) next p q = Kept-trans k c c' (next c').0 p (q c')

    send_xoff-Kept :
        (hop s : ℕ) (stop : Bool) (c : Circuit k)
        → Kept k c (send_xoff k fill send circ_id hop s stop c).0
    send_xoff-Kept hop s true c =
        let c' : Circuit k = record c { streams = at_stream s stopped c.streams } in
        Kept-trans k c c' (send_prebuilt k fill send circ_id c' hop relay_xoff s (0 ∷ [])).0
          (at_stream-Kept s stopped c) (send_prebuilt-Kept c' hop relay_xoff s (0 ∷ []))
    send_xoff-Kept hop s false c = Kept-refl k c

    deliver-Kept :
        (now hop s : ℕ) (message : List ℕ) (found : Option Stream) (c : Circuit k)
        → Kept k c (deliver k fill send circ_id now hop s message found c).0
    unfolding deliver
    deliver-Kept now hop s message none c = Kept-refl k c
    deliver-Kept now hop s message (some stream) c =
        let stop = backed_up stream.xoff_limit (buffered message stream.buf) in
        let c' : Circuit k = record c {
          streams = at_stream s (buffered message) c.streams;
          meter = note_data c.meter now (length message);
        } in
        Kept-trans k c c' (send_xoff k fill send circ_id hop s stop c').0
          (Kept-streams k c c' refl refl refl refl
            (λ id. count_id-at_stream id s (buffered message) c.streams))
          (send_xoff-Kept hop s stop c')

    acknowledge-Kept :
        (hop : ℕ) (due : Result Bool) (c : Circuit k)
        → Kept k c (acknowledge k fill send circ_id hop due c).0
    unfolding acknowledge
    acknowledge-Kept hop (err e) c = Kept-refl k c
    acknowledge-Kept hop (ok false) c = Kept-refl k c
    acknowledge-Kept hop (ok true) c =
        send_prebuilt-Kept c hop relay_sendme 0 (sendme_payload c.last_recv_digest)

    pub on_data_cell-Kept :
        (now hop s : ℕ) (message : List ℕ) (c : Circuit k)
        → Kept k c (on_data_cell k fill send circ_id now hop s message c).0
    unfolding on_data_cell
    on_data_cell-Kept now hop s message c =
        let (flow, due) = note_received c.flow in
        let c' : Circuit k = record c { flow = flow } in
        after-Kept c (acknowledge k fill send circ_id hop due c')
          (λ d. deliver k fill send circ_id now hop s message (lookup s d.streams) d)
          (Kept-trans k c c' (acknowledge k fill send circ_id hop due c').0
            (other-Kept c c' refl refl refl refl refl) (acknowledge-Kept hop due c'))
          (λ d. deliver-Kept now hop s message (lookup s d.streams) d)
