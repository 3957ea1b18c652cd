-- ===== src/Cc/Link/Stall.antt =====
-- src/tor/cc.rs, `Vegas` and `DeliverCounter` together: a window below one increment stalls.
use rust_tor_proxy.Prelude.{ℕ, zero, suc, ◌+◌, ◌-◌, ◌≤◌, ◌<◌, ◌≡◌, refl, ◌∙◌, max, u8_max, arith}
use rust_tor_proxy.Cc.Params.{CcParams}
use rust_tor_proxy.Cc.Vegas
use rust_tor_proxy.Cc.Vegas.Inv.{new-counters, on_send-counters, can_send_lt, can_send_of_lt}
use rust_tor_proxy.Cc.Deliver
use rust_tor_proxy.Cc.Deliver.{on_data_quiet}
use rust_tor_proxy.Cc.Link.{Link, start, Step, send, deliver, acknowledge, Reach, here, next}

module _ (p : CcParams) (inc : ℕ) where
  abbrev first_window : ℕ
  first_window = (Vegas.new p inc).cwnd

  -- `k` cells have gone out, of which the receiver has counted `j`.
  record Filling (k j : ℕ) (l : Link) : Type 0 where
    sent : l.sender.sent ≡ k
    acked : l.sender.acked ≡ 0
    cwnd : l.sender.cwnd ≡ first_window
    inc_of : l.receiver.inc ≡ max inc 1
    seen : l.receiver.seen ≡ j
    cells : l.cells + j ≡ k
    sendmes : l.sendmes ≡ 0

  filled :
      (k : ℕ)
      → k ≤ first_window
      → first_window ≤ u8_max
      → (l : Link) × Reach (start p inc) l × Filling k 0 l
  filled zero h f = (
    start p inc,
    here,
    unfold start Deliver.new in
        record {
          sent = (new-counters p inc).1;
          acked = (new-counters p inc).2;
          cwnd = refl;
          inc_of = refl;
          seen = refl;
          cells = refl;
          sendmes = refl;
        },
  )
  filled (suc k) h f =
      let (l, r, g) = filled k (omega arith) f in
      let room : l.sender.sent + 1 < 18446744073709551616 = omega (arith, g.sent) in
      let can = can_send_of_lt l.sender (omega (arith, g.sent, g.acked, g.cwnd)) in
      let c = on_send-counters l.sender 0 room in
      (
        _,
        next r (send 0 can room),
        record {
          sent = omega (arith, c.1, g.sent);
          acked = c.2 ∙ g.acked;
          cwnd = c.3 ∙ g.cwnd;
          inc_of = g.inc_of;
          seen = g.seen;
          cells = omega (arith, g.cells);
          sendmes = g.sendmes;
        },
      )

  drained :
      (j : ℕ)
      → j ≤ first_window
      → first_window < max inc 1
      → inc ≤ u8_max
      → (l : Link) × Reach (start p inc) l × Filling first_window j l
  drained zero h n f = filled first_window (omega arith) (omega arith)
  drained (suc j) h n f =
      let (l, r, g) = drained j (omega arith) n f in
      let quiet =
        on_data_quiet l.receiver (omega (arith, g.seen, g.inc_of)) (omega (arith, g.inc_of)) in
      (
        _,
        next r (deliver (first_window - suc j) (omega (arith, g.cells))),
        record {
          sent = g.sent;
          acked = g.acked;
          cwnd = g.cwnd;
          inc_of = rw quiet g.inc_of;
          seen = rw quiet (omega (arith, g.seen));
          cells = omega arith;
          sendmes = rw quiet (omega (arith, g.sendmes));
        },
      )

-- If the first window is below the increment that the ends agreed on, the circuit can reach a state
-- with no step left: the window is used up, the receiver has counted every cell, and no SENDME is
-- due.
pub stall_reachable :
    (p : CcParams) (inc : ℕ)
    → inc ≤ u8_max
    → (Vegas.new p inc).cwnd < max inc 1
    → (l : Link) × Reach (start p inc) l × ((m : Link) → ¬ Step l m)
stall_reachable p inc h n =
    let (l, r, g) = drained p inc (Vegas.new p inc).cwnd (omega arith) n h in (l, r, stuck l g)
  where
    stuck :
        (l : Link)
        → Filling p inc (Vegas.new p inc).cwnd (Vegas.new p inc).cwnd l
        → (m : Link) → ¬ Step l m
    stuck l g m (send now can room) =
        omega (arith, can_send_lt l.sender (omega (arith, g.cwnd)) can, g.sent, g.acked, g.cwnd)
    stuck l g m (deliver k e) = omega (arith, g.cells, e)
    stuck l g m (acknowledge now k e) = omega (arith, g.sendmes, e)
