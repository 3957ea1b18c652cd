-- ===== src/Cc/Link/Tests.antt =====
-- Instances of what is proved of a link.
use rust_tor_proxy.Prelude.{◌-◌, ◌≤◌, ◌≡◌, refl, max, length, arith, ok}
use rust_tor_proxy.Cc.Params.{exit, CcParams, defaults}
use rust_tor_proxy.Cc.Vegas.{
  new, clamp_cwnd, cwnd_update_rate, sendme_per_cwnd, can_send, inflight, on_send, on_sendme,
}
use rust_tor_proxy.Cc.Deliver
use rust_tor_proxy.Cc.Deliver.{DeliverCounter, on_cells, on_cells_cadence, on_data}
use rust_tor_proxy.Cc.Link.{Link, start, Step, send, deliver, Reach, here, next, honest_ack}
use rust_tor_proxy.Cc.Link.Progress.{in_flight_capped, never_stuck}
use rust_tor_proxy.Cc.Link.Stall.{stall_reachable}

-- A circuit with an increment of one cell, after one cell and its SENDME.
abbrev sent_one : Link
unfolding start defaults new Deliver.new clamp_cwnd cwnd_update_rate sendme_per_cwnd on_send
sent_one = record (start (defaults exit) 1) {
  sender = on_send (start (defaults exit) 1).sender 0;
  cells = 1;
}

abbrev answered : Link
unfolding sent_one on_data
answered = record sent_one { receiver = (on_data sent_one.receiver).0; cells = 0; sendmes = 1 }

answered-Reach : Reach (start (defaults exit) 1) answered
unfolding start defaults new Deliver.new clamp_cwnd cwnd_update_rate sendme_per_cwnd on_send
    can_send inflight on_data
answered-Reach = next (next here (send 0 refl (omega arith))) (deliver 0 refl)

honest_ack_example : ((on_sendme answered.sender 9).1 ≡ ok tt) × (1 ≤ length answered.sender.marks)
unfolding answered
honest_ack_example =
    honest_ack (defaults exit) 1 answered 9 (omega arith) answered-Reach (omega arith)

never_stuck_example : (m : Link) × Step answered m
unfolding start defaults new Deliver.new clamp_cwnd cwnd_update_rate sendme_per_cwnd on_send
    can_send inflight on_data
never_stuck_example =
    never_stuck (defaults exit) 1 answered (omega arith) answered-Reach (omega arith) (omega arith)

in_flight_capped_example :
    answered.sender.sent - answered.sender.acked ≤ max (defaults exit).cwnd_max 1
unfolding defaults
in_flight_capped_example =
    in_flight_capped (defaults exit) 1 answered (omega arith) (omega arith) answered-Reach

-- The consensus names an increment of 31 and a first window of 31; the relay answers 62, which
-- `adopt_congestion_control` accepts.
abbrev narrow : CcParams
unfolding defaults
narrow = record (defaults exit) { cwnd_init = 31 }

stall_reachable_example : (l : Link) × Reach (start narrow 62) l × ((m : Link) → ¬ Step l m)
unfolding narrow new clamp_cwnd cwnd_update_rate sendme_per_cwnd
stall_reachable_example = stall_reachable narrow 62 (omega arith) (omega arith)

abbrev counting : DeliverCounter
counting = record { inc = 31; seen = 30 }
