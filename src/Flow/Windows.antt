-- ===== src/Flow/Windows.antt =====
-- src/tor/circuit.rs, `FlowControl::Window`: the receiving side of the fixed windows.
use rust_tor_proxy.Prelude.{
  ℕ, zero, suc, ◌+◌, ◌-◌, ◌*◌, ◌≤◌, ◌<◌, ◌≡◌, ◌⊎◌, refl, ap, inl, inr, Bool, true, false, Result,
  ok, err, ◌>>=◌, arith,
}
use rust_tor_proxy.Cc.Deliver.{bit}
use rust_tor_proxy.Flow.{FlowControl, window, note_received}

abbrev acks_of : Result Bool → ℕ
acks_of (ok b) = bit b
acks_of (err e) = 0

-- A stretch of received cells: the state after it, and how many SENDMEs it drew. It stops at a cell
-- that is an error.
pub receive : ℕ → FlowControl → Result (FlowControl × ℕ)
receive zero f = ok (f, 0)
receive (suc n) f =
    let rest = receive n (note_received f).0 in
    (do ack ← (note_received f).1; (f', acks) ← rest; ok (f', acks + bit ack))

note_received-window :
    (p d : ℕ)
    → 900 < d
    → d ≤ 1000
    → ((note_received (window p d) ≡ (window p (d - 1), ok false)) × (901 < d))
      ⊎ ((note_received (window p d) ≡ (window p 1000, ok true)) × (d ≡ 901))
unfolding note_received
note_received-window p d low high = ground arith

receive-ok :
    (n : ℕ) (f g h : FlowControl) (ack : Bool) (acks : ℕ)
    → note_received f ≡ (g, ok ack)
    → receive n g ≡ ok (h, acks)
    → receive (suc n) f ≡ ok (h, acks + bit ack)
unfolding receive
receive-ok n f g h ack acks e r = rw (ap (λ x. x.1) e, ap (λ x. x.0) e, r) refl

-- Under the fixed windows, from a window of 901 to 1000, no number of received cells is an error. Each is in an acknowledged
-- hundred or still counted, and the window goes no lower than 901: the check for a peer that overruns
-- it is never reached.
pub receive-window :
    (n p d : ℕ)
    → 900 < d
    → d ≤ 1000
    → (d' acks : ℕ) × (receive n (window p d) ≡ ok (window p d', acks))
      × (900 < d')
      × (d' ≤ 1000)
      × (acks * 100 + (1000 - d') ≡ n + (1000 - d))
unfolding receive
receive-window zero p d low high = (d, 0, refl, low, high, omega arith)
receive-window (suc n) p d low high = elim (note_received-window p d low high) [
  | inl (e, more) ↦
      let (d', acks, r, l, h, sum) = receive-window n p (d - 1) (omega arith) (omega arith) in
      (d', acks + 0, receive-ok n _ _ _ false acks e r, l, h, omega arith)
  | inr (e, last) ↦
      let (d', acks, r, l, h, sum) = receive-window n p 1000 (omega arith) (omega arith) in
      (d', acks + 1, receive-ok n _ _ _ true acks e r, l, h, omega arith)
]
