-- ===== src/Cc/Link/Progress.antt =====
-- src/tor/cc.rs, `Vegas` and `DeliverCounter` together: how much is in flight, when the link can go
-- on, and when it cannot.
use rust_tor_proxy.Prelude.{
  ℕ, zero, suc, ◌+◌, ◌-◌, ◌*◌, ◌≤◌, ◌<◌, ◌≡◌, refl, ap, ◌∙◌, ◌⊎◌, inl, inr, max, true, false,
  Bool-cases, u8_max, u32_max, u64_mod, arith,
}
use rust_tor_proxy.Cc.Params.{CcParams}
use rust_tor_proxy.Cc.Vegas
use rust_tor_proxy.Cc.Vegas.{Vegas}
use rust_tor_proxy.Cc.Vegas.Inv.{new-counters, on_send-counters, can_send_lt, can_send_ge}
use rust_tor_proxy.Cc.Vegas.Cells.{on_sendme-Acked}
use rust_tor_proxy.Cc.Link.{
  Link, start, Step, send, deliver, acknowledge, Reach, here, next, IsBalanced, Step-IsBalanced,
  Reach-IsBalanced, start-IsBalanced, accepts,
}

record IsCapped (p : CcParams) (l : Link) : Type 0 where
  params : l.sender.params ≡ p
  capped : l.sender.sent - l.sender.acked ≤ max p.cwnd_max 1
  balanced : IsBalanced l

Step-IsCapped :
    {p : CcParams} {l m : Link} → p.cwnd_max ≤ u32_max → Step l m → IsCapped p l → IsCapped p m
Step-IsCapped {p} {l} f (send now can room) c = record {
  params = (on_send-counters l.sender now room).4 ∙ c.params;
  capped =
      let s = on_send-counters l.sender now room in
      let cap : max l.sender.cwnd_max 1 ≡ max p.cwnd_max 1 = ap (λ q. max q.cwnd_max 1) c.params in
      rw (s.1, s.2)
        (omega (
          arith,
          can_send_lt l.sender (omega (arith, cap, c.balanced.sender.window.below, f)) can,
          c.balanced.sender.window.below,
          cap,
          f,
        ));
  balanced = Step-IsBalanced (send now can room) c.balanced;
}
Step-IsCapped {p} {l} f (deliver n e) c = record {
  params = c.params;
  capped = c.capped;
  balanced = Step-IsBalanced (deliver n e) c.balanced;
}
Step-IsCapped {p} {l} f (acknowledge now n e) c =
    let a = on_sendme-Acked l.sender now c.balanced.sender.counted (accepts n c.balanced e) in
    record {
      params = a.1.params ∙ c.params;
      capped = rw (a.1.sent, a.1.acked) (omega (arith, c.capped));
      balanced = Step-IsBalanced (acknowledge now n e) c.balanced;
    }

Reach-IsCapped :
    {p : CcParams} {l m : Link} → p.cwnd_max ≤ u32_max → IsCapped p l → Reach l m → IsCapped p m
Reach-IsCapped f c here = c
Reach-IsCapped f c (next r s) = Step-IsCapped f s (Reach-IsCapped f c r)

start-IsCapped : (p : CcParams) (inc : ℕ) → inc ≤ u8_max → IsCapped p (start p inc)
start-IsCapped p inc h = record {
  params = unfold start in (new-counters p inc).3;
  capped = unfold start in omega (arith, (new-counters p inc).1);
  balanced = start-IsBalanced p inc h;
}

-- Where `cwnd_max` fits 32 bits, cells that are sent only where `can_send` allows it never leave more
-- than `cwnd_max` of them (or one, if it is 0) unacknowledged, however the window moved meanwhile.
pub in_flight_capped :
    (p : CcParams) (inc : ℕ) (l : Link)
    → inc ≤ u8_max
    → p.cwnd_max ≤ u32_max
    → Reach (start p inc) l
    → l.sender.sent - l.sender.acked ≤ max p.cwnd_max 1
in_flight_capped p inc l h f r = (Reach-IsCapped f (start-IsCapped p inc h) r).capped

-- While the window is at least one increment (and the 64-bit counter has room), some step is
-- always possible: a sender that must wait is owed a SENDME.
pub never_stuck :
    (p : CcParams) (inc : ℕ) (l : Link)
    → inc ≤ u8_max
    → Reach (start p inc) l
    → l.sender.sendme_inc ≤ l.sender.cwnd
    → l.sender.sent + 1 < u64_mod
    → (m : Link) × Step l m
never_stuck p inc l h r wide room =
    go (Reach-IsBalanced (start-IsBalanced p inc h) r) l.cells l.sendmes refl refl
      (Bool-cases (Vegas.can_send l.sender))
  where
    go :
        IsBalanced l
        → (cells sendmes : ℕ) → l.cells ≡ cells
        → l.sendmes ≡ sendmes
        → (Vegas.can_send l.sender ≡ true) ⊎ (Vegas.can_send l.sender ≡ false)
        → (m : Link) × Step l m
    go b cells sendmes ec es (inl can) = (_, send 0 can room)
    go b (suc n) sendmes ec es (inr full) = (_, deliver n ec)
    go b zero (suc n) ec es (inr full) = (_, acknowledge 0 n es)
    go b zero zero ec es (inr full) = absurd (
        omega (
          arith,
          b.balance,
          b.receiver.below,
          b.agreed,
          can_send_ge l.sender full,
          ap (λ (t : ℕ). t * l.sender.sendme_inc) es,
        ))
