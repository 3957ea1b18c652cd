-- ===== src/Cc/Link.antt =====
-- src/tor/cc.rs, `Vegas` and `DeliverCounter` together: a sender, the cells and SENDMEs under way,
-- and a receiver that counts by the same increment.
pub mod Progress
pub mod Stall
mod Tests
use rust_tor_proxy.Prelude.{
  ℕ, suc, ◌+◌, ◌-◌, ◌*◌, ◌≤◌, ◌<◌, ◌≡◌, refl, ap, sym, ◌∙◌, length, Bool, true, false,
  if◌then◌else◌, u8_max, u64_mod, arith, ok,
}
use rust_tor_proxy.Cc.Params.{CcParams}
use rust_tor_proxy.Cc.Vegas
use rust_tor_proxy.Cc.Vegas.{Vegas}
use rust_tor_proxy.Cc.Vegas.Inv.{
  IsValid, new-IsValid, new-counters, on_send-counters, on_send-IsValid, on_sendme-IsValid,
}
use rust_tor_proxy.Cc.Vegas.Cells.{Acked, on_sendme-Acked}
use rust_tor_proxy.Cc.Deliver
use rust_tor_proxy.Cc.Deliver.{DeliverCounter, bit, on_data_step, on_data-IsValid}

pub record Link : Type 0 where
  pub sender : Vegas
  pub receiver : DeliverCounter
  pub cells : ℕ
  pub sendmes : ℕ

-- Both ends of a circuit that agreed on the increment.
pub start : CcParams → ℕ → Link
start p inc = record {
  sender = Vegas.new p inc;
  receiver = Deliver.new inc;
  cells = 0;
  sendmes = 0;
}

-- The network delivers in its own time: any of the three may happen next. A cell is sent only where
-- `can_send` allows it, and while the 64-bit counter has room.
pub data Step (l : Link) : Link → Type 0 where
  send :
      (now : ℕ)
      → Vegas.can_send l.sender ≡ true
      → l.sender.sent + 1 < u64_mod
      → Step l (record l { sender = Vegas.on_send l.sender now; cells = l.cells + 1 })
  deliver :
      (n : ℕ)
      → l.cells ≡ suc n
      → Step l (record l {
        receiver = (Deliver.on_data l.receiver).0;
        cells = n;
        sendmes = l.sendmes + bit (Deliver.on_data l.receiver).1;
      })
  acknowledge :
      (now n : ℕ)
      → l.sendmes ≡ suc n
      → Step l (record l { sender = (Vegas.on_sendme l.sender now).0; sendmes = n })

pub data Reach (l : Link) : Link → Type 0 where
  here : Reach l l
  next : {m n : Link} → Reach l m → Step m n → Reach l n

-- Every cell that was sent is acknowledged, covered by a SENDME under way, counted by the receiver,
-- or under way itself.
pub record IsBalanced (l : Link) : Type 0 where
  pub sender : IsValid l.sender
  pub receiver : Deliver.IsValid l.receiver
  pub agreed : l.receiver.inc ≡ l.sender.sendme_inc
  pub balance :
      l.sender.sent ≡ l.sender.acked + l.sendmes * l.sender.sendme_inc + l.receiver.seen + l.cells

pub start-IsBalanced : (p : CcParams) (inc : ℕ) → inc ≤ u8_max → IsBalanced (start p inc)
unfolding start Deliver.new
start-IsBalanced p inc h = record {
  sender = (new-IsValid p inc).0;
  receiver = omega arith;
  agreed = sym (new-counters p inc).0;
  balance = omega (arith, new-counters p inc);
}

-- With a SENDME under way a whole increment is outstanding, so the sender accepts it.
pub accepts :
    {l : Link} (n : ℕ)
    → IsBalanced l
    → l.sendmes ≡ suc n
    → l.sender.sendme_inc ≤ l.sender.sent - l.sender.acked
accepts {l} n b e = omega (arith, b.balance, ap (λ (t : ℕ). t * l.sender.sendme_inc) e)

pub Step-IsBalanced : {l m : Link} → Step l m → IsBalanced l → IsBalanced m
Step-IsBalanced {l} (send now can room) b = record {
  sender = on_send-IsValid l.sender now b.sender room;
  receiver = b.receiver;
  agreed = b.agreed ∙ sym (on_send-counters l.sender now room).0;
  balance =
      let c = on_send-counters l.sender now room in rw (c.0, c.1, c.2) (omega (arith, b.balance));
}
Step-IsBalanced {l} (deliver n e) b = record {
  sender = b.sender;
  receiver = on_data-IsValid l.receiver b.receiver;
  agreed = (on_data_step l.receiver b.receiver).0 ∙ b.agreed;
  balance =
      let s = on_data_step l.receiver b.receiver in
      omega
        (arith, b.balance, s.1, ap (λ (t : ℕ). bit (Deliver.on_data l.receiver).1 * t) b.agreed);
}
Step-IsBalanced {l} (acknowledge now n e) b =
    let a = on_sendme-Acked l.sender now b.sender.counted (accepts n b e) in
    record {
      sender = on_sendme-IsValid l.sender now b.sender;
      receiver = b.receiver;
      agreed = b.agreed ∙ sym a.1.sendme_inc;
      balance =
          rw (a.1.sent, a.1.acked, a.1.sendme_inc)
            (omega (arith, b.balance, ap (λ (t : ℕ). t * l.sender.sendme_inc) e));
    }

pub Reach-IsBalanced : {l m : Link} → IsBalanced l → Reach l m → IsBalanced m
Reach-IsBalanced b here = b
Reach-IsBalanced b (next r s) = Step-IsBalanced s (Reach-IsBalanced b r)

-- Between two ends that agreed on an increment, in whatever order cells and SENDMEs arrive, the
-- sender never takes a SENDME for a protocol violation, and always has a send time to measure it
-- by.
pub honest_ack :
    (p : CcParams) (inc : ℕ) (l : Link) (now : ℕ)
    → inc ≤ u8_max
    → Reach (start p inc) l
    → 0 < l.sendmes
    → ((Vegas.on_sendme l.sender now).1 ≡ ok tt) × (1 ≤ length l.sender.marks)
honest_ack p inc l now h r pos =
    let b = Reach-IsBalanced (start-IsBalanced p inc h) r in
    let e : l.sendmes ≡ suc (l.sendmes - 1) = omega arith in
    let a = on_sendme-Acked l.sender now b.sender.counted (accepts (l.sendmes - 1) b e) in
    (a.0, a.1.had_mark)
