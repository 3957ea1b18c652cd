-- ===== src/Cc/Vegas/Cells.antt =====
-- src/tor/cc.rs, `Vegas::on_send` and `on_sendme`: the counters of cells and the send times.
use native.Mathlib.Nat.{mod-add-mod, mod_self, mod-eq_of_lt, mod-lt}
use native.Mathlib.Decide.{dec_lt}
use rust_tor_proxy.Prelude.{
  ℕ, ◌+◌, ◌-◌, ◌*◌, ◌%◌, ◌≤◌, ◌<◌, ◌≡◌, refl, ap, ◌∙◌, ◌⊎◌, inl, inr, List, [], ◌∷◌, ◌/◌, min, sym,
  drop, length, length-append, arith, u64_mod, u64_max, ok, err, invalid_data,
}
use rust_tor_proxy.Cc.Vegas.Frame.{SameCells, update_rtt-SameCells, vegas_update-SameCells}
use rust_tor_proxy.Cc.Vegas.{Vegas, on_send, on_sendme, take_sample, tick}

-- One send time is kept for each whole increment that is outstanding.
pub record IsCounted (v : Vegas) : Type 0 where
  pub positive : 1 ≤ v.sendme_inc
  pub fits : v.sent < u64_mod
  pub counted : v.sent ≡ v.acked + length v.marks * v.sendme_inc + v.sent % v.sendme_inc

-- The remainder of the next number.
mod-step :
    (n m : ℕ)
    → 1 ≤ m
    → (((n + 1) % m ≡ 0) × (n % m + 1 ≡ m)) ⊎ (((n + 1) % m ≡ n % m + 1) × (n % m + 1 < m))
mod-step n m h = elim (dec_lt (n % m + 1) m) [
  | yes p ↦ inr (sym (mod-add-mod n m 1) ∙ mod-eq_of_lt p, p)
  | no p ↦
      let e : n % m + 1 ≡ m = omega (arith, mod-lt n h) in
      inl (sym (mod-add-mod n m 1) ∙ ap (λ (t : ℕ). t % m) e ∙ mod_self m, e)
]

-- The state after a send, where the counter does not wrap.
sent-on_send : (v : Vegas) (now : ℕ) → v.sent + 1 < u64_mod → (on_send v now).sent ≡ v.sent + 1
unfolding on_send
sent-on_send v now h = omega arith

marks-on_send :
    (v : Vegas) (now : ℕ)
    → 1 ≤ v.sendme_inc
    → v.sent + 1 < u64_mod
    → length (on_send v now).marks * v.sendme_inc + (v.sent + 1) % v.sendme_inc
      ≡ length v.marks * v.sendme_inc + v.sent % v.sendme_inc + 1
unfolding on_send
marks-on_send v now p h =
    let e : (v.sent + 1) % u64_mod ≡ v.sent + 1 = omega arith in
    let l = length-append v.marks (now ∷ []) in
    rw e (elim (mod-step v.sent v.sendme_inc p) [
      | inl (z, last) ↦ rw z (omega (arith, ap (λ (t : ℕ). t * v.sendme_inc) l))
      | inr (z, more) ↦ ground arith
    ])

-- With room for one more cell in the counter, a send keeps one send time for each whole increment.
pub on_send-IsCounted :
    (v : Vegas) (now : ℕ) → IsCounted v → v.sent + 1 < u64_mod → IsCounted (on_send v now)
unfolding on_send
on_send-IsCounted v now c h = record {
  positive = c.positive;
  fits = omega arith;
  counted =
      let e : (v.sent + 1) % u64_mod ≡ v.sent + 1 = omega arith in
      omega (arith, marks-on_send v now c.positive h, ap (λ (t : ℕ). t % v.sendme_inc) e);
}

-- The state without its oldest send time.
abbrev popped : Vegas → Vegas
popped v = record v { marks = drop 1 v.marks }

sample-SameCells :
    (v : Vegas) (now : ℕ) (ms : List ℕ) → v.marks ≡ ms → SameCells (popped v) (take_sample v now).0
unfolding take_sample
sample-SameCells v now [] e = rw (take_sample, e) (ground arith)
sample-SameCells v now (sent_at ∷ rest) e =
    rw (take_sample, e)
      (ground (
        arith,
        update_rtt-SameCells (record v { marks = rest }) (min ((now - sent_at) / 1000) u64_max),
      ))

-- What a SENDME that is accepted does to the counters.
pub record Acked (v w : Vegas) : Type 0 where
  pub params : w.params ≡ v.params
  pub sendme_inc : w.sendme_inc ≡ v.sendme_inc
  pub sent : w.sent ≡ v.sent
  pub acked : w.acked ≡ v.acked + v.sendme_inc
  pub within : w.acked ≤ w.sent
  pub had_mark : 1 ≤ length v.marks
  pub marks : w.marks ≡ drop 1 v.marks

outstanding_mark : (v : Vegas) → IsCounted v → v.sendme_inc ≤ v.sent - v.acked → 1 ≤ length v.marks
outstanding_mark v c h = go v.marks refl
  where
    go : (ms : List ℕ) → v.marks ≡ ms → 1 ≤ length ms
    go [] e =
        absurd
          (omega (arith, c.counted, ap (λ t. length t * v.sendme_inc) e, mod-lt v.sent c.positive))
    go (m ∷ ms) e = omega arith

-- Where a whole increment is outstanding, a SENDME is accepted: it acknowledges exactly one increment
-- without a wrap, never passes `sent`, and takes off the oldest send time, which is there.
pub on_sendme-Acked :
    (v : Vegas) (now : ℕ)
    → IsCounted v
    → v.sendme_inc ≤ v.sent - v.acked
    → ((on_sendme v now).1 ≡ ok tt) × Acked v (on_sendme v now).0
unfolding on_sendme tick
on_sendme-Acked v now c h =
    let t = tick v in
    ground (
      arith,
      c.fits,
      outstanding_mark v c,
      sample-SameCells t now v.marks refl,
      vegas_update-SameCells (take_sample t now).0,
    )

-- Otherwise it is an error, and nothing changes.
pub on_sendme-err :
    (v : Vegas) (now : ℕ)
    → v.sent - v.acked < v.sendme_inc
    → on_sendme v now ≡ (v, err (invalid_data "SENDME acknowledged cells that were never sent"))
unfolding on_sendme
on_sendme-err v now h = ground arith

-- A SENDME keeps the counters and the send times in step, whether it is accepted or not.
pub on_sendme-IsCounted : (v : Vegas) (now : ℕ) → IsCounted v → IsCounted (on_sendme v now).0
on_sendme-IsCounted v now c = elim (dec_lt (v.sent - v.acked) v.sendme_inc) [
  | yes p ↦ rw (on_sendme-err v now p) c
  | no p ↦ acked-IsCounted v _ v.marks refl c (on_sendme-Acked v now c (omega arith)).1
]
  where
    acked-IsCounted :
        (v w : Vegas) (ms : List ℕ) → v.marks ≡ ms → IsCounted v → Acked v w → IsCounted w
    acked-IsCounted v w [] e c a = absurd (omega (arith, a.had_mark, ap length e))
    acked-IsCounted v w (m ∷ ms) e c a = record {
      positive = omega (arith, c.positive, a.sendme_inc);
      fits = omega (arith, c.fits, a.sent);
      counted =
          rw (a.sent, a.acked, a.sendme_inc, a.marks ∙ ap (drop 1) e)
            (omega (arith, c.counted, ap (λ t. length t * v.sendme_inc) e));
    }
