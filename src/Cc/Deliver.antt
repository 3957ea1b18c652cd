-- ===== src/Cc/Deliver.antt =====
-- src/tor/cc.rs, `DeliverCounter`: the receiving half of congestion control.
use rust_tor_proxy.Prelude.{
  ℕ, zero, suc, ◌+◌, ◌*◌, ◌%◌, ◌<◌, ◌≡◌, refl, ap, ◌∙◌, max, Bool, true, false, ltb, if◌then◌else◌,
  u32_mod, arith,
}

pub record DeliverCounter : Type 0 where
  pub inc : ℕ
  pub seen : ℕ

-- `DeliverCounter::new`
unfoldable pub new : ℕ → DeliverCounter
new sendme_inc = record { inc = max sendme_inc 1; seen = 0 }

-- `on_data`
unfoldable pub on_data : DeliverCounter → DeliverCounter × Bool
on_data c =
    let counted = record c { seen = (c.seen + 1) % u32_mod } in
    if ltb counted.seen c.inc then (counted, false) else (record counted { seen = 0 }, true)

pub record IsValid (c : DeliverCounter) : Type 0 where
  pub below : c.seen < c.inc
  pub fits : c.inc < u32_mod

abbrev pub bit : Bool → ℕ
bit true = 1
bit false = 0

-- The data cells of a stretch, and how many SENDMEs they drew.
pub on_cells : ℕ → DeliverCounter → DeliverCounter × ℕ
on_cells zero c = (c, 0)
on_cells (suc n) c =
    let (c', ack) = on_data c in let (c'', acks) = on_cells n c' in (c'', acks + bit ack)

pub on_data-IsValid : (c : DeliverCounter) → IsValid c → IsValid (on_data c).0
unfolding on_data
on_data-IsValid c i = ground arith

-- One cell is either counted, or completes an increment and is answered.
pub on_data_step :
    (c : DeliverCounter)
    → IsValid c
    → ((on_data c).0.inc ≡ c.inc) × ((on_data c).0.seen + bit (on_data c).1 * c.inc ≡ c.seen + 1)
unfolding on_data
on_data_step c i = ground arith

-- After any number of cells the counter is in range, and every cell is in an answered increment or
-- still counted: no SENDME is early, late, or lost.
pub on_cells_cadence :
    (n : ℕ) (c : DeliverCounter)
    → IsValid c
    → IsValid (on_cells n c).0
      × ((on_cells n c).0.inc ≡ c.inc)
      × ((on_cells n c).1 * c.inc + (on_cells n c).0.seen ≡ c.seen + n)
unfolding on_cells
on_cells_cadence zero c i = (i, refl, omega arith)
on_cells_cadence (suc n) c i =
    let s = on_data_step c i in
    let r = on_cells_cadence n (on_data c).0 (on_data-IsValid c i) in
    (r.0, r.1 ∙ s.0, omega (arith, s.1, r.2, ap (λ (t : ℕ). (on_cells n (on_data c).0).1 * t) s.0))

-- A cell that does not complete an increment is only counted.
pub on_data_quiet :
    (c : DeliverCounter)
    → c.seen + 1 < c.inc
    → c.inc < u32_mod
    → on_data c ≡ (record c { seen = c.seen + 1 }, false)
unfolding on_data
on_data_quiet c h f =
    let e : (c.seen + 1) % u32_mod ≡ c.seen + 1 = omega arith in rw e (ground arith)
