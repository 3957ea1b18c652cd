-- ===== src/Flow/Adopted.antt =====
-- src/tor/circuit.rs, `adopt_congestion_control`: which answers are taken up, and what follows.
use rust_tor_proxy.Prelude.{
  ℕ, ◌*◌, ◌≤◌, ◌≡◌, ◌⊎◌, inl, inr, none, some, refl, List, [], ◌∷◌, ok, arith, Option-cases,
}
use rust_tor_proxy.Cc.Params.{CcParams}
use rust_tor_proxy.Cc.Vegas
use rust_tor_proxy.Cc.Deliver
use rust_tor_proxy.Extensions.{Extension}
use rust_tor_proxy.Flow.{
  FlowControl, congestion, find_response, adopt_answer, adopt_congestion_control, relay_data_max,
}

-- The answer is one byte, within a factor of two of the consensus increment, and both halves start from it.
pub record Agreed (answered : List Extension) (p : CcParams) (f : FlowControl) : Type 0 where
  pub field : Extension
  pub found : find_response answered ≡ some field
  pub inc : ℕ
  pub one_byte : field.body ≡ inc ∷ []
  pub flow : f ≡ congestion (Vegas.new p inc) (Deliver.new inc) (p.xoff_client * relay_data_max)
  pub positive : 1 ≤ inc
  pub not_far_below : p.sendme_inc ≤ inc * 2
  pub not_far_above : inc ≤ p.sendme_inc * 2

-- When the answer is taken up, either it has no congestion control field and the flow control is as it
-- was, or the first such field holds exactly one byte, which is not 0 and within a factor of two of the
-- consensus increment, and the sender and the receiver of the new flow control both count by that byte.
pub adopt_congestion_control-Agreed :
    (answered : List Extension) (p : CcParams) (f g : FlowControl)
    → adopt_congestion_control answered p f ≡ ok g
    → ((find_response answered ≡ none) × (g ≡ f)) ⊎ Agreed answered p g
unfolding adopt_congestion_control adopt_answer
adopt_congestion_control-Agreed answered p f g h = elim (Option-cases (find_response answered)) [
  | inl e ↦ inl (e, ground arith)
  | inr (field, e) ↦ inr (of_body field e field.body refl (ground arith))
]
  where
    of_body :
        (field : Extension)
        → find_response answered ≡ some field
        → (body : List ℕ) → field.body ≡ body
        → adopt_answer body p f ≡ ok g
        → Agreed answered p g
    of_body field e [] b h = absurd (ground arith)
    of_body field e (inc ∷ []) b h = record {
      field = field;
      found = e;
      inc = inc;
      one_byte = b;
      flow = ground arith;
      positive = ground arith;
      not_far_below = ground arith;
      not_far_above = ground arith;
    }
    of_body field e (inc ∷ x ∷ xs) b h = absurd (ground arith)
