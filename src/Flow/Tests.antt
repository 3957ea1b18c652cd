-- ===== src/Flow/Tests.antt =====
-- Instances of what is proved of the flow control.
use rust_tor_proxy.Prelude.{
  ℕ, ◌+◌, ◌-◌, ◌*◌, ◌≤◌, ◌<◌, ◌≡◌, ◌⊎◌, refl, none, List, [], ◌∷◌, ok, arith,
}
use rust_tor_proxy.Cc.Params.{exit, defaults}
use rust_tor_proxy.Cc.Vegas
use rust_tor_proxy.Cc.Deliver
use rust_tor_proxy.Extensions.{Extension}
use rust_tor_proxy.Flow.{
  FlowControl, window, congestion, windows, find_response, adopt_answer, adopt_congestion_control,
  relay_data_max,
}
use rust_tor_proxy.Flow.Adopted.{Agreed, adopt_congestion_control-Agreed}
use rust_tor_proxy.Flow.Windows.{receive, receive-window}

abbrev answer : List Extension
answer = record { kind = 2; body = 62 ∷ [] } ∷ []

abbrev paced : FlowControl
unfolding defaults
paced = congestion (Vegas.new (defaults exit) 62) (Deliver.new 62) (500 * relay_data_max)

adopt_answer_62 : adopt_congestion_control answer (defaults exit) windows ≡ ok paced
unfolding adopt_congestion_control find_response adopt_answer defaults paced
adopt_answer_62 = refl

adopt_congestion_control-Agreed_example :
    ((find_response answer ≡ none) × (paced ≡ windows)) ⊎ Agreed answer (defaults exit) paced
adopt_congestion_control-Agreed_example =
    adopt_congestion_control-Agreed answer (defaults exit) windows paced adopt_answer_62

receive-window_example :
    (d' acks : ℕ) × (receive 250 (window 1000 1000) ≡ ok (window 1000 d', acks))
    × (900 < d')
    × (d' ≤ 1000)
    × (acks * 100 + (1000 - d') ≡ 250 + (1000 - 1000))
receive-window_example = receive-window 250 1000 1000 (omega arith) (omega arith)
