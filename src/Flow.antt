-- ===== src/Flow.antt =====
-- src/tor/circuit.rs, `FlowControl` and `adopt_congestion_control`: how one circuit is paced. An `i32`
-- is its two's complement, a number below 2 ^ 32, and its arithmetic wraps; the field `package` is `to_send`.
pub mod Adopted
pub mod Windows
mod Tests
use rust_tor_proxy.Prelude.{
  ℕ, ◌+◌, ◌-◌, ◌*◌, ◌%◌, Bool, true, false, ◌&&◌, ◌||◌, Option, none, some, List, [], ◌∷◌, ltb, leb,
  ◌==◌, if◌then◌else◌, Result, ok, err, invalid_data, u32_mod,
}
use rust_tor_proxy.Cc.Params.{CcParams}
use rust_tor_proxy.Cc.Vegas
use rust_tor_proxy.Cc.Vegas.{Vegas}
use rust_tor_proxy.Cc.Deliver
use rust_tor_proxy.Cc.Deliver.{DeliverCounter}
use rust_tor_proxy.Extensions.{Extension}

abbrev pub circuit_window_start : ℕ
circuit_window_start = 1000

abbrev pub circuit_window_increment : ℕ
circuit_window_increment = 100

abbrev pub ext_cc_response : ℕ
ext_cc_response = 2

-- `RELAY_DATA_MAX`: the 509 bytes of a body less the header's 11.
abbrev pub relay_data_max : ℕ
relay_data_max = 498

pub data FlowControl : Type 0 where
  window : (to_send deliver : ℕ) → FlowControl
  congestion : (vegas : Vegas) (delivered : DeliverCounter) (xoff_bytes : ℕ) → FlowControl

-- `windows`
abbrev pub windows : FlowControl
windows = window circuit_window_start circuit_window_start

abbrev is_negative : ℕ → Bool
is_negative x = leb 2147483648 x

abbrev minus_one : ℕ → ℕ
minus_one x = (x + 4294967295) % u32_mod

abbrev plus_increment : ℕ → ℕ
plus_increment x = (x + circuit_window_increment) % u32_mod

-- `may_send`
unfoldable pub may_send : FlowControl → Bool
may_send (window to_send deliver) = ltb 0 to_send && ltb to_send 2147483648
may_send (congestion vegas delivered xoff) = Vegas.can_send vegas

-- `note_sent`
unfoldable pub note_sent : FlowControl → ℕ → FlowControl
note_sent (window to_send deliver) now = window (minus_one to_send) deliver
note_sent (congestion vegas delivered xoff) now =
    congestion (Vegas.on_send vegas now) delivered xoff

-- `note_received`: the state is left decremented where it fails.
unfoldable pub note_received : FlowControl → FlowControl × Result Bool
note_received (window to_send deliver) =
    let left = minus_one deliver in
    if is_negative left
    then (window to_send left, err (invalid_data "peer overran the circuit deliver window"))
    else if leb left (circuit_window_start - circuit_window_increment)
    then (window to_send (plus_increment left), ok true)
    else (window to_send left, ok false)
note_received (congestion vegas delivered xoff) =
    let (counted, ack) = Deliver.on_data delivered in (congestion vegas counted xoff, ok ack)

-- `note_sendme`
unfoldable pub note_sendme : FlowControl → ℕ → FlowControl × Result (Unit {0})
note_sendme (window to_send deliver) now = (window (plus_increment to_send) deliver, ok tt)
note_sendme (congestion vegas delivered xoff) now =
    let (vegas', r) = Vegas.on_sendme vegas now in (congestion vegas' delivered xoff, r)

-- `xoff_bytes`
unfoldable pub xoff_bytes : FlowControl → Option ℕ
xoff_bytes (window to_send deliver) = none
xoff_bytes (congestion vegas delivered xoff) = some xoff

-- `answered.iter().find(|e| e.kind == EXT_CC_RESPONSE)`
unfoldable pub find_response : List Extension → Option Extension
find_response [] = none
find_response (e ∷ es) = if e.kind == ext_cc_response then some e else find_response es

-- The rest of `adopt_congestion_control`, once there is an answer.
unfoldable pub adopt_answer : List ℕ → CcParams → FlowControl → Result FlowControl
adopt_answer (sendme_inc ∷ []) params flow =
    if sendme_inc == 0
      || ltb (sendme_inc * 2) params.sendme_inc
      || ltb (params.sendme_inc * 2) sendme_inc
    then err (
        invalid_data
          "relay wants a SENDME every {offered} cells, but the consensus says {expected}")
    else ok (
        congestion (Vegas.new params sendme_inc) (Deliver.new sendme_inc)
          (params.xoff_client * relay_data_max))
adopt_answer body params flow = err (invalid_data "congestion control answer is not one byte")

abbrev adopt_found : Option Extension → CcParams → FlowControl → Result FlowControl
adopt_found none params flow = ok flow
adopt_found (some field) params flow = adopt_answer field.body params flow

-- `adopt_congestion_control`: the flow control afterwards.
unfoldable pub adopt_congestion_control :
    List Extension → CcParams → FlowControl → Result FlowControl
adopt_congestion_control answered params flow = adopt_found (find_response answered) params flow
