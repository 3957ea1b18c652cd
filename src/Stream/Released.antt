-- ===== src/Stream/Released.antt =====
-- src/tor/circuit.rs, `release_backpressure`: the far end is told once the application has taken enough.
use rust_tor_proxy.Prelude.{
  ℕ, zero, suc, ◌+◌, ◌*◌, ◌%◌, ◌≤◌, ◌<◌, ◌≡◌, refl, arith, true, not, ◌||◌, Bool-cases, inl, inr,
  u32_mod, Result, ok,
}
use rust_tor_proxy.Relay.Circuit.{StreamBuf, stream_window_increment}
use rust_tor_proxy.Stream.{is_low, is_acked, credited, release_window, release_sent}

-- After `n` SENDMEs: the far end may send what they say, and none is owed, or the application is behind.
pub record IsReleased (buf : StreamBuf) (n : ℕ) (after : StreamBuf) : Type 0 where
  pub counted : after.unacked + n * stream_window_increment ≡ buf.unacked
  pub opened : after.deliver_window ≡ (buf.deliver_window + n * stream_window_increment) % u32_mod
  pub unread : after.unread ≡ buf.unread
  pub settled : (is_acked after || not (is_low after)) ≡ true

credited-IsReleased :
    (buf : StreamBuf) (n : ℕ) (after : StreamBuf)
    → stream_window_increment ≤ buf.unacked
    → IsReleased (credited buf) n after
    → IsReleased buf (n + 1) after
credited-IsReleased buf n after h r = record {
  counted = (let c = r.counted in omega arith);
  opened = (let o = r.opened in omega arith);
  unread = r.unread;
  settled = r.settled;
}

-- Where every SENDME can be sent, the loop with the answers of `send_relay` is the loop that counts them.
pub release_sent-ok :
    (answers : ℕ → Result {0} Unit) (turn fuel : ℕ) (buf : StreamBuf)
    → ((i : ℕ) → answers i ≡ ok tt)
    → release_sent answers turn fuel buf ≡ (ok tt, (release_window fuel buf).1)
unfolding release_sent release_window
release_sent-ok answers turn zero buf h = refl
release_sent-ok answers turn (suc fuel) buf h =
    let later = release_sent-ok answers (turn + 1) fuel (credited buf) h in
    elim (Bool-cases (is_acked buf || not (is_low buf))) [
      | inl e ↦ rw (release_sent, release_window, e) refl
      | inr e ↦ rw (release_sent, release_window, e, h turn, later) refl
    ]

-- Under the window scheme every fifty cells taken are acknowledged as soon as the backlog is low: what was owed is
-- what is still owed and fifty for each SENDME, the window for receiving grows by as much (modulo 2 ^ 32), and the loop stops only
-- where less than fifty are owed or the backlog is high.
pub release_window-IsReleased :
    (fuel : ℕ) (buf : StreamBuf)
    → buf.unacked ≤ fuel
    → buf.unacked < 2147483648
    → buf.deliver_window < u32_mod
    → let (n, after) = release_window fuel buf in IsReleased buf n after
unfolding release_window
release_window-IsReleased zero buf h small bound = record {
  counted = omega arith;
  opened = omega arith;
  unread = refl;
  settled = ground arith;
}
release_window-IsReleased (suc fuel) buf h small bound =
    elim (Bool-cases (is_acked buf || not (is_low buf))) [
      | inl stop ↦
          rw stop
            (record { counted = omega arith; opened = omega arith; unread = refl; settled = stop })
      | inr more ↦
          let owed : stream_window_increment ≤ buf.unacked = ground arith in
          rw more (
            credited-IsReleased buf _ _ owed (
              release_window-IsReleased fuel (credited buf) (omega arith) (omega arith)
                (omega arith)))
    ]
