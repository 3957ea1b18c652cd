-- ===== src/Stream/Windows.antt =====
-- src/tor/circuit.rs, `send_stream_data`: the window of a stream for sending.
use rust_tor_proxy.Prelude.{
  ℕ, zero, suc, ◌+◌, ◌-◌, ◌%◌, ◌≤◌, ◌<◌, ◌≡◌, refl, ap, ap₂, ◌∙◌, arith, true, false, none, List,
  [], ◌∷◌, replicate, Result, ok, err, timed_out, ◌>>=◌, u32_mod,
}
use rust_tor_proxy.Relay.Circuit.{StreamBuf}
use rust_tor_proxy.Stream.{
  Wake, send_stream_data, is_spent, settle, end_of, error_of, first_of, fail_or,
}

-- A stream that has not ended or failed.
pub record IsOpen (buf : StreamBuf) : Type 0 where
  pub not_ended : buf.ended ≡ none
  pub no_error : buf.error ≡ none

abbrev pub one_less : StreamBuf → StreamBuf
one_less buf = record buf { package_window = (buf.package_window + 4294967295) % u32_mod }

goes_on :
    (buf : StreamBuf) (rest : Result StreamBuf)
    → IsOpen buf
    → fail_or (first_of (end_of buf.ended) (error_of buf.error)) rest ≡ rest
goes_on buf rest h =
    ap₂ (λ a b. fail_or (first_of (end_of a) (error_of b)) rest) h.not_ended h.no_error

settle-one_less : (buf : StreamBuf) → IsOpen buf → settle buf ≡ ok (one_less buf)
settle-one_less buf h = ap (λ a. fail_or (end_of a) (ok (one_less buf))) h.not_ended

-- A window that is not spent lets a chunk go at once, whatever a wait would bring.
send_stream_data-at_once :
    (waits : List Wake) (buf : StreamBuf)
    → IsOpen buf
    → is_spent buf ≡ false
    → send_stream_data waits buf ≡ ok (one_less buf)
unfolding send_stream_data
send_stream_data-at_once [] buf h e = rw e (settle-one_less buf h)
send_stream_data-at_once (w ∷ waits) buf h e = rw e (settle-one_less buf h)

-- As many chunks, one after another.
abbrev pub send_all : ℕ → StreamBuf → Result StreamBuf
send_all zero buf = ok buf
send_all (suc n) buf = send_stream_data [] buf >>= λ after. send_all n after

abbrev pub with_window : StreamBuf → ℕ → StreamBuf
with_window buf w = record buf { package_window = w }

send_all-window :
    (n w : ℕ) (buf : StreamBuf)
    → IsOpen buf
    → n ≤ w
    → w < 2147483648
    → send_all n (with_window buf w) ≡ ok (with_window buf (w - n))
send_all-window zero w buf h le small = ap (λ x. ok (with_window buf x)) (omega arith)
send_all-window (suc n) w buf h le small =
    let closed : is_spent (with_window buf w) ≡ false = ground arith in
    let sent =
      send_stream_data-at_once [] (with_window buf w)
        (record { not_ended = h.not_ended; no_error = h.no_error }) closed in
    let less : (w + 4294967295) % u32_mod ≡ w - 1 = omega arith in
    let left : w - 1 - n ≡ w - suc n = omega arith in
    ap (λ r. r >>= λ after. send_all n after) sent
    ∙ ap (λ x. send_all n (with_window buf x)) less
    ∙ send_all-window n (w - 1) buf h (omega arith) (omega arith)
    ∙ ap (λ x. ok (with_window buf x)) left

-- A wait in which nothing arrives.
abbrev pub quiet : StreamBuf → Wake
quiet buf = record { buf = buf; is_closed = false }

send_stream_data-spent :
    (k : ℕ) (buf : StreamBuf)
    → IsOpen buf
    → is_spent buf ≡ true
    → send_stream_data (replicate k (quiet buf)) buf
      ≡ err (timed_out "stream send window stayed empty")
unfolding send_stream_data
send_stream_data-spent zero buf h e =
    rw e (goes_on buf (err (timed_out "stream send window stayed empty")) h)
send_stream_data-spent (suc k) buf h e = rw e (
    goes_on buf (send_stream_data (replicate k (quiet buf)) buf) h
    ∙ send_stream_data-spent k buf h e)

-- An open stream that gets no SENDME of its own takes as many chunks as its window, a positive `i32`, has at first and no
-- more: however many waits follow in which nothing arrives, the next chunk ends with the deadline, and its write fails.
pub send_all-run_out :
    (w k : ℕ) (buf : StreamBuf)
    → IsOpen buf
    → w < 2147483648
    → (send_all w (with_window buf w) >>= λ after.
        send_stream_data (replicate k (quiet after)) after)
      ≡ err (timed_out "stream send window stayed empty")
send_all-run_out w k buf h small =
    let none_left : w - w ≡ 0 = omega arith in
    ap (λ r. r >>= λ after. send_stream_data (replicate k (quiet after)) after)
      (send_all-window w w buf h (omega arith) small ∙ ap (λ x. ok (with_window buf x)) none_left)
    ∙ send_stream_data-spent k (with_window buf 0)
        (record { not_ended = h.not_ended; no_error = h.no_error }) refl
