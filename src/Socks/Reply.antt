-- ===== src/Socks/Reply.antt =====
-- src/socks5.rs, `send_reply` and `reply_code`: how a connection is told what became of it.
use rust_tor_proxy.Prelude.{
  ℕ, ◌≡◌, ◌<◌, refl, ◌∙◌, Bool, false, ◌||◌, List, [], ◌∷◌, ◌++◌, get_or, starts_with, ◌==◌,
  if◌then◌else◌, Text, codes, arith,
}
use rust_tor_proxy.Socks.{
  Protocol, socks5, socks4, http, version, atyp_ipv4, socks4_granted, socks4_rejected,
  rep_succeeded, rep_general_failure, rep_not_allowed, rep_host_unreachable, rep_connection_refused,
  rep_ttl_expired,
}
use rust_tor_proxy.Socks.Session.{Session, write_all}

-- What the code reads of an `io::Error`: the `StreamEnd` inside it, or its kind.
pub data Failure : Type 0 where
  stream_end : ℕ → Failure
  connection_refused timed_out not_found permission_denied other : Failure

abbrev pub end_reason_resolvefailed : ℕ
end_reason_resolvefailed = 2

abbrev pub end_reason_connectrefused : ℕ
end_reason_connectrefused = 3

abbrev pub end_reason_exitpolicy : ℕ
end_reason_exitpolicy = 4

abbrev pub end_reason_timeout : ℕ
end_reason_timeout = 7

abbrev pub end_reason_noroute : ℕ
end_reason_noroute = 8

abbrev end_code : ℕ → ℕ
end_code reason =
    if reason == end_reason_exitpolicy
    then rep_not_allowed
    else if reason == end_reason_resolvefailed || reason == end_reason_noroute
    then rep_host_unreachable
    else if reason == end_reason_connectrefused
    then rep_connection_refused
    else if reason == end_reason_timeout
    then rep_ttl_expired
    else rep_general_failure

-- `reply_code`
unfoldable pub reply_code : Failure → ℕ
reply_code (stream_end reason) = end_code reason
reply_code connection_refused = rep_connection_refused
reply_code timed_out = rep_ttl_expired
reply_code not_found = rep_host_unreachable
reply_code permission_denied = rep_not_allowed
reply_code other = rep_general_failure

abbrev http_status : ℕ → Text
http_status code =
    if code == rep_succeeded
    then codes "200 Connection established"
    else if code == rep_not_allowed
    then codes "403 Forbidden"
    else if code == rep_host_unreachable
    then codes "404 Not Found"
    else if code == rep_connection_refused
    then codes "502 Bad Gateway"
    else if code == rep_ttl_expired
    then codes "504 Gateway Timeout"
    else codes "502 Bad Gateway"

abbrev closing : ℕ → Text
closing code = if code == rep_succeeded then [] else codes "Connection: close\r\n"

-- The bytes of the answer.
unfoldable pub reply_bytes : Protocol → ℕ → List ℕ
reply_bytes socks5 code = version ∷ code ∷ 0 ∷ atyp_ipv4 ∷ 0 ∷ 0 ∷ 0 ∷ 0 ∷ 0 ∷ 0 ∷ []
reply_bytes socks4 code =
    0
    ∷ (if code == rep_succeeded then socks4_granted else socks4_rejected)
    ∷ 0
    ∷ 0
    ∷ 0
    ∷ 0
    ∷ 0
    ∷ 0
    ∷ []
reply_bytes http code =
    codes "HTTP/1.1 " ++ (http_status code ++ (codes "\r\n" ++ (closing code ++ codes "\r\n")))

-- `send_reply`
unfoldable pub send_reply : Protocol → ℕ → Session (Unit {0})
send_reply protocol code = write_all (reply_bytes protocol code)

-- How a client of each protocol recognises that it has its connection.
pub is_granted : Protocol → List ℕ → Bool
is_granted socks5 bytes = get_or bytes 1 0 == 0
is_granted socks4 bytes = get_or bytes 1 0 == 90
is_granted http bytes = starts_with (codes "HTTP/1.1 2") bytes

reply_code-pos : (f : Failure) → 0 < reply_code f
unfolding reply_code
reply_code-pos (stream_end reason) = ground arith
reply_code-pos connection_refused = omega arith
reply_code-pos timed_out = omega arith
reply_code-pos not_found = omega arith
reply_code-pos permission_denied = omega arith
reply_code-pos other = omega arith

http_granted : (code : ℕ) → is_granted http (reply_bytes http code) ≡ (code == rep_succeeded)
unfolding is_granted reply_bytes starts_with
http_granted code = ground arith

-- In each protocol a client reads the answer as success just when the code is that of success, and no
-- failure is ever given that code.
pub reply_bytes-is_granted :
    (p : Protocol) (code : ℕ) (f : Failure)
    → (is_granted p (reply_bytes p code) ≡ (code == rep_succeeded))
      × (is_granted p (reply_bytes p (reply_code f)) ≡ false)
reply_bytes-is_granted p code f =
    (granted p code, granted p (reply_code f) ∙ failed (reply_code f) (reply_code-pos f))
  where
    granted :
        (p : Protocol) (code : ℕ) → is_granted p (reply_bytes p code) ≡ (code == rep_succeeded)
    granted socks5 code = unfold is_granted reply_bytes in refl
    granted socks4 code = unfold is_granted reply_bytes in ground arith
    granted http code = http_granted code

    failed : (code : ℕ) → 0 < code → (code == rep_succeeded) ≡ false
    failed code h = ground arith
