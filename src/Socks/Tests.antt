-- ===== src/Socks/Tests.antt =====
-- Runs of the handshakes, and instances of what is proved of them.
use rust_tor_proxy.Prelude.{
  ◌≡◌, refl, ap, false, [], ◌∷◌, ◌++◌, codes, ok, arith, find, starts_with, from_utf8,
  split_whitespace, text_eq, eq_ignore_ascii_case, split_once, parse_uint, digits_of, digits_from,
  is_digit, ◌==◌,
}
use rust_tor_proxy.Socks.{Asked, connect, socks5, http, rep_succeeded}
use rust_tor_proxy.Socks.Session.{Conn, read_exact}
use rust_tor_proxy.Socks.Reply.{
  reply_bytes, reply_code, is_granted, not_found, reply_bytes-is_granted,
}
use rust_tor_proxy.Socks.Http.{
  negotiate_http, read_http_head, head_from, ends_with, answer, wants_status, target_of,
  rsplit_once, skip_brackets, finish,
}
use rust_tor_proxy.Socks.Negotiate.{negotiate}
use rust_tor_proxy.Socks.Accepted.{IsUsableAsked, negotiate-IsUsable}
use rust_tor_proxy.Socks.Steps.{IsHost}
use rust_tor_proxy.Socks.Roundtrip.{socks5_bytes, negotiate-socks5_bytes}

abbrev http_start : Conn
http_start = record { input = codes "CONNECT a.b:80 HTTP/1.1\r\n\r\nhi"; sent = [] }

abbrev a_b : Asked
a_b = connect (record { host = codes "a.b"; port = 80; protocol = http })

negotiate-http_start : negotiate http_start ≡ (ok a_b, record { input = codes "hi"; sent = [] })
unfolding negotiate negotiate_http read_http_head head_from ends_with answer wants_status target_of
    rsplit_once skip_brackets finish read_exact find starts_with from_utf8 split_whitespace text_eq
    eq_ignore_ascii_case split_once parse_uint digits_of digits_from is_digit
negotiate-http_start = refl

negotiate-IsUsable_example : IsUsableAsked a_b
negotiate-IsUsable_example = negotiate-IsUsable http_start a_b (ap (λ p. p.0) negotiate-http_start)

name-IsHost : IsHost (codes "a.b")
name-IsHost = record {
  ascii = (omega arith, (omega arith, (omega arith, tt)));
  some_name = omega arith;
  short = omega arith;
}

negotiate-socks5_bytes_example :
    negotiate (record { input = socks5_bytes (codes "a.b") 443 ++ codes "hi"; sent = [] }) ≡ (
      ok (connect (record { host = codes "a.b"; port = 443; protocol = socks5 })),
      record { input = codes "hi"; sent = 5 ∷ 0 ∷ [] },
    )
negotiate-socks5_bytes_example =
    negotiate-socks5_bytes (codes "a.b") 443 (codes "hi") name-IsHost (omega arith) (omega arith)

reply_bytes-is_granted_example :
    (is_granted http (reply_bytes http 5) ≡ (5 == rep_succeeded))
    × (is_granted http (reply_bytes http (reply_code not_found)) ≡ false)
reply_bytes-is_granted_example = reply_bytes-is_granted http 5 not_found

-- A blank line of bare newlines ends the head too.
head_ends : head_from (codes "G") (codes "\n\nrest") ≡ (ok (codes "G\n\n"), codes "rest")
unfolding head_from ends_with starts_with
head_ends = refl
