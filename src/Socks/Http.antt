-- ===== src/Socks/Http.antt =====
-- src/socks5.rs, `negotiate_http` and `read_http_head`: the CONNECT method, and the status page.
use rust_tor_proxy.Prelude.{
  ℕ, ◌+◌, ◌/◌, ◌%◌, Bool, true, false, ◌&&◌, ◌||◌, Option, none, some, List, [], ◌∷◌, ◌++◌, reverse,
  length, take, leb, ltb, ◌==◌, if◌then◌else◌, Text, codes, text_eq, starts_with, find, split_once,
  split_whitespace, eq_ignore_ascii_case, parse_uint, from_utf8, Result, ok, err, invalid_data,
  unexpected_eof,
}
use rust_tor_proxy.Socks.{
  Request, Protocol, http, Asked, connect, status, max_http_header_bytes, rep_general_failure,
}
use rust_tor_proxy.Socks.Session.{Session, pure, fail, ◌>>=◌, ◌>>◌, write_all, some_or}
use rust_tor_proxy.Socks.Reply.{send_reply}

unfoldable pub ends_with : Text → Text → Bool
unfolding starts_with
ends_with suffix s = starts_with (reverse suffix) (reverse s)

-- The loop of `read_http_head`, on the bytes that the client sends.
unfoldable pub head_from : List ℕ → List ℕ → Result (List ℕ) × List ℕ
unfolding ends_with
head_from head [] =
    if ends_with (codes "\r\n\r\n") head
    then (ok head, [])
    else if leb max_http_header_bytes (length head)
    then (err (invalid_data "HTTP request headers are too long"), [])
    else (err unexpected_eof, [])
head_from head (b ∷ bs) =
    let grown = head ++ (b ∷ []) in
    let more = head_from grown bs in
    if ends_with (codes "\r\n\r\n") head
    then (ok head, b ∷ bs)
    else if leb max_http_header_bytes (length head)
    then (err (invalid_data "HTTP request headers are too long"), b ∷ bs)
    else if ends_with (codes "\n\n") grown
    then (ok grown, bs)
    else more

-- `read_http_head`
unfoldable pub read_http_head : ℕ → Session Text
read_http_head first c =
    let (r, left) = head_from (first ∷ []) c.input in
    (do
      head ← λ c. (r, record c { input = left })
      some_or (from_utf8 head) (invalid_data "HTTP request is not UTF-8"))
      c

-- A number below 1000 in decimal.
unfoldable pub decimal : ℕ → Text
decimal n =
    if ltb n 10
    then (b'0' + n) ∷ []
    else if ltb n 100
    then (b'0' + n / 10) ∷ (b'0' + n % 10) ∷ []
    else (b'0' + n / 100) ∷ (b'0' + n / 10 % 10) ∷ (b'0' + n % 10) ∷ []

abbrev pub is_empty : Text → Bool
is_empty [] = true
is_empty (c ∷ cs) = false

-- The last check of each protocol.
unfoldable pub finish : Protocol → Text → ℕ → Session Request
finish protocol host port =
    if port == 0 || is_empty host
    then (do send_reply protocol rep_general_failure; fail (invalid_data "empty host or port"))
    else pure (record { host = host; port = port; protocol = protocol })

abbrev up_to : Text → Option ℕ → Text
up_to s none = s
up_to s (some i) = take i s

-- `head.split("\r\n").next()`
abbrev request_line : Text → Text
request_line head = up_to head (find (codes "\r\n") head)

abbrev first_field : List Text → Text
first_field [] = []
first_field (f ∷ fs) = f

abbrev second_field : List Text → Text
second_field [] = []
second_field (f ∷ fs) = first_field fs

abbrev turned : Option (Text × Text) → Option (Text × Text)
turned none = none
turned (some (b, a)) = some (reverse a, reverse b)

-- `s.rsplit_once(sep)`
unfoldable pub rsplit_once : ℕ → Text → Option (Text × Text)
unfolding split_once
rsplit_once sep s = turned (split_once sep (reverse s))

abbrev is_bracket : ℕ → Bool
is_bracket c = c == b'[' || c == b']'

unfoldable pub skip_brackets : Text → Text
skip_brackets [] = []
skip_brackets (c ∷ cs) = if is_bracket c then skip_brackets cs else c ∷ cs

-- `host.trim_matches(['[', ']'])`
abbrev pub trim_brackets : Text → Text
trim_brackets s = reverse (skip_brackets (reverse (skip_brackets s)))

-- The host and port of a CONNECT target.
unfoldable pub target_of : Text → Session (Text × ℕ)
target_of target = elim (rsplit_once b':' target) [
  | none ↦ pure (target, 443)
  | some (host, port) ↦ elim (parse_uint 65535 port) [
    | none ↦ fail (invalid_data "bad CONNECT port in {target:?}")
    | some p ↦ pure (trim_brackets host, p)
  ]
]

abbrev advice : Text
advice =
    codes
      "This is a Tor proxy. Use CONNECT, or point a SOCKS client at this port (socks5h://). The status page is at /status.\n"

-- The answer to any other method.
unfoldable pub not_implemented : List ℕ
unfolding decimal
not_implemented =
    codes "HTTP/1.1 501 Not Implemented\r\nContent-Type: text/plain\r\nContent-Length: "
    ++ (decimal (length advice) ++ (codes "\r\nConnection: close\r\n\r\n" ++ advice))

-- Whether a request is one for the status page.
unfoldable pub wants_status : Text → Text → Bool
wants_status method target =
    text_eq method (codes "GET")
    && (text_eq target (codes "/status") || starts_with (codes "/status?") target)

-- The end of `negotiate_http`, once the request line is split.
unfoldable pub answer : Text → Text → Session Asked
answer method target =
    if wants_status method target
    then pure status
    else if eq_ignore_ascii_case method (codes "CONNECT")
    then (do (host, port) ← target_of target; r ← finish http host port; pure (connect r))
    else (do
      write_all not_implemented
      fail (invalid_data "HTTP method {method:?} is not supported; only CONNECT is"))

-- `negotiate_http`
unfoldable pub negotiate_http : ℕ → Session Asked
negotiate_http first = do
  head ← read_http_head first
  let fields = split_whitespace (request_line head)
  answer (first_field fields) (second_field fields)
