-- ===== src/Socks/Negotiate.antt =====
-- src/socks5.rs: the handshakes of SOCKS5 and SOCKS4, and the choice between the protocols.
use rust_tor_proxy.Prelude.{
  ℕ, ◌%◌, Bool, not, ◌&&◌, List, [], ◌∷◌, ◌++◌, any, get_or, length, leb, ◌==◌, if◌then◌else◌, Text,
  u16_mod, from_utf8, Result, ok, err, invalid_data, unexpected_eof,
}
use rust_tor_proxy.Cell.Bytes.{u16_of}
use rust_tor_proxy.Socks.{
  socks5, socks4, Request, Asked, connect, version, socks4_version, method_no_auth,
  method_user_pass, method_none_acceptable, cmd_connect, atyp_ipv4, atyp_domain, atyp_ipv6,
  rep_command_not_supported, rep_address_type_not_supported,
}
use rust_tor_proxy.Socks.Session.{Session, pure, fail, ◌>>=◌, ◌>>◌, read_exact, write_all, some_or}
use rust_tor_proxy.Socks.Reply.{send_reply}
use rust_tor_proxy.Socks.Http.{decimal, finish, negotiate_http}

abbrev offers : List ℕ → ℕ → Bool
offers xs a = any (λ x. x == a) xs

-- `Ipv4Addr::from(addr).to_string()`
unfoldable pub ipv4_text : ℕ → ℕ → ℕ → ℕ → Text
unfolding decimal
ipv4_text a b c d = decimal a ++ (b'.' ∷ (decimal b ++ (b'.' ∷ (decimal c ++ (b'.' ∷ decimal d)))))

abbrev pub at : List ℕ → ℕ → ℕ
at bytes i = get_or bytes i 0

-- One field of `read_username_password`: its length and its bytes.
unfoldable pub read_field : Session (Unit {0})
read_field = do len ← read_exact 1; field ← read_exact (at len 0); pure tt

-- `read_username_password`
unfoldable pub read_username_password : Session (Unit {0})
read_username_password = do
  ver ← read_exact 1
  if at ver 0 == 1
      then (do read_field; read_field)
      else fail (invalid_data "unsupported username/password version {}")

-- The method greeting of SOCKS5.
unfoldable pub greet : Session (Unit {0})
greet = do
  count ← read_exact 1
  methods ← read_exact (at count 0)
  if offers methods method_no_auth
      then write_all (version ∷ method_no_auth ∷ [])
      else if offers methods method_user_pass
      then (do
        write_all (version ∷ method_user_pass ∷ [])
        read_username_password
        write_all (1 ∷ 0 ∷ []))
      else (do
        write_all (version ∷ method_none_acceptable ∷ [])
        fail (invalid_data "client offered no acceptable auth method"))

-- The destination of a SOCKS5 request, by its address type.
unfoldable pub read_host : ℕ → Session Text
read_host atyp =
    if atyp == atyp_ipv4
    then (do addr ← read_exact 4; pure (ipv4_text (at addr 0) (at addr 1) (at addr 2) (at addr 3)))
    else if atyp == atyp_domain
    then (do
      len ← read_exact 1
      name ← read_exact (at len 0)
      some_or (from_utf8 name) (invalid_data "host name is not UTF-8"))
    else if atyp == atyp_ipv6
    then (do
      addr ← read_exact 16
      port ← read_exact 2
      send_reply socks5 rep_address_type_not_supported
      fail (invalid_data "IPv6 destinations are not supported"))
    else (do
      send_reply socks5 rep_address_type_not_supported
      fail (invalid_data "unknown address type {other}"))

-- `u16::from_be_bytes`: a port is a `u16`, whatever the two numbers that were read.
abbrev pub port_of : ℕ → ℕ → ℕ
port_of a b = u16_of a b % u16_mod

-- `negotiate_socks5`
unfoldable pub negotiate_socks5 : Session Request
negotiate_socks5 = do
  greet
  header ← read_exact 4
  if not (at header 0 == version)
      then fail (invalid_data "bad SOCKS version in request")
      else if not (at header 1 == cmd_connect)
      then (do
        send_reply socks5 rep_command_not_supported
        fail (invalid_data "unsupported command {}"))
      else (do
        host ← read_host (at header 3)
        port ← read_exact 2
        finish socks5 host (port_of (at port 0) (at port 1)))

-- The loop of `read_until_nul`, on the bytes that the client sends; `out` is what was read.
unfoldable pub until_nul : ℕ → List ℕ → List ℕ → Result (List ℕ) × List ℕ
until_nul limit out [] = (err unexpected_eof, [])
until_nul limit out (b ∷ bs) =
    let more = until_nul limit (out ++ (b ∷ [])) bs in
    if b == 0
    then (ok out, bs)
    else if leb limit (length out)
    then (err (invalid_data "SOCKS4 field is too long"), bs)
    else more

-- `read_until_nul`
unfoldable pub read_until_nul : ℕ → Session (List ℕ)
read_until_nul limit c =
    let (r, left) = until_nul limit [] c.input in (r, record c { input = left })

-- The host of a SOCKS4 request: a name behind the 4a marker, else the address.
unfoldable pub read_host4 : List ℕ → Session Text
read_host4 header =
    if at header 3 == 0 && at header 4 == 0 && at header 5 == 0 && not (at header 6 == 0)
    then (do
      name ← read_until_nul 256
      some_or (from_utf8 name) (invalid_data "SOCKS4a host name is not UTF-8"))
    else pure (ipv4_text (at header 3) (at header 4) (at header 5) (at header 6))

-- `negotiate_socks4`
unfoldable pub negotiate_socks4 : Session Request
negotiate_socks4 = do
  header ← read_exact 7
  if not (at header 0 == cmd_connect)
      then (do
        send_reply socks4 rep_command_not_supported
        fail (invalid_data "unsupported SOCKS4 command {command}"))
      else (do
        user ← read_until_nul 256
        host ← read_host4 header
        finish socks4 host (port_of (at header 1) (at header 2)))

abbrev asked : Request → Session Asked
asked r = pure (connect r)

-- `negotiate`
unfoldable pub negotiate : Session Asked
negotiate = do
  first ← read_exact 1
  if at first 0 == version
      then (negotiate_socks5 >>= asked)
      else if at first 0 == socks4_version
      then (negotiate_socks4 >>= asked)
      else if leb b'A' (at first 0) && leb (at first 0) b'Z'
      then negotiate_http (at first 0)
      else fail (invalid_data "connection starts with {other:#04x}, which is no protocol we speak")
