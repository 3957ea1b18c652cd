-- ===== src/Socks.antt =====
-- src/socks5.rs: the proxy front end, as far as one connection's handshake. A connection is the bytes
-- that the client will still send and those that it was sent; a write to it does not fail.
pub mod Session
pub mod Reply
pub mod Http
pub mod Negotiate
pub mod Accepted
pub mod Steps
pub mod Roundtrip
pub mod Roundtrip4
pub mod Head
mod Tests
use rust_tor_proxy.Prelude.{ℕ, Text}

abbrev pub version : ℕ
version = 5

abbrev pub socks4_version : ℕ
socks4_version = 4

abbrev pub method_no_auth : ℕ
method_no_auth = 0

abbrev pub method_user_pass : ℕ
method_user_pass = 2

abbrev pub method_none_acceptable : ℕ
method_none_acceptable = 255

abbrev pub socks4_granted : ℕ
socks4_granted = 90

abbrev pub socks4_rejected : ℕ
socks4_rejected = 91

abbrev pub max_http_header_bytes : ℕ
max_http_header_bytes = 8192

abbrev pub cmd_connect : ℕ
cmd_connect = 1

abbrev pub atyp_ipv4 : ℕ
atyp_ipv4 = 1

abbrev pub atyp_domain : ℕ
atyp_domain = 3

abbrev pub atyp_ipv6 : ℕ
atyp_ipv6 = 4

abbrev pub rep_succeeded : ℕ
rep_succeeded = 0

abbrev pub rep_general_failure : ℕ
rep_general_failure = 1

abbrev pub rep_not_allowed : ℕ
rep_not_allowed = 2

abbrev pub rep_host_unreachable : ℕ
rep_host_unreachable = 4

abbrev pub rep_connection_refused : ℕ
rep_connection_refused = 5

abbrev pub rep_ttl_expired : ℕ
rep_ttl_expired = 6

abbrev pub rep_command_not_supported : ℕ
rep_command_not_supported = 7

abbrev pub rep_address_type_not_supported : ℕ
rep_address_type_not_supported = 8

pub data Protocol : Type 0 where
  socks5 socks4 http : Protocol

-- The port is a `u16`: `port_of` wraps, and a CONNECT target is parsed up to 65535.
pub record Request : Type 0 where
  pub host : Text
  pub port : ℕ
  pub protocol : Protocol

pub data Asked : Type 0 where
  connect : Request → Asked
  status : Asked
