-- ===== src/Hs/Address.antt =====
-- src/tor/hs/address.rs: `.onion` addresses, and `classify` of src/socks5.rs. An address is the bytes of its key. An
-- offset counts bytes of UTF-8: a slice that does not begin between two characters panics, which is `none`.
pub mod Slices
pub mod Printed
pub mod Checked
use rust_tor_proxy.Prelude.{
  ℕ, zero, suc, ◌+◌, ◌-◌, Bool, true, false, not, ◌&&◌, Option, none, some, List, [], ◌∷◌, ◌++◌,
  length, take, drop, get_or, leb, ltb, ◌==◌, if◌then◌else◌, Text, codes, text_eq,
  eq_ignore_ascii_case, as_bytes, Error, Result, ok, err, invalid_data, not_found, ◌>>=◌,
}
use rust_tor_proxy.Encoding.Base32
use rust_tor_proxy.Encoding.Base32.{decode}

abbrev pub suffix : Text
suffix = codes ".onion"

abbrev pub version : ℕ
version = 3

abbrev pub byte_length : Text → ℕ
byte_length s = length (as_bytes s)

abbrev pub char_width : ℕ → ℕ
char_width c = byte_length (c ∷ [])

-- `&s[n..]`
unfoldable pub slice_from : Text → ℕ → Option Text
unfolding as_bytes
slice_from [] n = if n == 0 then some [] else none
slice_from (c ∷ cs) n =
    let later = slice_from cs (n - char_width c) in
    if n == 0 then some (c ∷ cs) else if leb (char_width c) n then later else none

abbrev pub cons_some : ℕ → Option Text → Option Text
cons_some c none = none
cons_some c (some s) = some (c ∷ s)

-- `&s[..n]`
unfoldable pub slice_to : Text → ℕ → Option Text
unfolding as_bytes
slice_to [] n = if n == 0 then some [] else none
slice_to (c ∷ cs) n =
    let more = cons_some c (slice_to cs (n - char_width c)) in
    if n == 0 then some [] else if leb (char_width c) n then more else none

abbrev pub is_suffix : Option Text → Option Bool
is_suffix none = none
is_suffix (some ending) = some (eq_ignore_ascii_case ending suffix)

-- `is_onion`
unfoldable pub is_onion : Text → Option Bool
unfolding slice_from as_bytes eq_ignore_ascii_case
is_onion host =
    if ltb 6 (byte_length host)
    then is_suffix (slice_from host (byte_length host - 6))
    else some false

-- `checksum`
unfoldable pub checksum : (List ℕ → List ℕ) → List ℕ → List ℕ
checksum sha3_256 public_key =
    take 2 (sha3_256 (codes ".onion checksum" ++ (public_key ++ (version ∷ []))))

-- `Display`
unfoldable pub to_string : (List ℕ → List ℕ) → List ℕ → Text
unfolding checksum Base32.encode
to_string sha3_256 public_key =
    Base32.encode (public_key ++ (checksum sha3_256 public_key ++ (version ∷ []))) ++ suffix

-- `credential`
unfoldable pub credential : (List ℕ → List ℕ) → List ℕ → List ℕ
credential sha3_256 public_key = sha3_256 (codes "credential" ++ public_key)

-- `subcredential`
unfoldable pub subcredential : (List ℕ → List ℕ) → List ℕ → List ℕ → List ℕ
unfolding credential
subcredential sha3_256 public_key blinded_key =
    sha3_256 (codes "subcredential" ++ (credential sha3_256 public_key ++ blinded_key))

-- The checks of `parse` on what the address decodes to.
unfoldable pub check_raw : (List ℕ → List ℕ) → List ℕ → Result (List ℕ)
unfolding checksum
check_raw sha3_256 raw =
    let public_key = take 32 raw in
    if not (length raw == 35)
    then err (invalid_data "onion address does not decode to 35 bytes")
    else if not (get_or raw 34 0 == version)
    then err (invalid_data "unsupported onion address version {version}")
    else if not (text_eq (take 2 (drop 32 raw)) (checksum sha3_256 public_key))
    then err (invalid_data "onion address checksum does not match")
    else ok public_key

unfoldable pub parse_body : (List ℕ → List ℕ) → Text → Result (List ℕ)
unfolding as_bytes check_raw
parse_body sha3_256 body =
    if byte_length body == 16
    then err (invalid_data "version 2 onion addresses are no longer part of the Tor network")
    else if not (byte_length body == 56)
    then err (invalid_data "an onion address is {ADDRESS_CHARS} characters, this one is {}")
    else decode body >>= λ raw. check_raw sha3_256 raw

abbrev pub strip_onion : Text → ℕ → Option Bool → Option Text
strip_onion host cut none = none
strip_onion host cut (some true) = slice_to host cut
strip_onion host cut (some false) = some host

-- `body` of `parse`
unfoldable pub body_of : Text → Option Text
unfolding slice_from slice_to as_bytes eq_ignore_ascii_case
body_of host =
    if leb 6 (byte_length host)
    then (let cut = byte_length host - 6 in strip_onion host cut (is_suffix (slice_from host cut)))
    else some host

abbrev pub with_body : (List ℕ → List ℕ) → Option Text → Option (Result (List ℕ))
with_body sha3_256 none = none
with_body sha3_256 (some body) = some (parse_body sha3_256 body)

-- `OnionAddress::parse`
unfoldable pub parse : (List ℕ → List ℕ) → Text → Option (Result (List ℕ))
unfolding body_of
parse sha3_256 host = with_body sha3_256 (body_of host)

-- `Destination`
pub data Destination : Type 0 where
  exit_relay : Destination
  onion : List ℕ → Destination

abbrev pub destination_of : Option (Result (List ℕ)) → Option (Result Destination)
destination_of none = none
destination_of (some (ok address)) = some (ok (onion address))
destination_of (some (err e)) = some (err (not_found e))

abbrev pub classified : (List ℕ → List ℕ) → Text → Option Bool → Option (Result Destination)
classified sha3_256 host none = none
classified sha3_256 host (some false) = some (ok exit_relay)
classified sha3_256 host (some true) = destination_of (parse sha3_256 host)

-- `classify`
unfoldable pub classify : (List ℕ → List ℕ) → Text → Option (Result Destination)
unfolding is_onion
classify sha3_256 host = classified sha3_256 host (is_onion host)
