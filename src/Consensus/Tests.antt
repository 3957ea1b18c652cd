-- ===== src/Consensus/Tests.antt =====
-- Runs of the consensus, and instances of what is proved of it.
use rust_tor_proxy.Prelude.{
  ℕ, All, ◌≡◌, refl, Bool, String, List, [], ◌∷◌, ◌++◌, length, Text, codes, text_eq, none, some,
  Result, ok, as_bytes, lines, close_lines, split, split_once, split_whitespace, is_whitespace,
  find, starts_with, strip_prefix, trim_end, skip_whitespace, parse_uint, digits_of, digits_from,
  is_digit, replicate,
}
use rust_tor_proxy.Encoding.Base64.{base64_decode, b64_value, decode_from, decode_end}
use rust_tor_proxy.Encoding.Hex.{hex_decode, hex_pairs, nibble}
use rust_tor_proxy.Encoding.Dates.{
  parse_datetime, parse_date, parse_time, parse_int, unix_seconds, days_from_civil,
}
use rust_tor_proxy.Netdoc.{
  item, item_args, line_start_of, line_end_after, object, base64_fixed, number_from,
}
use rust_tor_proxy.Consensus.Params.{from_document}
use rust_tor_proxy.Consensus.Routers.{
  parse_routers, read_lines, read_line, line_item, parse_r_line, parse_r_fields, parse_octets,
  push_if_usable, flag_bit, flags_of, bandwidth_fields,
}
use rust_tor_proxy.Consensus.Signatures.{
  signatures, signature_blocks, block_of, parse_signature, parse_signature_fields, signed_length,
}
use rust_tor_proxy.Consensus.Certificates.{
  KeyCertificate, parse_key_certificates, certificates_from, next_certificate, parse,
}
use rust_tor_proxy.Consensus.Verify.{
  Consensus, parse_and_verify, signers_of, count_signature, digest_for, timestamp, shared_random,
}
use rust_tor_proxy.Consensus.Verify.Accepted.{IsVerified, parse_and_verify-IsVerified}
use rust_tor_proxy.Consensus.Certificates.Trusted.{Trusted, parse_key_certificates-All-Trusted}
use rust_tor_proxy.Consensus.Params.Ranges.{Allowed, from_document-Allowed}
use rust_tor_proxy.Consensus.Chain.{HasMajority, parse_and_verify-parse_key_certificates}

abbrev in_lines : List String → Text
in_lines [] = []
in_lines (l ∷ ls) = codes l ++ (10 ∷ in_lines ls)

abbrev document : Text
document = in_lines (
    "network-status-version 3 microdesc" ∷ "valid-after 2026-09-02 10:00:00"
    ∷ "fresh-until 2026-09-02 11:00:00" ∷ "valid-until 2026-09-02 13:00:00"
    ∷ "params hsdir-interval=720 hsdir_spread_fetch=0"
    ∷ "r A ERERERERERERERERERERERERERE 2026-09-02 09:00:00 1.2.3.4 9001 0"
    ∷ "m IiIiIiIiIiIiIiIiIiIiIiIiIiIiIiIiIiIiIiIiIiI" ∷ "s Fast Guard Running Stable Valid"
    ∷ "w Bandwidth=4500" ∷ "directory-footer"
    ∷ "directory-signature f533c81cef0bc0267857c99b2f471adf249fa232 1111111111111111111111111111111111111111"
    ∷ "-----BEGIN SIGNATURE-----" ∷ "aGk=" ∷ "-----END SIGNATURE-----"
    ∷ "directory-signature 2f3df9ca0e5d36f2685a2da67184eb8dcb8cba8c 1111111111111111111111111111111111111111"
    ∷ "-----BEGIN SIGNATURE-----" ∷ "aGk=" ∷ "-----END SIGNATURE-----"
    ∷ "directory-signature e8a9c45ede6d711294fadf8e7951f4de6ca56b58 1111111111111111111111111111111111111111"
    ∷ "-----BEGIN SIGNATURE-----" ∷ "aGk=" ∷ "-----END SIGNATURE-----"
    ∷ "directory-signature ed03bb616eb2f60bec80151114bb25cef515b226 1111111111111111111111111111111111111111"
    ∷ "-----BEGIN SIGNATURE-----" ∷ "aGk=" ∷ "-----END SIGNATURE-----"
    ∷ "directory-signature 0232af901c31a04ee9848595af9bb7620d4c5b2e 1111111111111111111111111111111111111111"
    ∷ "-----BEGIN SIGNATURE-----" ∷ "aGk=" ∷ "-----END SIGNATURE-----" ∷ [])

abbrev key_text : Text
key_text = in_lines (
    "dir-key-certificate-version 3" ∷ "fingerprint f533c81cef0bc0267857c99b2f471adf249fa232"
    ∷ "dir-key-expires 2027-01-01 00:00:00" ∷ "dir-identity-key" ∷ "-----BEGIN RSA PUBLIC KEY-----"
    ∷ "9TPIHO8LwCZ4V8mbL0ca3ySfojI=" ∷ "-----END RSA PUBLIC KEY-----" ∷ "dir-signing-key"
    ∷ "-----BEGIN RSA PUBLIC KEY-----" ∷ "ERERERERERERERERERERERERERE="
    ∷ "-----END RSA PUBLIC KEY-----" ∷ "dir-key-certification" ∷ "-----BEGIN SIGNATURE-----"
    ∷ "aGk=" ∷ "-----END SIGNATURE-----" ∷ "dir-key-certificate-version 3"
    ∷ "fingerprint 2f3df9ca0e5d36f2685a2da67184eb8dcb8cba8c" ∷ "dir-key-expires 2027-01-01 00:00:00"
    ∷ "dir-identity-key" ∷ "-----BEGIN RSA PUBLIC KEY-----" ∷ "Lz35yg5dNvJoWi2mcYTrjcuMuow="
    ∷ "-----END RSA PUBLIC KEY-----" ∷ "dir-signing-key" ∷ "-----BEGIN RSA PUBLIC KEY-----"
    ∷ "ERERERERERERERERERERERERERE=" ∷ "-----END RSA PUBLIC KEY-----" ∷ "dir-key-certification"
    ∷ "-----BEGIN SIGNATURE-----" ∷ "aGk=" ∷ "-----END SIGNATURE-----"
    ∷ "dir-key-certificate-version 3" ∷ "fingerprint e8a9c45ede6d711294fadf8e7951f4de6ca56b58"
    ∷ "dir-key-expires 2027-01-01 00:00:00" ∷ "dir-identity-key" ∷ "-----BEGIN RSA PUBLIC KEY-----"
    ∷ "6KnEXt5tcRKU+t+OeVH03myla1g=" ∷ "-----END RSA PUBLIC KEY-----" ∷ "dir-signing-key"
    ∷ "-----BEGIN RSA PUBLIC KEY-----" ∷ "ERERERERERERERERERERERERERE="
    ∷ "-----END RSA PUBLIC KEY-----" ∷ "dir-key-certification" ∷ "-----BEGIN SIGNATURE-----"
    ∷ "aGk=" ∷ "-----END SIGNATURE-----" ∷ "dir-key-certificate-version 3"
    ∷ "fingerprint ed03bb616eb2f60bec80151114bb25cef515b226" ∷ "dir-key-expires 2027-01-01 00:00:00"
    ∷ "dir-identity-key" ∷ "-----BEGIN RSA PUBLIC KEY-----" ∷ "7QO7YW6y9gvsgBURFLslzvUVsiY="
    ∷ "-----END RSA PUBLIC KEY-----" ∷ "dir-signing-key" ∷ "-----BEGIN RSA PUBLIC KEY-----"
    ∷ "ERERERERERERERERERERERERERE=" ∷ "-----END RSA PUBLIC KEY-----" ∷ "dir-key-certification"
    ∷ "-----BEGIN SIGNATURE-----" ∷ "aGk=" ∷ "-----END SIGNATURE-----"
    ∷ "dir-key-certificate-version 3" ∷ "fingerprint 0232af901c31a04ee9848595af9bb7620d4c5b2e"
    ∷ "dir-key-expires 2027-01-01 00:00:00" ∷ "dir-identity-key" ∷ "-----BEGIN RSA PUBLIC KEY-----"
    ∷ "AjKvkBwxoE7phIWVr5u3Yg1MWy4=" ∷ "-----END RSA PUBLIC KEY-----" ∷ "dir-signing-key"
    ∷ "-----BEGIN RSA PUBLIC KEY-----" ∷ "ERERERERERERERERERERERERERE="
    ∷ "-----END RSA PUBLIC KEY-----" ∷ "dir-key-certification" ∷ "-----BEGIN SIGNATURE-----"
    ∷ "aGk=" ∷ "-----END SIGNATURE-----" ∷ [])

-- A key is its DER, its fingerprint the number of its bytes; a signature says "hi".
abbrev read_key : List ℕ → Result (List ℕ)
read_key der = ok der

abbrev fingerprint : List ℕ → ℕ
fingerprint der = number_from 0 der

abbrev says_hi : List ℕ → List ℕ → List ℕ → Bool
says_hi key digest value = text_eq value (codes "hi")

abbrev digest_of : List ℕ → List ℕ
digest_of bytes = length bytes ∷ []

abbrev certificates : List (KeyCertificate (List ℕ))
certificates = parse_key_certificates digest_of read_key fingerprint says_hi key_text 1788345000

certificates_loaded : length certificates ≡ 5
unfolding parse_key_certificates certificates_from next_certificate parse line_start_of
    line_end_after find starts_with object base64_decode b64_value decode_from decode_end item
    item_args strip_prefix lines close_lines split trim_end skip_whitespace is_whitespace hex_decode
    hex_pairs nibble parse_datetime parse_date parse_time parse_int unix_seconds days_from_civil
    parse_uint digits_of digits_from is_digit split_once text_eq as_bytes
certificates_loaded = refl

abbrev accepted : Consensus
accepted = record {
  valid_after = 1788343200;
  fresh_until = 1788346800;
  valid_until = 1788354000;
  routers =
      record {
        identity = 97433442488726861213578988847752201310395502865;
        microdesc_digest =
            15438945231642159389809464667825054380435997955418741871927677867721750618658;
        ipv4 = (1, 2, 3, 4);
        or_port = 9001;
        flags = 1432;
        bandwidth = 4500;
      }
      ∷ [];
  params = from_document document;
  shared_rand_current = none;
  shared_rand_previous = none;
}

is_accepted :
    parse_and_verify digest_of digest_of says_hi document certificates 1788345000 ≡ ok accepted
unfolding parse_key_certificates certificates_from next_certificate parse line_start_of
    line_end_after find starts_with object base64_decode b64_value decode_from decode_end item
    item_args strip_prefix lines close_lines split trim_end skip_whitespace is_whitespace hex_decode
    hex_pairs nibble parse_datetime parse_date parse_time parse_int unix_seconds days_from_civil
    parse_uint digits_of digits_from is_digit split_once text_eq as_bytes parse_and_verify
    signers_of count_signature digest_for timestamp shared_random signatures signature_blocks
    block_of parse_signature parse_signature_fields signed_length parse_routers read_lines read_line
    line_item parse_r_line parse_r_fields parse_octets push_if_usable flag_bit flags_of
    bandwidth_fields split_whitespace base64_fixed
is_accepted = refl

parse_and_verify-IsVerified_example :
    IsVerified digest_of digest_of says_hi document certificates 1788345000 accepted
parse_and_verify-IsVerified_example =
    parse_and_verify-IsVerified digest_of digest_of says_hi document certificates 1788345000
      accepted is_accepted

parse_and_verify-parse_key_certificates_example :
    HasMajority digest_of digest_of read_key fingerprint says_hi key_text 1788345000 document
parse_and_verify-parse_key_certificates_example =
    parse_and_verify-parse_key_certificates digest_of digest_of read_key fingerprint says_hi
      key_text 1788345000 document 1788345000 accepted is_accepted

abbrev late_value : Text
late_value =
    in_lines ("shared-rand-current-value 9 IiIiIiIiIiIiIiIiIiIiIiIiIiIiIiIiIiIiIiIiIiI" ∷ [])

-- A line after the signatures is read, although no signature covers it.
unsigned_value_taken :
    parse_and_verify digest_of digest_of says_hi (document ++ late_value) certificates 1788345000
    ≡ ok (record accepted {
      shared_rand_current = some (replicate 32 34);
      params = from_document (document ++ late_value);
    })
unfolding parse_key_certificates certificates_from next_certificate parse line_start_of
    line_end_after find starts_with object base64_decode b64_value decode_from decode_end item
    item_args strip_prefix lines close_lines split trim_end skip_whitespace is_whitespace hex_decode
    hex_pairs nibble parse_datetime parse_date parse_time parse_int unix_seconds days_from_civil
    parse_uint digits_of digits_from is_digit split_once text_eq as_bytes parse_and_verify
    signers_of count_signature digest_for timestamp shared_random signatures signature_blocks
    block_of parse_signature parse_signature_fields signed_length parse_routers read_lines read_line
    line_item parse_r_line parse_r_fields parse_octets push_if_usable flag_bit flags_of
    bandwidth_fields split_whitespace base64_fixed
unsigned_value_taken = refl

parse_key_certificates-All-Trusted_example :
    All (Trusted digest_of read_key fingerprint says_hi 1788345000) certificates
parse_key_certificates-All-Trusted_example =
    parse_key_certificates-All-Trusted digest_of read_key fingerprint says_hi key_text 1788345000

from_document-Allowed_example : Allowed (from_document document)
from_document-Allowed_example = from_document-Allowed document
