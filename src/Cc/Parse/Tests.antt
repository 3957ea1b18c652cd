-- ===== src/Cc/Parse/Tests.antt =====
-- Runs of `CcParams::parse`, and instances of what is proved of it.
use rust_tor_proxy.Prelude.{
  ◌≡◌, refl, Text, codes, split_once, split_whitespace, strip_suffix, text_eq,
}
use rust_tor_proxy.Cc.Params.{exit, defaults}
use rust_tor_proxy.Cc.Parse.{
  parse, apply_fields, apply_field, apply_key, reduce_key, key_of, set_param,
}

abbrev mixed_line : Text
mixed_line =
    codes "cc_alg=1  cc_cwnd_inc=+7 cc_sscap_onion=100 cc_sscap_exit=101 cc_sendme_inc=255 x"

parse_mixed : parse mixed_line exit ≡ record (defaults exit) { cwnd_inc = 7; ss_cap = 101 }
unfolding parse apply_fields apply_field apply_key reduce_key key_of set_param defaults split_once
    split_whitespace strip_suffix text_eq
parse_mixed = refl
