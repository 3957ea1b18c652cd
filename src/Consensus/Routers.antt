-- ===== src/Consensus/Routers.antt =====
-- src/tor/dir/consensus.rs, `flag_bit`, `parse_r_line`, `push_if_usable` and `parse_routers`. An array of bytes
-- that is only compared is a number, and zero is the array of zeros.
pub mod Usable
use Prim.Native.Nat.{bit_or}
use rust_tor_proxy.Prelude.{
  ℕ, not, ◌&&◌, ◌||◌, Option, none, some, List, [], ◌∷◌, ◌++◌, ◌==◌, if◌then◌else◌, Text, codes,
  text_eq, find_key, split, split_whitespace, strip_prefix, starts_with, parse_uint, lines, u8_max,
  u32_max, Result, ok, err,
}
use rust_tor_proxy.Path.Relay.{
  RouterStatus, flag_bad_exit, flag_exit, flag_fast, flag_guard, flag_middle_only, flag_running,
  flag_stable, flag_valid,
}
use rust_tor_proxy.Netdoc.{item_args, base64_fixed, number_from}

abbrev pub flag_authority : ℕ
flag_authority = 1

abbrev pub flag_hsdir : ℕ
flag_hsdir = 32

abbrev pub flag_v2dir : ℕ
flag_v2dir = 512

abbrev or_zero : Option ℕ → ℕ
or_zero none = 0
or_zero (some n) = n

-- `flag_bit`
unfoldable pub flag_bit : Text → ℕ
unfolding text_eq
flag_bit name = or_zero (
    find_key
      ((codes "Authority", flag_authority)
        ∷ (codes "BadExit", flag_bad_exit)
        ∷ (codes "Exit", flag_exit)
        ∷ (codes "Fast", flag_fast)
        ∷ (codes "Guard", flag_guard)
        ∷ (codes "HSDir", flag_hsdir)
        ∷ (codes "MiddleOnly", flag_middle_only)
        ∷ (codes "Running", flag_running)
        ∷ (codes "Stable", flag_stable)
        ∷ (codes "V2Dir", flag_v2dir)
        ∷ (codes "Valid", flag_valid)
        ∷ [])
      name)

-- The fold over the flags of an `s` line.
unfoldable pub flags_of : ℕ → List Text → ℕ
flags_of acc [] = acc
flags_of acc (name ∷ names) = flags_of (bit_or acc (flag_bit name)) names

abbrev pub some_fixed : Result (List ℕ) → Option ℕ
some_fixed (err e) = none
some_fixed (ok bytes) = some (number_from 0 bytes)

abbrev fixed_or_zero : Result (List ℕ) → ℕ
fixed_or_zero (err e) = 0
fixed_or_zero (ok bytes) = number_from 0 bytes

abbrev pub four {ℓ} :
    {A : Type ℓ} → Option A → Option A → Option A → Option A → Option (A × A × A × A)
four (some a) (some b) (some c) (some d) = some (a, b, c, d)
four none b c d = none
four (some a) none c d = none
four (some a) (some b) none d = none
four (some a) (some b) (some c) none = none

-- The octets of an address: another number of parts refuses the line, as a part that is no `u8` does.
unfoldable pub parse_octets : List Text → Option (ℕ × ℕ × ℕ × ℕ)
unfolding parse_uint
parse_octets (a ∷ b ∷ c ∷ d ∷ []) =
    four (parse_uint u8_max a) (parse_uint u8_max b) (parse_uint u8_max c) (parse_uint u8_max d)
parse_octets parts = none

abbrev pub relay_of : Option ℕ → Option (ℕ × ℕ × ℕ × ℕ) → Option ℕ → Option RouterStatus
relay_of none address port = none
relay_of (some id) none port = none
relay_of (some id) (some address) none = none
relay_of (some id) (some address) (some port) = some (record {
  identity = id;
  microdesc_digest = 0;
  ipv4 = address;
  or_port = port;
  flags = 0;
  bandwidth = 0;
})

abbrev pub relay_from : Text → Text → Text → Option RouterStatus
relay_from identity_b64 address port =
    relay_of (some_fixed (base64_fixed 20 identity_b64)) (parse_octets (split b'.' address))
      (parse_uint 65535 port)

-- The two layouts of `parse_r_line`, by the number of fields.
unfoldable pub parse_r_fields : List Text → Option RouterStatus
unfolding base64_fixed parse_uint split
parse_r_fields (f₀ ∷ identity ∷ f₂ ∷ f₃ ∷ address ∷ port ∷ f₆ ∷ []) =
    relay_from identity address port
parse_r_fields (f₀ ∷ identity ∷ f₂ ∷ f₃ ∷ f₄ ∷ address ∷ port ∷ f₇ ∷ []) =
    relay_from identity address port
parse_r_fields fields = none

-- `parse_r_line`
unfoldable pub parse_r_line : Text → Option RouterStatus
unfolding split_whitespace
parse_r_line args = parse_r_fields (split_whitespace args)

-- `push_if_usable`
unfoldable pub push_if_usable : List RouterStatus → RouterStatus → List RouterStatus
push_if_usable routers router =
    if not (router.microdesc_digest == 0) && not (router.or_port == 0)
    then routers ++ (router ∷ [])
    else routers

-- `current.take()` and the push
abbrev pub push_current : List RouterStatus → Option RouterStatus → List RouterStatus
push_current routers none = routers
push_current routers (some done) = push_if_usable routers done

abbrev first_field : List Text → Text → Text
first_field [] args = args
first_field (f ∷ fs) args = f

abbrev or_unset : Option ℕ → ℕ
or_unset none = 0
or_unset (some n) = n

abbrev pub read_bandwidth : RouterStatus → Option Text → RouterStatus
read_bandwidth router none = router
read_bandwidth router (some value) = record router {
  bandwidth = or_unset (parse_uint u32_max value);
}

-- The loop over the fields of a `w` line.
unfoldable pub bandwidth_fields : RouterStatus → List Text → RouterStatus
unfolding strip_prefix parse_uint
bandwidth_fields router [] = router
bandwidth_fields router (field ∷ fields) =
    bandwidth_fields (read_bandwidth router (strip_prefix (codes "Bandwidth=") field)) fields

-- What a line is to the loop.
pub data LineItem : Type 0 where
  r_line m_line s_line w_line : Text → LineItem
  stop_line other_line : LineItem

abbrev on_args : Option Text → (Text → LineItem) → LineItem → LineItem
on_args none item others = others
on_args (some args) item others = item args

-- The conditions of the loop, in their order.
unfoldable pub line_item : Text → LineItem
unfolding item_args starts_with
line_item line = on_args (item_args line (codes "r")) r_line (
    on_args (item_args line (codes "m")) m_line (
      on_args (item_args line (codes "s")) s_line (
        on_args (item_args line (codes "w")) w_line (
          if starts_with (codes "directory-signature") line
            || starts_with (codes "directory-footer") line
          then stop_line
          else other_line))))

abbrev pub edit : (RouterStatus → RouterStatus) → Option RouterStatus → Option RouterStatus
edit f none = none
edit f (some router) = some (f router)

-- The relays kept and the one that is being read, after a line; `none` where the loop breaks.
unfoldable pub read_line :
    LineItem
    → List RouterStatus
    → Option RouterStatus
    → Option (List RouterStatus × Option RouterStatus)
unfolding base64_fixed split split_whitespace
read_line (r_line args) routers current = some (push_current routers current, parse_r_line args)
read_line (m_line args) routers current =
    let digest = fixed_or_zero (base64_fixed 32 (first_field (split b' ' args) args)) in
    some (routers, edit (λ router. record router { microdesc_digest = digest }) current)
read_line (s_line args) routers current =
    let flags = flags_of 0 (split_whitespace args) in
    some (routers, edit (λ router. record router { flags = flags }) current)
read_line (w_line args) routers current =
    some (routers, edit (λ router. bandwidth_fields router (split_whitespace args)) current)
read_line stop_line routers current = none
read_line other_line routers current = some (routers, current)

-- The loop over the lines.
unfoldable pub read_lines : List Text → List RouterStatus → Option RouterStatus → List RouterStatus
read_lines [] routers current = push_current routers current
read_lines (line ∷ rest) routers current = elim (read_line (line_item line) routers current) [
  | none ↦ push_current routers current
  | some (routers', current') ↦ read_lines rest routers' current'
]

-- `parse_routers`, which never fails.
unfoldable pub parse_routers : Text → List RouterStatus
unfolding lines
parse_routers text = read_lines (lines text) [] none
