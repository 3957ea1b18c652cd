-- ===== src/Consensus/Routers/Usable.antt =====
-- src/tor/dir/consensus.rs, `parse_routers`: the relays it returns can be used.
use rust_tor_proxy.Prelude.{
  ℕ, ◌≤◌, ◌≢◌, arith, Option, none, some, Option-cases, inl, inr, List, [], ◌∷◌, Text, All,
  All-append, not, ◌&&◌, ◌==◌, Bool-cases, strip_prefix, codes, subst, parse_uint, parse_uint_le,
  u8_max, split, split_whitespace, lines,
}
use rust_tor_proxy.Path.Relay.{RouterStatus}
use rust_tor_proxy.Netdoc.{base64_fixed}
use rust_tor_proxy.Consensus.Routers.{
  LineItem, r_line, m_line, s_line, w_line, stop_line, other_line, parse_octets, relay_from,
  relay_of, four, parse_r_fields, parse_r_line, some_fixed, push_if_usable, push_current,
  bandwidth_fields, read_bandwidth, read_line, read_lines, line_item, parse_routers, edit,
}

-- An address of four octets and a port of 16 bits.
pub record HasAddress (r : RouterStatus) : Type 0 where
  pub octets : (r.ipv4.0 ≤ 255) × (r.ipv4.1 ≤ 255) × (r.ipv4.2 ≤ 255) × (r.ipv4.3 ≤ 255)
  pub port : r.or_port ≤ 65535

-- A relay that can be asked for: its descriptor's digest is known, and it listens.
pub record IsUsable (r : RouterStatus) : Type 0 where
  pub digest : r.microdesc_digest ≢ 0
  pub listens : r.or_port ≢ 0
  pub address : HasAddress r

abbrev Pending : Option RouterStatus → Type 0
Pending none = Unit
Pending (some router) = HasAddress router

abbrev AtMost : ℕ → Option ℕ → Type 0
AtMost limit none = Unit
AtMost limit (some v) = v ≤ limit

abbrev AreOctets : Option (ℕ × ℕ × ℕ × ℕ) → Type 0
AreOctets none = Unit
AreOctets (some (a, b, c, d)) = (a ≤ 255) × (b ≤ 255) × (c ≤ 255) × (d ≤ 255)

parse_uint-AtMost : (limit : ℕ) (s : Text) → AtMost limit (parse_uint limit s)
parse_uint-AtMost limit s = elim (Option-cases (parse_uint limit s)) [
  | inl e ↦ rw e tt
  | inr (v, e) ↦ rw e (parse_uint_le limit s e)
]

four-AreOctets :
    (a b c d : Option ℕ)
    → AtMost 255 a
    → AtMost 255 b
    → AtMost 255 c
    → AtMost 255 d
    → AreOctets (four a b c d)
four-AreOctets (some a) (some b) (some c) (some d) ha hb hc hd = (ha, hb, hc, hd)
four-AreOctets none b c d ha hb hc hd = tt
four-AreOctets (some a) none c d ha hb hc hd = tt
four-AreOctets (some a) (some b) none d ha hb hc hd = tt
four-AreOctets (some a) (some b) (some c) none ha hb hc hd = tt

parse_octets-AreOctets : (parts : List Text) → AreOctets (parse_octets parts)
unfolding parse_octets
parse_octets-AreOctets (a ∷ b ∷ c ∷ d ∷ []) =
    four-AreOctets _ _ _ _ (parse_uint-AtMost u8_max a) (parse_uint-AtMost u8_max b)
      (parse_uint-AtMost u8_max c) (parse_uint-AtMost u8_max d)
parse_octets-AreOctets parts = tt

relay_of-Pending :
    (id : Option ℕ) (address : Option (ℕ × ℕ × ℕ × ℕ)) (port : Option ℕ)
    → AreOctets address
    → AtMost 65535 port
    → Pending (relay_of id address port)
relay_of-Pending none address port h h' = tt
relay_of-Pending (some id) none port h h' = tt
relay_of-Pending (some id) (some address) none h h' = tt
relay_of-Pending (some id) (some (a, b, c, d)) (some port) h h' = record { octets = h; port = h' }

relay_from-Pending : (identity address port : Text) → Pending (relay_from identity address port)
relay_from-Pending identity address port =
    relay_of-Pending (some_fixed (base64_fixed 20 identity)) _ _
      (parse_octets-AreOctets (split b'.' address)) (parse_uint-AtMost 65535 port)

parse_r_fields-Pending : (fields : List Text) → Pending (parse_r_fields fields)
unfolding parse_r_fields
parse_r_fields-Pending (f₀ ∷ identity ∷ f₂ ∷ f₃ ∷ address ∷ port ∷ f₆ ∷ []) =
    relay_from-Pending identity address port
parse_r_fields-Pending (f₀ ∷ identity ∷ f₂ ∷ f₃ ∷ f₄ ∷ address ∷ port ∷ f₇ ∷ []) =
    relay_from-Pending identity address port
parse_r_fields-Pending fields = tt

push_if_usable-All :
    (routers : List RouterStatus) (router : RouterStatus)
    → HasAddress router
    → All IsUsable routers
    → All IsUsable (push_if_usable routers router)
unfolding push_if_usable
push_if_usable-All routers router h all =
    elim (Bool-cases (not (router.microdesc_digest == 0) && not (router.or_port == 0))) [
      | inl usable ↦ rw usable (
          All-append IsUsable routers router all
            (record { digest = ground arith; listens = ground arith; address = h }))
      | inr not_usable ↦ rw not_usable all
    ]

push_current-All :
    (routers : List RouterStatus) (current : Option RouterStatus)
    → Pending current
    → All IsUsable routers
    → All IsUsable (push_current routers current)
push_current-All routers none h all = all
push_current-All routers (some router) h all = push_if_usable-All routers router h all

edit-Pending :
    (f : RouterStatus → RouterStatus)
    → ((r : RouterStatus) → HasAddress r → HasAddress (f r))
    → (current : Option RouterStatus) → Pending current
    → Pending (edit f current)
edit-Pending f keeps none h = tt
edit-Pending f keeps (some router) h = keeps router h

read_bandwidth-HasAddress :
    (router : RouterStatus) (value : Option Text)
    → HasAddress router
    → HasAddress (read_bandwidth router value)
read_bandwidth-HasAddress router none h = h
read_bandwidth-HasAddress router (some value) h = record { octets = h.octets; port = h.port }

bandwidth_fields-HasAddress :
    (router : RouterStatus) (fields : List Text)
    → HasAddress router
    → HasAddress (bandwidth_fields router fields)
unfolding bandwidth_fields
bandwidth_fields-HasAddress router [] h = h
bandwidth_fields-HasAddress router (field ∷ fields) h =
    bandwidth_fields-HasAddress (read_bandwidth router (strip_prefix (codes "Bandwidth=") field))
      fields (read_bandwidth-HasAddress router (strip_prefix (codes "Bandwidth=") field) h)

-- The relays kept can be used, and the one being read has an address.
abbrev Reading : Option (List RouterStatus × Option RouterStatus) → Type 0
Reading none = Unit
Reading (some (routers, current)) = All IsUsable routers × Pending current

read_line-Reading :
    (item : LineItem) (routers : List RouterStatus) (current : Option RouterStatus)
    → All IsUsable routers
    → Pending current
    → Reading (read_line item routers current)
unfolding read_line
read_line-Reading (r_line args) routers current all h = (
  push_current-All routers current h all,
  unfold parse_r_line in parse_r_fields-Pending (split_whitespace args),
)
read_line-Reading (m_line args) routers current all h =
    (all, edit-Pending _ (λ r a. record { octets = a.octets; port = a.port }) current h)
read_line-Reading (s_line args) routers current all h =
    (all, edit-Pending _ (λ r a. record { octets = a.octets; port = a.port }) current h)
read_line-Reading (w_line args) routers current all h =
    (all, edit-Pending _ (λ r a. bandwidth_fields-HasAddress r (split_whitespace args) a) current h)
read_line-Reading stop_line routers current all h = tt
read_line-Reading other_line routers current all h = (all, h)

read_lines-All :
    (ls : List Text) (routers : List RouterStatus) (current : Option RouterStatus)
    → All IsUsable routers
    → Pending current
    → All IsUsable (read_lines ls routers current)
unfolding read_lines
read_lines-All [] routers current all h = push_current-All routers current h all
read_lines-All (line ∷ rest) routers current all h =
    let kept = read_line-Reading (line_item line) routers current all h in
    elim (Option-cases (read_line (line_item line) routers current)) [
      | inl e ↦ rw (read_lines, e) (push_current-All routers current h all)
      | inr ((routers', current'), e) ↦
          let (all', h') = subst Reading e kept in
          rw (read_lines, e) (read_lines-All rest routers' current' all' h')
    ]

-- Every relay that a consensus lists to the client has a descriptor's digest, a port that is no zero and fits 16 bits,
-- and an address of four octets, whatever the text.
pub parse_routers-All_usable : (text : Text) → All IsUsable (parse_routers text)
unfolding parse_routers
parse_routers-All_usable text = read_lines-All (lines text) [] none tt tt
