-- ===== src/Socks/Roundtrip4.antt =====
-- src/socks5.rs: what a client of SOCKS4a writes is read as the request that it means, and nothing of
-- what it sends afterwards is taken.
use rust_tor_proxy.Prelude.{
  ℕ, ◌+◌, ◌/◌, ◌%◌, ◌≤◌, ◌<◌, ◌≡◌, refl, sym, ap, ◌∙◌, false, List, [], ◌∷◌, ◌++◌, append_assoc,
  append-nil, length, length-append, All, leb, ◌==◌, Text, from_utf8-ascii, ok, invalid_data, arith,
}
use rust_tor_proxy.Cell.Bytes.{u16_of}
use rust_tor_proxy.Socks.{connect, socks4}
use rust_tor_proxy.Socks.Session.{read_exact, some_or}
use rust_tor_proxy.Socks.Negotiate.{
  read_host4, negotiate_socks4, negotiate, read_until_nul, until_nul, port_of,
}
use rust_tor_proxy.Socks.Steps.{conn, read_exact-append, step, IsHost, finish-ok}

-- What a SOCKS4a client writes: the address 0.0.0.1, a user, and the name.
abbrev pub socks4a_bytes : List ℕ → Text → ℕ → List ℕ
socks4a_bytes user host port =
    4 ∷ 1 ∷ (port / 256 % 256) ∷ (port % 256) ∷ 0 ∷ 0 ∷ 0 ∷ 1 ∷ (user ++ (0 ∷ (host ++ (0 ∷ []))))

-- A field that can be ended by a NUL.
abbrev pub IsField : List ℕ → Type 0
IsField xs = All (λ c. 0 < c) xs × (length xs ≤ 256)

until_nul-field :
    (out xs rest : List ℕ)
    → All (λ c. 0 < c) xs
    → length out + length xs ≤ 256
    → until_nul 256 out (xs ++ (0 ∷ rest)) ≡ (ok (out ++ xs), rest)
unfolding until_nul
until_nul-field out [] rest h k = ap (λ o. (ok o, rest)) (sym (append-nil out))
until_nul-field out (x ∷ xs) rest (pos, h) k =
    let more : (x == 0) ≡ false = ground arith in
    let room : leb 256 (length out) ≡ false = ground arith in
    rw (more, room)
      (until_nul-field (out ++ (x ∷ [])) xs rest h (omega (arith, length-append out (x ∷ [])))
        ∙ ap (λ o. (ok o, rest)) (append_assoc out (x ∷ []) xs))

read_until_nul-field :
    (xs rest sent : List ℕ)
    → IsField xs
    → read_until_nul 256 (conn (xs ++ (0 ∷ rest)) sent) ≡ (ok xs, conn rest sent)
unfolding read_until_nul
read_until_nul-field xs rest sent f =
    ap (λ p. (p.0, conn p.1 sent)) (until_nul-field [] xs rest f.0 (omega (arith, f.1)))

read_host4-name :
    (a b : ℕ) (host : Text) (rest : List ℕ)
    → IsHost host
    → All (λ c. 0 < c) host
    → read_host4 (1 ∷ a ∷ b ∷ 0 ∷ 0 ∷ 0 ∷ 1 ∷ []) (conn (host ++ (0 ∷ rest)) [])
      ≡ (ok host, conn rest [])
unfolding read_host4
read_host4-name a b host rest i h =
    step (read_until_nul 256) _ _ _ host
      (read_until_nul-field host rest [] (h, omega (arith, i.short)))
    ∙ ap (λ o. some_or o (invalid_data "SOCKS4a host name is not UTF-8") (conn rest []))
        (from_utf8-ascii host i.ascii)

-- A SOCKS4a client's request is read as its host and port, whatever its user, nothing is written back
-- yet, and what the client sends behind it is left for the tunnel.
pub negotiate-socks4a_bytes :
    (user : List ℕ) (host : Text) (port : ℕ) (rest : List ℕ)
    → IsField user
    → IsHost host
    → All (λ c. 0 < c) host
    → 0 < port
    → port < 65536
    → negotiate (record { input = socks4a_bytes user host port ++ rest; sent = [] }) ≡ (
      ok (connect (record { host = host; port = port; protocol = socks4 })),
      record { input = rest; sent = [] },
    )
unfolding negotiate negotiate_socks4
negotiate-socks4a_bytes user host port rest u i h pos small =
    let a = port / 256 % 256 in
    let b = port % 256 in
    let whole : port_of a b ≡ port = unfold u16_of in omega arith in
    let header = 1 ∷ a ∷ b ∷ 0 ∷ 0 ∷ 0 ∷ 1 ∷ [] in
    let names = (user ++ (0 ∷ (host ++ (0 ∷ [])))) ++ rest in
    let apart : names ≡ user ++ (0 ∷ (host ++ (0 ∷ rest))) =
      append_assoc user (0 ∷ (host ++ (0 ∷ []))) rest
      ∙ ap (λ t. user ++ (0 ∷ t)) (append_assoc host (0 ∷ []) rest) in
    let read_user : read_until_nul 256 (conn names []) ≡ (ok user, conn (host ++ (0 ∷ rest)) []) =
      ap (λ t. read_until_nul 256 (conn t [])) apart
      ∙ read_until_nul-field user (host ++ (0 ∷ rest)) [] u in
    let request : negotiate_socks4 (conn (header ++ names) [])
        ≡ (ok (record { host = host; port = port_of a b; protocol = socks4 }), conn rest []) =
      step (read_exact 7) _ _ _ header (read_exact-append header names [] 7 refl)
      ∙ step (read_until_nul 256) _ _ _ user read_user
      ∙ step (read_host4 header) _ _ _ host (read_host4-name a b host rest i h)
      ∙ finish-ok socks4 host (port_of a b) (conn rest []) (rw whole pos) i.some_name in
    step (read_exact 1) _ _ _ (4 ∷ []) (read_exact-append (4 ∷ []) (header ++ names) [] 1 refl)
    ∙ step negotiate_socks4 _ _ _ (record { host = host; port = port_of a b; protocol = socks4 })
        request
    ∙ ap (λ p. (ok (connect (record { host = host; port = p; protocol = socks4 })), conn rest []))
        whole
