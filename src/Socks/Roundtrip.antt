-- ===== src/Socks/Roundtrip.antt =====
-- src/socks5.rs: what a client of SOCKS5 writes is read as the request that it means, and nothing of
-- what it sends afterwards is taken.
use rust_tor_proxy.Prelude.{
  ℕ, ◌/◌, ◌%◌, ◌<◌, ◌≡◌, refl, ap, ◌∙◌, List, [], ◌∷◌, ◌++◌, append_assoc, length, Text, arith,
  from_utf8-ascii, ok, invalid_data,
}
use rust_tor_proxy.Cell.Bytes.{u16_of}
use rust_tor_proxy.Socks.{connect, socks5}
use rust_tor_proxy.Socks.Session.{read_exact, write_all, some_or}
use rust_tor_proxy.Socks.Negotiate.{greet, read_host, negotiate_socks5, negotiate, port_of}
use rust_tor_proxy.Socks.Steps.{conn, read_exact-append, step, IsHost, finish-ok}

-- What a SOCKS5 client that offers no authentication writes to reach a host by name.
abbrev pub socks5_bytes : Text → ℕ → List ℕ
socks5_bytes host port =
    5 ∷ 1 ∷ 0 ∷ 5 ∷ 1 ∷ 0 ∷ 3 ∷ length host ∷ (host ++ ((port / 256 % 256) ∷ (port % 256) ∷ []))

greet-no_auth : (rest : List ℕ) → greet (conn (1 ∷ 0 ∷ rest) []) ≡ (ok tt, conn rest (5 ∷ 0 ∷ []))
unfolding greet write_all
greet-no_auth rest =
    step (read_exact 1) _ _ _ (1 ∷ []) (read_exact-append (1 ∷ []) (0 ∷ rest) [] 1 refl)
    ∙ step (read_exact 1) _ _ _ (0 ∷ []) (read_exact-append (0 ∷ []) rest [] 1 refl)

read_host-name :
    (host : Text) (rest sent : List ℕ)
    → IsHost host
    → read_host 3 (conn (length host ∷ (host ++ rest)) sent) ≡ (ok host, conn rest sent)
unfolding read_host
read_host-name host rest sent i =
    step (read_exact 1) _ _ _ (length host ∷ [])
      (read_exact-append (length host ∷ []) (host ++ rest) sent 1 refl)
    ∙ step (read_exact (length host)) _ _ _ host
        (read_exact-append host rest sent (length host) refl)
    ∙ ap (λ o. some_or o (invalid_data "host name is not UTF-8") (conn rest sent))
        (from_utf8-ascii host i.ascii)

negotiate_socks5-name :
    (host : Text) (a b : ℕ) (rest : List ℕ)
    → IsHost host
    → 0 < port_of a b
    → negotiate_socks5
        (conn (1 ∷ 0 ∷ 5 ∷ 1 ∷ 0 ∷ 3 ∷ length host ∷ ((host ++ (a ∷ b ∷ [])) ++ rest)) [])
      ≡ (ok (record { host = host; port = port_of a b; protocol = socks5 }), conn rest (5 ∷ 0 ∷ []))
unfolding negotiate_socks5
negotiate_socks5-name host a b rest i pos =
    let two = a ∷ b ∷ [] in
    let behind = length host ∷ ((host ++ two) ++ rest) in
    let named : read_host 3 (conn behind (5 ∷ 0 ∷ []))
        ≡ (ok host, conn (two ++ rest) (5 ∷ 0 ∷ [])) =
      ap (λ t. read_host 3 (conn (length host ∷ t) (5 ∷ 0 ∷ []))) (append_assoc host two rest)
      ∙ read_host-name host (two ++ rest) (5 ∷ 0 ∷ []) i in
    step greet _ _ _ tt (greet-no_auth (5 ∷ 1 ∷ 0 ∷ 3 ∷ behind))
    ∙ step (read_exact 4) _ _ _ (5 ∷ 1 ∷ 0 ∷ 3 ∷ [])
        (read_exact-append (5 ∷ 1 ∷ 0 ∷ 3 ∷ []) behind (5 ∷ 0 ∷ []) 4 refl)
    ∙ step (read_host 3) _ _ _ host named
    ∙ step (read_exact 2) _ _ _ two (read_exact-append two rest (5 ∷ 0 ∷ []) 2 refl)
    ∙ finish-ok socks5 host (port_of a b) (conn rest (5 ∷ 0 ∷ [])) pos i.some_name

-- The request of a SOCKS5 client that offers no authentication and nothing else, for a host by an ASCII
-- name and a port from 1 to 65535, is read as that host and port, answered with the choice of no
-- authentication, and what the client sends behind it is left for the tunnel.
pub negotiate-socks5_bytes :
    (host : Text) (port : ℕ) (rest : List ℕ)
    → IsHost host
    → 0 < port
    → port < 65536
    → negotiate (record { input = socks5_bytes host port ++ rest; sent = [] }) ≡ (
      ok (connect (record { host = host; port = port; protocol = socks5 })),
      record { input = rest; sent = 5 ∷ 0 ∷ [] },
    )
unfolding negotiate
negotiate-socks5_bytes host port rest i pos small =
    let a = port / 256 % 256 in
    let b = port % 256 in
    let whole : port_of a b ≡ port = unfold u16_of in omega arith in
    let body = 1 ∷ 0 ∷ 5 ∷ 1 ∷ 0 ∷ 3 ∷ length host ∷ ((host ++ (a ∷ b ∷ [])) ++ rest) in
    step (read_exact 1) _ _ _ (5 ∷ []) (read_exact-append (5 ∷ []) body [] 1 refl)
    ∙ step negotiate_socks5 _ _ _ (record { host = host; port = port_of a b; protocol = socks5 })
        (negotiate_socks5-name host a b rest i (rw whole pos))
    ∙ ap
        (λ p. (
          ok (connect (record { host = host; port = p; protocol = socks5 })),
          conn rest (5 ∷ 0 ∷ []),
        ))
        whole
