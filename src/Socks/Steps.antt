-- ===== src/Socks/Steps.antt =====
-- Steps of a session whose input is known.
use rust_tor_proxy.Prelude.{
  ℕ, ◌≤◌, ◌<◌, ◌≡◌, refl, ap, false, List, [], ◌∷◌, ◌++◌, length, length-append, take-length_append,
  drop-length_append, All, ltb, Text, ok, arith,
}
use rust_tor_proxy.Socks.{Protocol}
use rust_tor_proxy.Socks.Session.{Session, Conn, ◌>>=◌, read_exact, and_then}
use rust_tor_proxy.Socks.Http.{finish}

abbrev pub conn : List ℕ → List ℕ → Conn
conn input sent = record { input = input; sent = sent }

pub read_exact-append :
    (xs rest sent : List ℕ) (n : ℕ)
    → length xs ≡ n
    → read_exact n (conn (xs ++ rest) sent) ≡ (ok xs, conn rest sent)
unfolding read_exact
read_exact-append xs rest sent n e =
    let enough : ltb (length (xs ++ rest)) n ≡ false = ground (arith, length-append xs rest) in
    rw (enough, ← e, take-length_append xs rest, drop-length_append xs rest) refl

module _ {ℓ κ} {A : Type ℓ} {B : Type κ} where
  pub step :
      (m : Session A) (f : A → Session B) (c d : Conn) (a : A)
      → m c ≡ (ok a, d)
      → (m >>= f) c ≡ f a d
  step m f c d a e = ap (λ p. and_then p.0 p.1 f) e

-- A host name that either protocol can carry: ASCII, not empty, not too long.
pub record IsHost (host : Text) : Type 0 where
  pub ascii : All (λ c. c < 128) host
  pub some_name : 1 ≤ length host
  pub short : length host ≤ 255

pub finish-ok :
    (p : Protocol) (host : Text) (port : ℕ) (c : Conn)
    → 0 < port
    → 1 ≤ length host
    → finish p host port c ≡ (ok (record { host = host; port = port; protocol = p }), c)
unfolding finish
finish-ok p [] port c h k = elim k [ ]
finish-ok p (x ∷ host) port c h k = ground arith
