-- ===== src/Socks/Session.antt =====
-- Reading from a client and writing to it, as the code does through `TcpStream`.
use rust_tor_proxy.Prelude.{
  ℕ, List, [], ◌++◌, length, take, drop, ltb, if◌then◌else◌, Option, none, some, Result, Error, ok,
  err, unexpected_eof,
}

pub record Conn : Type 0 where
  pub input : List ℕ
  pub sent : List ℕ

abbrev pub Session {ℓ} : Type ℓ → Type ℓ
Session A = Conn → Result A × Conn

abbrev pub pure {ℓ} : {A : Type ℓ} → A → Session A
pure a c = (ok a, c)

abbrev pub fail {ℓ} : {A : Type ℓ} → Error → Session A
fail e c = (err e, c)

abbrev pub and_then {ℓ κ} :
    {A : Type ℓ} {B : Type κ} → Result A → Conn → (A → Session B) → Result B × Conn
and_then (ok a) c f = f a c
and_then (err e) c f = (err e, c)

infixl 5 ◌>>=◌ ◌>>◌
abbrev pub ◌>>=◌ {ℓ κ} : {A : Type ℓ} {B : Type κ} → Session A → (A → Session B) → Session B
(m >>= f) c = and_then (m c).0 (m c).1 f

abbrev pub ◌>>◌ {κ} : {B : Type κ} → Session (Unit {0}) → Session B → Session B
(m >> k) c = and_then (m c).0 (m c).1 (λ _. k)

-- `read_exact`; what a client that closes early sent is used up.
unfoldable pub read_exact : ℕ → Session (List ℕ)
read_exact n c =
    if ltb (length c.input) n
    then (err unexpected_eof, record c { input = [] })
    else (ok (take n c.input), record c { input = drop n c.input })

-- `write_all`
unfoldable pub write_all : List ℕ → Session (Unit {0})
write_all bytes c = (ok tt, record c { sent = c.sent ++ bytes })

-- `.map_err(..)?` of an option
abbrev pub some_or {ℓ} : {A : Type ℓ} → Option A → Error → Session A
some_or none e = fail e
some_or (some a) e = pure a
