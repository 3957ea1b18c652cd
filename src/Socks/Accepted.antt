-- ===== src/Socks/Accepted.antt =====
-- src/socks5.rs: what every handshake that is accepted asks for, and how a handshake uses its
-- connection. Both are proved once for each way of putting sessions together.
use rust_tor_proxy.Prelude.{
  ℕ, ◌≤◌, ◌<◌, ◌≡◌, ◌≢◌, refl, subst, Bool, true, false, ◌||◌, [], ◌∷◌, ◌==◌, if◌then◌else◌,
  Bool-cases, Option-cases, parse_uint, parse_uint_le, inl, inr, Text, Result, Error, ok, err,
  arith,
}
use rust_tor_proxy.Socks.{Request, Asked, connect, status, Protocol}
use rust_tor_proxy.Socks.Session.{
  Session, Conn, pure, fail, ◌>>=◌, ◌>>◌, read_exact, write_all, and_then,
}
use rust_tor_proxy.Socks.Reply.{send_reply}
use rust_tor_proxy.Socks.Http.{
  finish, is_empty, target_of, rsplit_once, answer, wants_status, negotiate_http, read_http_head,
}
use rust_tor_proxy.Socks.Negotiate.{
  greet, read_host, read_host4, negotiate_socks5, negotiate_socks4, negotiate, read_until_nul,
}

-- Whatever a session returns is as `P` says.
abbrev Yields {ℓ κ} : {A : Type ℓ} → (A → Type κ) → Session A → Type (ℓ ⊔ κ)
Yields {A = A} P m = (c : Conn) (a : A) → (m c).0 ≡ ok a → P a

module _ {ℓ κ λ'} {A : Type ℓ} {B : Type κ} (P : B → Type λ') where
  bind-Yields :
      (m : Session A) (f : A → Session B) → ((a : A) → Yields P (f a)) → Yields P (m >>= f)
  bind-Yields m f h c b e = go (m c).0 e
    where
      go : (r : Result A) → (and_then r (m c).1 f).0 ≡ ok b → P b
      go (ok a) e = h a (m c).1 b e
      go (err x) e = absurd (ground arith)

module _ {ℓ κ λ' μ} {A : Type ℓ} {B : Type κ} (Q : A → Type μ) (P : B → Type λ') where
  bind-Yields_if :
      (m : Session A) (f : A → Session B)
      → Yields Q m
      → ((a : A) → Q a → Yields P (f a))
      → Yields P (m >>= f)
  bind-Yields_if m f q h c b e = go (m c).0 (q c) e
    where
      go : (r : Result A) → ((a : A) → r ≡ ok a → Q a) → (and_then r (m c).1 f).0 ≡ ok b → P b
      go (ok a) k e = h a (k a refl) (m c).1 b e
      go (err x) k e = absurd (ground arith)

module _ {κ λ'} {B : Type κ} (P : B → Type λ') where
  fail-Yields : (e : Error) → Yields P (fail e)
  fail-Yields e c b h = absurd (ground arith)

  then-Yields : (m : Session (Unit {0})) (k : Session B) → Yields P k → Yields P (m >> k)
  then-Yields m k h = bind-Yields P m (λ _. k) (λ _. h)

  if-Yields : (b : Bool) (m n : Session B) → Yields P m → Yields P n → Yields P (if b then m else n)
  if-Yields true m n h k = h
  if-Yields false m n h k = k

-- A request that can be acted on.
pub record IsUsable (r : Request) : Type 0 where
  pub port : 0 < r.port
  pub small : r.port ≤ 65535
  pub host : r.host ≢ []

abbrev pub IsUsableAsked : Asked → Type 0
IsUsableAsked (connect r) = IsUsable r
IsUsableAsked status = Unit

finish-Yields :
    (p : Protocol) (host : Text) (port : ℕ) → port ≤ 65535 → Yields IsUsable (finish p host port)
unfolding finish
finish-Yields p host port small = elim (Bool-cases (port == 0 || is_empty host)) [
  | inl e ↦ rw e (λ c r h. absurd (ground arith))
  | inr e ↦ rw e (λ c r h.
      let made : record { host = host; port = port; protocol = p } ≡ r = ground arith in
      subst IsUsable made
        (record { port = ground arith; small = small; host = nonempty host (ground arith) }))
]
  where
    nonempty : (host : Text) → is_empty host ≡ false → host ≢ []
    nonempty [] e = absurd (ground arith)
    nonempty (c ∷ cs) e = λ q. absurd (ground arith)

negotiate_socks5-Yields : Yields IsUsable negotiate_socks5
unfolding negotiate_socks5
negotiate_socks5-Yields = then-Yields IsUsable greet _ (
    bind-Yields IsUsable (read_exact 4) _ λ header.
      if-Yields IsUsable _ _ _ (fail-Yields IsUsable _) (
        if-Yields IsUsable _ _ _ (then-Yields IsUsable (send_reply _ _) _ (fail-Yields IsUsable _))
          (bind-Yields IsUsable (read_host _) _ λ host.
            bind-Yields IsUsable (read_exact 2) _ λ port. finish-Yields _ host _ (omega arith))))

negotiate_socks4-Yields : Yields IsUsable negotiate_socks4
unfolding negotiate_socks4
negotiate_socks4-Yields = bind-Yields IsUsable (read_exact 7) _ λ header.
    if-Yields IsUsable _ _ _ (then-Yields IsUsable (send_reply _ _) _ (fail-Yields IsUsable _)) (
      bind-Yields IsUsable (read_until_nul 256) _ λ user.
        bind-Yields IsUsable (read_host4 header) _ λ host. finish-Yields _ host _ (omega arith))

connect-Yields :
    (m : Session Request) → Yields IsUsable m → Yields IsUsableAsked (m >>= λ r. pure (connect r))
connect-Yields m h c a e = go (m c).0 (h c) e
  where
    go :
        (r : Result Request)
        → ((q : Request) → r ≡ ok q → IsUsable q)
        → (and_then r (m c).1 (λ q. pure (connect q))).0 ≡ ok a
        → IsUsableAsked a
    go (ok q) k e = let same : connect q ≡ a = ground arith in subst IsUsableAsked same (k q refl)
    go (err x) k e = absurd (ground arith)

-- The port of a CONNECT target, written out or not.
target_of-small : (target : Text) → Yields (λ (t : Text × ℕ). t.1 ≤ 65535) (target_of target)
unfolding target_of
target_of-small target = elim (Option-cases (rsplit_once b':' target)) [
  | inl e ↦ rw (target_of, e) (λ c t h. ground arith)
  | inr ((host, digits), e) ↦ elim (Option-cases (parse_uint 65535 digits)) [
    | inl bad ↦ rw (target_of, e, bad) (λ c t h. absurd (ground arith))
    | inr (p, good) ↦
        rw (target_of, e, good) (λ c t h. ground (arith, parse_uint_le 65535 digits good))
  ]
]

answer-Yields : (method target : Text) → Yields IsUsableAsked (answer method target)
unfolding answer
answer-Yields method target =
    if-Yields IsUsableAsked (wants_status method target) _ _
      (λ c a e. let same : status ≡ a = ground arith in subst IsUsableAsked same tt)
      (if-Yields IsUsableAsked _ _ _
        (bind-Yields_if (λ (t : Text × ℕ). t.1 ≤ 65535) IsUsableAsked (target_of target) _
          (target_of-small target) λ t small. connect-Yields _ (finish-Yields _ t.0 t.1 small))
        (then-Yields IsUsableAsked (write_all _) _ (fail-Yields IsUsableAsked _)))

negotiate_http-Yields : (first : ℕ) → Yields IsUsableAsked (negotiate_http first)
unfolding negotiate_http
negotiate_http-Yields first =
    bind-Yields IsUsableAsked (read_http_head first) _ λ head. answer-Yields _ _

negotiate-Yields : Yields IsUsableAsked negotiate
unfolding negotiate
negotiate-Yields = bind-Yields IsUsableAsked (read_exact 1) _ λ first.
    if-Yields IsUsableAsked _ _ _ (connect-Yields _ negotiate_socks5-Yields) (
      if-Yields IsUsableAsked _ _ _ (connect-Yields _ negotiate_socks4-Yields)
        (if-Yields IsUsableAsked _ _ _ (negotiate_http-Yields _) (fail-Yields IsUsableAsked _)))

-- Whatever a client sends, in any of the three protocols, a connection that is asked for has a port
-- from 1 to 65535 and a host that is not empty.
pub negotiate-IsUsable : (c : Conn) (a : Asked) → (negotiate c).0 ≡ ok a → IsUsableAsked a
negotiate-IsUsable c a h = negotiate-Yields c a h
