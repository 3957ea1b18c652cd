-- ===== src/Relay/Kept.antt =====
-- What no cell can change: whatever the channel delivers, hops, budget and identifiers stay, no stream is
-- lost, and the queue of control replies stays bounded.
use rust_tor_proxy.Prelude.{
  ℕ, zero, suc, ◌+◌, ◌≤◌, ◌≡◌, refl, ap, ap₂, ◌∙◌, arith, false, if◌then◌else◌, Bool-cases,
  Result-cases, inl, inr, Option, none, some, List, [], ◌∷◌, ◌++◌, length, length-append, max, ◌==◌,
  ltb, leb, Result,
}
use rust_tor_proxy.Flow.{relay_data_max}
use rust_tor_proxy.Relay.{Crypto, Hop}
use rust_tor_proxy.Relay.Seal.{
  Outbound, Opened, build_relay_cell, padding, digested, layered, sealed, with_digest,
  decrypt_inbound, settle, recognised,
}
use rust_tor_proxy.Relay.Outward.{plain_body}
use rust_tor_proxy.Relay.Circuit.{
  Circuit, Stream, StreamBuf, at_stream, remove_stream, push_control,
}
use rust_tor_proxy.Relay.Handle.{ended_by}

abbrev pub count_id : ℕ → List Stream → ℕ
count_id id [] = 0
count_id id (s ∷ ss) = (if s.id == id then 1 else 0) + count_id id ss

pub count_id-append :
    (id : ℕ) (ss ts : List Stream) → count_id id (ss ++ ts) ≡ count_id id ss + count_id id ts
count_id-append id [] ts = omega arith
count_id-append id (s ∷ ss) ts = grind (arith, count_id-append id ss ts)

pub count_id-at_stream :
    (id x : ℕ) (f : StreamBuf → StreamBuf) (ss : List Stream)
    → count_id id (at_stream x f ss) ≡ count_id id ss
unfolding at_stream
count_id-at_stream id x f [] = refl
count_id-at_stream id x f (s ∷ ss) = elim (Bool-cases (s.id == x)) [
  | inl here ↦ rw (here, count_id-at_stream id x f ss)
  | inr there ↦ rw (there, count_id-at_stream id x f ss)
]

pub count_id-remove_stream :
    (id x : ℕ) (ss : List Stream)
    → count_id id (remove_stream x ss).0 + count_id id (remove_stream x ss).1 ≡ count_id id ss
unfolding remove_stream
count_id-remove_stream id x [] = refl
count_id-remove_stream id x (s ∷ ss) =
    let ih = count_id-remove_stream id x ss in
    elim (Bool-cases (s.id == x)) [
      | inl here ↦ rw (here) (omega arith)
      | inr there ↦ rw (there) (omega arith)
    ]

-- The streams that have neither ended nor failed, so that a reader waits for more.
abbrev pub is_waiting : Option ℕ → Option (List ℕ) → ℕ
is_waiting none none = 1
is_waiting (some r) error = 0
is_waiting none (some e) = 0

abbrev pub waiting : List Stream → ℕ
waiting [] = 0
waiting (s ∷ ss) = is_waiting s.buf.ended s.buf.error + waiting ss

pub waiting-append : (ss ts : List Stream) → waiting (ss ++ ts) ≡ waiting ss + waiting ts
waiting-append [] ts = omega arith
waiting-append (s ∷ ss) ts = let ih = waiting-append ss ts in omega arith

pub waiting-remove_stream :
    (x reason : ℕ) (ss : List Stream)
    → waiting (remove_stream x (at_stream x (ended_by reason) ss)).1 ≡ 0
unfolding at_stream remove_stream
waiting-remove_stream x reason [] = refl
waiting-remove_stream x reason (s ∷ ss) = elim (Bool-cases (s.id == x)) [
  | inl here ↦ rw (here, here) (ap (λ n. 0 + n) (waiting-remove_stream x reason ss))
  | inr there ↦ rw (there, there) (waiting-remove_stream x reason ss)
]

pub length-push_control-max :
    (c : ℕ) (message : List ℕ) (control : List (ℕ × List ℕ))
    → length (push_control c message control) ≤ max 16 (length control)
unfolding push_control
length-push_control-max c message [] = ground arith
length-push_control-max c message (r ∷ control) =
    elim (Bool-cases (leb 16 (suc (length control)))) [
      | inl full ↦ rw (full, length-append control ((c, message) ∷ [])) (ground arith)
      | inr room ↦ rw (room, length-append control ((c, message) ∷ [])) (ground arith)
    ]

module _ (k : Crypto) where
  pub record Kept (c c' : Circuit k) : Type 0 where
    pub same_hops : length c'.out.hops ≡ length c.out.hops
    pub same_early : c'.out.relay_early_left ≡ c.out.relay_early_left
    pub same_next : c'.next_stream_id ≡ c.next_stream_id
    pub same_streams :
        (id : ℕ)
        → count_id id c'.streams + count_id id c'.released
          ≡ count_id id c.streams + count_id id c.released
    pub settled : waiting c'.released ≤ waiting c.released
    pub bounded_control : length c'.control ≤ max 16 (length c.control)

  pub Kept-refl : (c : Circuit k) → Kept c c
  Kept-refl c = record {
    same_hops = refl;
    same_early = refl;
    same_next = refl;
    same_streams = λ id. refl;
    settled = omega arith;
    bounded_control = ground arith;
  }

  pub Kept-trans : (a b c : Circuit k) → Kept a b → Kept b c → Kept a c
  Kept-trans a b c p q = record {
    same_hops = q.same_hops ∙ p.same_hops;
    same_early = q.same_early ∙ p.same_early;
    same_next = q.same_next ∙ p.same_next;
    same_streams = λ id. q.same_streams id ∙ p.same_streams id;
    settled = (let h₁ = p.settled in let h₂ = q.settled in omega arith);
    bounded_control = (let h₁ = p.bounded_control in let h₂ = q.bounded_control in ground arith);
  }

  -- A step that touches the streams only in their buffers.
  pub Kept-streams :
      (c c' : Circuit k)
      → c'.out ≡ c.out
      → c'.next_stream_id ≡ c.next_stream_id
      → c'.control ≡ c.control
      → c'.released ≡ c.released
      → ((id : ℕ) → count_id id c'.streams ≡ count_id id c.streams)
      → Kept c c'
  Kept-streams c c' out next control released same = record {
    same_hops = ap (λ o. length o.hops) out;
    same_early = ap (λ o. o.relay_early_left) out;
    same_next = next;
    same_streams = λ id. ap₂ (λ m n. m + n) (same id) (ap (count_id id) released);
    settled = rw (released) (omega arith);
    bounded_control = rw (control) (ground arith);
  }

  length-digested_hops :
      (hops : List (Hop k)) (hop : ℕ) (body : List ℕ)
      → length (digested k hops hop body).1 ≡ length hops
  unfolding digested
  length-digested_hops [] hop body = refl
  length-digested_hops (h ∷ hs) zero body = refl
  length-digested_hops (h ∷ hs) (suc hop) body = ap suc (length-digested_hops hs hop body)

  length-layered_hops :
      (hops : List (Hop k)) (hop : ℕ) (body : List ℕ)
      → length (layered k hops hop body).1 ≡ length hops
  unfolding layered
  length-layered_hops [] hop body = refl
  length-layered_hops (h ∷ hs) zero body = refl
  length-layered_hops (h ∷ hs) (suc hop) body = ap suc (length-layered_hops hs hop body)

  length-sealed_hops :
      (hops : List (Hop k)) (hop : ℕ) (plain : List ℕ)
      → length (sealed k hops hop plain).1 ≡ length hops
  unfolding sealed
  length-sealed_hops hops hop plain =
      let (digest, hashed) = digested k hops hop plain in
      length-layered_hops hashed hop (with_digest digest plain)
      ∙ length-digested_hops hops hop plain

  length-settle :
      (moved : Hop k) (hs : List (Hop k)) (inner : List ℕ) (rest : Option Opened × List (Hop k))
      (claim : Option (List ℕ × k.Digest))
      → length rest.1 ≡ length hs
      → length (settle k moved hs inner rest claim).1 ≡ suc (length hs)
  length-settle moved hs inner rest (some x) h = refl
  length-settle moved hs inner rest none h = ap suc h

  pub length-decrypt_inbound :
      (hops : List (Hop k)) (body : List ℕ) → length (decrypt_inbound k hops body).1 ≡ length hops
  unfolding decrypt_inbound
  length-decrypt_inbound [] body = refl
  length-decrypt_inbound (h ∷ hs) body =
      let inner = (k.apply h.backward_cipher body).0 in
      length-settle (record h { backward_cipher = (k.apply h.backward_cipher body).1 }) hs inner
        (decrypt_inbound k hs inner) (recognised k h inner) (length-decrypt_inbound hs inner)

  pub build_relay_cell-length :
      (fill : ℕ → Result (List ℕ)) (o : Outbound k) (circ_id hop c s : ℕ) (message : List ℕ)
      → let o' = (build_relay_cell k fill o circ_id hop c s message false).0 in
        (length o'.hops ≡ length o.hops) × (o'.relay_early_left ≡ o.relay_early_left)
  unfolding build_relay_cell
  build_relay_cell-length fill o circ_id hop c s message =
      elim (Bool-cases (ltb relay_data_max (length message))) [
        | inl long ↦ rw (long) (refl, refl)
        | inr fits ↦ elim (Bool-cases (leb (length o.hops) hop)) [
          | inl beyond ↦ rw (fits, beyond) (refl, refl)
          | inr exists ↦ elim (Result-cases (padding fill (11 + length message))) [
            | inl (e, failed) ↦ rw (fits, exists, failed) (refl, refl)
            | inr (pad, padded) ↦
                rw (fits, exists, padded)
                  (length-sealed_hops o.hops hop (plain_body c s message pad), refl)
          ]
        ]
      ]
