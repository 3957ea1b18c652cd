-- ===== src/Cell/Roundtrip.antt =====
-- src/tor/cell.rs, `encode` and `try_parse`: a cell that was framed is read back, whatever follows.
use rust_tor_proxy.Prelude.{
  ℕ, ◌+◌, ◌%◌, ◌≤◌, ◌<◌, ◌≡◌, refl, ◌∙◌, ◌⊎◌, inl, inr, Bool, true, false, some, List, [], ◌∷◌,
  ◌++◌, length, length-append, length-replicate, take, take-length_append, drop, drop-length_append,
  take-length, replicate, ltb, ◌-◌, ◌/◌, Bool-cases, ok, arith, subst,
}
use rust_tor_proxy.Cell.Bytes.{be16, be32, u16_of, u16_of-be16, u32_of-be32}
use rust_tor_proxy.Cell.{
  Cell, is_variable_length, new, circ_id_bytes, length_bytes, encode, take_body, parse_after_id,
  try_parse, cell_body_len,
}

-- The length of a body that `new` lets through.
abbrev pub FitsFrame : Bool → List ℕ → Type 0
FitsFrame true body = length body < 65536
FitsFrame false body = length body ≡ cell_body_len

-- A cell that the frame of this width can carry.
pub record IsFramed (c : Cell) (width : ℕ) : Type 0 where
  pub width_of : ((width ≡ 2) × (c.circ_id < 65536)) ⊎ ((width ≡ 4) × (c.circ_id < 4294967296))
  pub fits : FitsFrame (is_variable_length c.command) c.body

-- Every cell that `Cell::new` makes has a body that fits its frame and starts with the bytes given.
pub new-FitsFrame :
    (circ_id command : ℕ) (body : List ℕ) {c : Cell}
    → new circ_id command body ≡ ok c
    → FitsFrame (is_variable_length c.command) c.body × (take (length body) c.body ≡ body)
unfolding new
new-FitsFrame circ_id command body {c} h = elim (Bool-cases (is_variable_length command)) [
  | inl v ↦
      let e : c ≡ record { circ_id = circ_id; command = command; body = body } = ground arith in
      let fits : length body < 65536 = ground arith in rw (e, v) (fits, take-length body)
  | inr v ↦
      let pad : List ℕ = replicate (cell_body_len - length body) 0 in
      let e : c ≡ record { circ_id = circ_id; command = command; body = body ++ pad } =
        ground arith in
      let fits : length body ≤ 509 = ground arith in
      rw (e, v)
        (
          omega (
            arith,
            length-append body pad,
            length-replicate {A = ℕ} (cell_body_len - length body) 0,
          ),
          take-length_append body pad,
        )
]

take_body-append :
    (front body rest : List ℕ) (circ_id command start len : ℕ)
    → length front ≡ start
    → length body ≡ len
    → take_body (front ++ (body ++ rest)) circ_id command start len
      ≡ ok (some (record { circ_id = circ_id; command = command; body = body }, start + len))
unfolding take_body
take_body-append front body rest circ_id command start len f b =
    let enough : ltb (length (front ++ (body ++ rest))) (start + len) ≡ false =
      ground (arith, length-append front (body ++ rest), length-append body rest) in
    let at : drop start (front ++ (body ++ rest)) ≡ body ++ rest =
      subst (λ n. drop n (front ++ (body ++ rest)) ≡ body ++ rest) f
        (drop-length_append front (body ++ rest)) in
    let whole : take len (body ++ rest) ≡ body =
      subst (λ n. take n (body ++ rest) ≡ body) b (take-length_append body rest) in
    rw (enough, at, whole)

-- A frame with a circuit identifier of two bytes.
parse_narrow :
    (c : Cell) (rest : List ℕ)
    → c.circ_id < 65536
    → FitsFrame (is_variable_length c.command) c.body
    → try_parse (encode c 2 ++ rest) 2 ≡ ok (some (c, length (encode c 2)))
unfolding encode circ_id_bytes length_bytes be16 try_parse parse_after_id
parse_narrow c rest h f =
    let n = c.circ_id % 65536 in
    let k = length c.body % 65536 in
    let id = (n / 256 % 256) ∷ (n % 256) ∷ c.command ∷ [] in
    elim (Bool-cases (is_variable_length c.command)) [
      | inl v ↦
          let fits : length c.body < 65536 = rw v at f in
          let k' : u16_of (k / 256 % 256) (k % 256) ≡ length c.body =
            u16_of-be16 k (omega arith) ∙ (omega arith) in
          ground (
            arith,
            u16_of-be16 n,
            k',
            take_body-append (id ++ ((k / 256 % 256) ∷ (k % 256) ∷ [])) c.body rest c.circ_id
                c.command 5 (length c.body) refl refl,
          )
      | inr v ↦
          ground (arith, u16_of-be16 n, take_body-append id c.body rest c.circ_id c.command 3 509)
    ]

-- A frame with a circuit identifier of four bytes.
parse_wide :
    (c : Cell) (rest : List ℕ)
    → c.circ_id < 4294967296
    → FitsFrame (is_variable_length c.command) c.body
    → try_parse (encode c 4 ++ rest) 4 ≡ ok (some (c, length (encode c 4)))
unfolding encode circ_id_bytes length_bytes be16 be32 try_parse parse_after_id
parse_wide c rest h f =
    let n = c.circ_id in
    let k = length c.body % 65536 in
    let id =
      (n / 16777216 % 256) ∷ (n / 65536 % 256) ∷ (n / 256 % 256) ∷ (n % 256) ∷ c.command ∷ [] in
    elim (Bool-cases (is_variable_length c.command)) [
      | inl v ↦
          let fits : length c.body < 65536 = rw v at f in
          let k' : u16_of (k / 256 % 256) (k % 256) ≡ length c.body =
            u16_of-be16 k (omega arith) ∙ (omega arith) in
          ground (
            arith,
            u32_of-be32 n,
            k',
            take_body-append (id ++ ((k / 256 % 256) ∷ (k % 256) ∷ [])) c.body rest c.circ_id
                c.command 7 (length c.body) refl refl,
          )
      | inr v ↦
          ground (arith, u32_of-be32 n, take_body-append id c.body rest c.circ_id c.command 5 509)
    ]

-- A cell that its frame can carry is read back exactly from its encoding, with the number of bytes
-- that it takes, whatever bytes follow it.
pub try_parse-encode :
    (c : Cell) (width : ℕ) (rest : List ℕ)
    → IsFramed c width
    → try_parse (encode c width ++ rest) width ≡ ok (some (c, length (encode c width)))
try_parse-encode c width rest f = elim f.width_of [
  | inl (w, h) ↦ rw w (parse_narrow c rest h f.fits)
  | inr (w, h) ↦ rw w (parse_wide c rest h f.fits)
]
