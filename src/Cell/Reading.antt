-- ===== src/Cell/Reading.antt =====
-- src/tor/cell.rs, `read_from`: reading a cell takes its frame off the stream and nothing more.
use rust_tor_proxy.Prelude.{
  ℕ, ◌+◌, ◌<◌, ◌≡◌, refl, ap, sym, ◌∙◌, inl, inr, false, some, List, [], ◌∷◌, ◌++◌, length,
  length-append, take-length_append, append_assoc, append-nil, ◌/◌, ◌%◌, drop-length_append, ltb,
  Bool-cases, ok, arith, subst, get_or,
}
use rust_tor_proxy.Cell.Bytes.{be16, be32, u16_of, u16_of-be16}
use rust_tor_proxy.Cell.Roundtrip.{FitsFrame, IsFramed, try_parse-encode}
use rust_tor_proxy.Cell.{
  Cell, is_variable_length, circ_id_bytes, length_bytes, encode, try_parse, read_exact, read_rest,
  read_from, cell_body_len,
}

read_exact-append :
    (xs rest : List ℕ) (n : ℕ) → length xs ≡ n → read_exact n (xs ++ rest) ≡ ok (xs, rest)
unfolding read_exact
read_exact-append xs rest n e =
    let enough : ltb (length (xs ++ rest)) n ≡ false = ground (arith, length-append xs rest) in
    rw (enough, ← e, take-length_append xs rest, drop-length_append xs rest) refl

-- After the header, exactly the length field and the body are read.
read_rest-fits :
    (buf : List ℕ) (c : Cell) (rest : List ℕ)
    → FitsFrame (is_variable_length c.command) c.body
    → read_rest buf c.command (length_bytes c ++ (c.body ++ rest))
      ≡ ok (buf ++ (length_bytes c ++ c.body), rest)
unfolding read_rest length_bytes be16
read_rest-fits buf c rest f = elim (Bool-cases (is_variable_length c.command)) [
  | inl v ↦
      let k = length c.body % 65536 in
      let l = (k / 256 % 256) ∷ (k % 256) ∷ [] in
      let fits : length c.body < 65536 = rw v at f in
      let k' : u16_of (k / 256 % 256) (k % 256) ≡ length c.body =
        u16_of-be16 k (omega arith) ∙ (omega arith) in
      rw
        (
          v,
          read_exact-append l (c.body ++ rest) 2 refl,
          k',
          read_exact-append c.body rest (length c.body) refl,
        )
        (ap (λ b. ok (b, rest)) (append_assoc buf l c.body))
  | inr v ↦ rw (v, read_exact-append c.body rest cell_body_len (rw v at f)) refl
]

abbrev header_bytes : Cell → ℕ → List ℕ
header_bytes c width = circ_id_bytes width c.circ_id ++ (c.command ∷ [])

encode-header :
    (c : Cell) (width : ℕ) → encode c width ≡ header_bytes c width ++ (length_bytes c ++ c.body)
unfolding encode
encode-header c width =
    sym (append_assoc (circ_id_bytes width c.circ_id) (c.command ∷ []) (length_bytes c ++ c.body))

header-shape :
    (c : Cell) (width : ℕ)
    → IsFramed c width
    → (length (header_bytes c width) ≡ width + 1)
      × (get_or (header_bytes c width) width 0 ≡ c.command)
unfolding circ_id_bytes be16 be32
header-shape c width f = elim f.width_of [
  | inl (w, h) ↦ rw w (refl, refl)
  | inr (w, h) ↦ rw w (refl, refl)
]

-- Reading from a stream that starts with a framed cell gives the cell back and leaves the reader
-- exactly behind its frame.
pub read_from-encode :
    (c : Cell) (width : ℕ) (rest : List ℕ)
    → IsFramed c width
    → read_from (encode c width ++ rest) width ≡ ok (c, rest)
unfolding read_from
read_from-encode c width rest f =
    let head = header_bytes c width in
    let tail = length_bytes c ++ c.body in
    let (len, command) = header-shape c width f in
    let stream : encode c width ++ rest ≡ head ++ (length_bytes c ++ (c.body ++ rest)) =
      ap (λ e. e ++ rest) (encode-header c width)
      ∙ append_assoc head tail rest
      ∙ ap (λ t. head ++ t) (append_assoc (length_bytes c) c.body rest) in
    let parsed : try_parse (head ++ tail) width ≡ ok (some (c, length (encode c width))) =
      subst (λ b. try_parse b width ≡ ok (some (c, length (encode c width))))
        (append-nil (encode c width) ∙ encode-header c width) (try_parse-encode c width [] f) in
    rw
      (
        stream,
        read_exact-append head (length_bytes c ++ (c.body ++ rest)) (width + 1) len,
        command,
        read_rest-fits head c rest f.fits,
        parsed,
      )
      refl
