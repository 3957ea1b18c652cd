-- ===== src/Cell/Partial.antt =====
-- src/tor/cell.rs, `try_parse`: a frame that is not complete asks for more bytes.
use native.Mathlib.Decide.{dec_lt}
use rust_tor_proxy.Prelude.{
  Bool, lt→ltb, ltb, subst⁻¹, ℕ, zero, suc, ◌+◌, ◌%◌, ◌≤◌, ◌<◌, ◌≡◌, refl, ◌⊎◌, inl, inr, true,
  false, none, List, [], ◌∷◌, ◌++◌, length, length-take, take, get_or, Bool-cases, ok,
  if◌then◌else◌, arith,
}
use rust_tor_proxy.Cell.Bytes.{be16, be32, u16_of, u32_of, u16_of-be16}
use rust_tor_proxy.Cell.Roundtrip.{FitsFrame, IsFramed}
use rust_tor_proxy.Cell.{
  Cell, is_variable_length, circ_id_bytes, length_bytes, encode, take_body, parse_after_id,
  try_parse, cell_body_len,
}

get_or-take : (n : ℕ) (xs : List ℕ) (i d : ℕ) → i < n → get_or (take n xs) i d ≡ get_or xs i d
get_or-take zero xs i d h = elim h [ ]
get_or-take (suc n) [] i d h = refl
get_or-take (suc n) (x ∷ xs) zero d h = refl
get_or-take (suc n) (x ∷ xs) (suc i) d h = get_or-take n xs i d (omega arith)

-- How many bytes a frame takes, from its command and length field.
abbrev frame_length : ℕ → ℕ → ℕ → ℕ → ℕ
frame_length width command a b =
    if is_variable_length command then width + 3 + u16_of a b else width + 1 + cell_body_len

take_body_short :
    (p : List ℕ) (circ_id command start len : ℕ)
    → length p < start + len
    → take_body p circ_id command start len ≡ ok none
unfolding take_body
take_body_short p circ_id command start len h = ground arith

short_after_id :
    (p : List ℕ) (width circ_id command a b : ℕ)
    → get_or p width 0 ≡ command
    → (width + 3 ≤ length p → (get_or p (width + 1) 0 ≡ a) × (get_or p (width + 1 + 1) 0 ≡ b))
    → length p < frame_length width command a b
    → parse_after_id p width circ_id ≡ ok none
unfolding parse_after_id
short_after_id p width circ_id command a b c l h = elim (Bool-cases (is_variable_length command)) [
  | inr v ↦ rw (c, v) (take_body_short p circ_id command (width + 1) cell_body_len (rw v at h))
  | inl v ↦ elim (dec_lt (length p) (width + 1 + 2)) [
    | yes q ↦ rw (c, v, lt→ltb _ _ q) refl
    | no q ↦
        let (la, lb) = l (omega arith) in
        let long : ltb (length p) (width + 1 + 2) ≡ false = ground arith in
        let h' : length p < width + 3 + u16_of a b = rw v at h in
        rw (c, v, long, la, lb)
          (take_body_short p circ_id command (width + 1 + 2) (u16_of a b) (omega arith))
  ]
]

prefix_asks :
    (buf : List ℕ) (width n : ℕ)
    → (width ≡ 2) ⊎ (width ≡ 4)
    → n ≤ length buf
    → n
      < frame_length width
          (get_or buf width 0)
          (get_or buf (width + 1) 0)
          (get_or buf (width + 1 + 1) 0)
    → try_parse (take n buf) width ≡ ok none
unfolding try_parse
prefix_asks buf width n w h f = elim (dec_lt n (width + 1)) [
  | yes q ↦
      let few : ltb (length (take n buf)) (width + 1) ≡ true =
        lt→ltb _ _ (omega (arith, length-take n buf)) in
      rw few refl
  | no q ↦
      let l : length (take n buf) ≡ n = omega (arith, length-take n buf) in
      let enough : ltb (length (take n buf)) (width + 1) ≡ false = ground arith in
      let rest = λ (id : ℕ).
        short_after_id (take n buf) width id (get_or buf width 0) (get_or buf (width + 1) 0)
          (get_or buf (width + 1 + 1) 0) (get_or-take n buf width 0 (omega arith))
          (λ m. (
            get_or-take n buf (width + 1) 0 (omega arith),
            get_or-take n buf (width + 1 + 1) 0 (omega arith),
          ))
          (subst⁻¹
            (λ k.
              k
              < frame_length width (get_or buf width 0) (get_or buf (width + 1) 0)
                  (get_or buf (width + 1 + 1) 0))
            l f) in
      elim w [
        | inl two ↦
            ground (arith, rest (u16_of (get_or (take n buf) 0 0) (get_or (take n buf) 1 0)))
        | inr four ↦ ground (
          arith,
          rest (
              u32_of (get_or (take n buf) 0 0) (get_or (take n buf) 1 0) (get_or (take n buf) 2 0)
                (get_or (take n buf) 3 0)),
        )
      ]
]

body_length-fits :
    (v : Bool) (body : List ℕ) (k : ℕ)
    → FitsFrame v body
    → let r = (if v then be16 (length body % 65536) else []) ++ body in
      (if v then k + 2 + u16_of (get_or r 0 0) (get_or r 1 0) else k + 509) ≡ k + length r
unfolding be16
body_length-fits true body k h = omega (arith, u16_of-be16 (length body % 65536))
body_length-fits false body k h = omega (arith, h)

-- What a frame's own bytes say of its length is the length of its encoding.
frame_length-encode :
    (c : Cell) (width : ℕ)
    → IsFramed c width
    → frame_length width
        (get_or (encode c width) width 0)
        (get_or (encode c width) (width + 1) 0)
        (get_or (encode c width) (width + 1 + 1) 0)
      ≡ length (encode c width)
unfolding encode circ_id_bytes length_bytes be16 be32
frame_length-encode c width f = elim f.width_of [
  | inl (w, h) ↦
      rw w (omega (arith, body_length-fits (is_variable_length c.command) c.body 3 f.fits))
  | inr (w, h) ↦
      rw w (omega (arith, body_length-fits (is_variable_length c.command) c.body 5 f.fits))
]

-- Whatever part of a frame has arrived, short of the whole, the parser asks for more: it neither fails
-- nor reads a cell early.
pub try_parse-take-encode :
    (c : Cell) (width n : ℕ)
    → IsFramed c width
    → n < length (encode c width)
    → try_parse (take n (encode c width)) width ≡ ok none
try_parse-take-encode c width n f h =
    prefix_asks (encode c width) width n (width_case f.width_of) (omega arith)
      (omega (arith, frame_length-encode c width f))
  where
    width_case :
        ((width ≡ 2) × (c.circ_id < 65536)) ⊎ ((width ≡ 4) × (c.circ_id < 4294967296))
        → (width ≡ 2) ⊎ (width ≡ 4)
    width_case (inl x) = inl x.0
    width_case (inr x) = inr x.0
