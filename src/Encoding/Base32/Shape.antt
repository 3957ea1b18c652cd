-- ===== src/Encoding/Base32/Shape.antt =====
-- src/crypto/base32.rs: how many characters `encode` writes, and that they are ASCII.
use rust_tor_proxy.Prelude.{
  ℕ, zero, suc, ◌+◌, ◌-◌, ◌*◌, ◌/◌, ◌%◌, ◌^◌, ◌<◌, ◌≤◌, ◌≡◌, refl, ap, ◌∙◌, arith, true, Bool-cases,
  inl, inr, List, [], ◌∷◌, length, length-append, IsAscii, IsAscii-append, ltb, leb, leb→le,
  holds_below, holds_below_at, u16_mod,
}
use rust_tor_proxy.Encoding.Base32.{letter, encode, encode_from, emitted}

ascii_letters : holds_below 32 (λ v. ltb (letter v) 128) ≡ true
ascii_letters = refl

letter-ascii : (n : ℕ) → letter (n % 32) < 128
letter-ascii n =
    let t = holds_below_at 32 (λ x. ltb (letter x) 128) (n % 32) ascii_letters (omega arith) in
    ground arith

-- The characters of the inner loop, and the bits it leaves.
emitted-shape :
    (fuel acc bits : ℕ)
    → bits ≤ fuel
    → (length (emitted fuel acc bits).0 ≡ bits / 5)
      × ((emitted fuel acc bits).1 ≡ bits % 5)
      × IsAscii (emitted fuel acc bits).0
unfolding emitted
emitted-shape zero acc bits h = (omega arith, omega arith, tt)
emitted-shape (suc fuel) acc bits h =
    let (len, left, ascii) = emitted-shape fuel acc (bits - 5) (omega arith) in
    elim (Bool-cases (leb 5 bits)) [
      | inl more ↦
          let five : 5 ≤ bits = leb→le 5 bits more in
          let one_more : suc ((bits - 5) / 5) ≡ bits / 5 = omega arith in
          let same : (bits - 5) % 5 ≡ bits % 5 = omega arith in
          rw more (ap suc len ∙ one_more, left ∙ same, (letter-ascii (acc / 2 ^ (bits - 5)), ascii))
      | inr done ↦ let few : bits < 5 = ground arith in rw done (omega arith, omega arith, tt)
    ]

encode_from-shape :
    (bytes : List ℕ) (acc bits : ℕ)
    → bits < 5
    → (length (encode_from acc bits bytes) ≡ (bits + 8 * length bytes + 4) / 5)
      × IsAscii (encode_from acc bits bytes)
unfolding encode_from
encode_from-shape [] acc bits h = elim (Bool-cases (leb 1 bits)) [
  | inl some_left ↦ rw some_left (ground arith, (letter-ascii (acc * 2 ^ (5 - bits) % u16_mod), tt))
  | inr none_left ↦ rw none_left (ground arith, tt)
]
encode_from-shape (byte ∷ bytes) acc bits h =
    let acc' = acc * 256 % u16_mod + byte in
    let (len, left, ascii) = emitted-shape (bits + 8) acc' (bits + 8) (omega arith) in
    let (len', ascii') =
      encode_from-shape bytes acc' (emitted (bits + 8) acc' (bits + 8)).1 (omega arith) in
    (
      length-append (emitted (bits + 8) acc' (bits + 8)).0 _ ∙ omega arith,
      IsAscii-append _ _ ascii ascii',
    )

-- An encoding has a character for each five bits, the last ones filled up, and all are ASCII.
pub encode-shape :
    (bytes : List ℕ) → (length (encode bytes) ≡ (8 * length bytes + 4) / 5) × IsAscii (encode bytes)
unfolding encode
encode-shape bytes =
    let (len, ascii) = encode_from-shape bytes 0 0 (omega arith) in (len ∙ omega arith, ascii)
