-- ===== src/Encoding/Base32/Roundtrip.antt =====
-- What `encode` writes, `decode` reads back. Between two bytes the encoder holds 0 to 4 bits, and the decoder
-- the other bits of the byte that they belong to.
use rust_tor_proxy.Prelude.{
  ℕ, ◌+◌, ◌-◌, ◌*◌, ◌/◌, ◌%◌, ◌^◌, leb, ◌<◌, ◌≤◌, ◌≡◌, refl, ap, ◌∙◌, Bool, true, false, not, ◌&&◌,
  ◌==◌, Option, some, none, List, [], ◌∷◌, ok, arith, All, holds_below, holds_below_at, u16_mod,
}
use rust_tor_proxy.Encoding.Base32.{
  value, letter, decode_end, decode_from, decode, encode_from, encode, emitted,
}

abbrev is_value : Option ℕ → ℕ → Bool
is_value none v = false
is_value (some w) v = w == v

letters : holds_below 32 (λ v. is_value (value (letter v)) v && not (letter v == b'=')) ≡ true
unfolding value
letters = refl

value_eq : (m : Option ℕ) (v : ℕ) → is_value m v ≡ true → m ≡ some v
value_eq (some w) v h = ap some (ground arith)
value_eq none v h = absurd (ground arith)

value-letter : (v : ℕ) → v < 32 → (value (letter v) ≡ some v) × ((letter v == b'=') ≡ false)
value-letter v h =
    let t =
      holds_below_at 32 (λ x. is_value (value (letter x)) x && not (letter x == b'=')) v letters
        h in
    (value_eq (value (letter v)) v (ground arith), ground arith)

abbrev pushed : ℕ → ℕ → ℕ
pushed acc v = acc * 32 % u16_mod + v

-- What the decoder does with a character that does not complete a byte, and with one that does.
hold :
    (acc bits v : ℕ) (cs : List ℕ)
    → v < 32
    → bits < 3
    → decode_from acc bits (letter v ∷ cs) ≡ decode_from (pushed acc v) (bits + 5) cs
unfolding decode_from
hold acc bits v cs h small =
    let (e, f) = value-letter v h in
    let few : leb 8 (bits + 5) ≡ false = ground arith in rw (f, e, few)

give :
    (acc bits v x : ℕ) (cs bytes : List ℕ)
    → v < 32
    → 3 ≤ bits
    → pushed acc v / 2 ^ (bits + 5 - 8) % 256 ≡ x
    → decode_from (pushed acc v) (bits + 5 - 8) cs ≡ ok bytes
    → decode_from acc bits (letter v ∷ cs) ≡ ok (x ∷ bytes)
unfolding decode_from
give acc bits v x cs bytes h many out more =
    let (e, f) = value-letter v h in
    let enough : leb 8 (bits + 5) ≡ true = ground arith in rw (f, e, enough, more, out)

-- The five states, by the bits that the encoder holds; `x` is the byte they belong to.
record Reads (bytes : List ℕ) : Type 0 where
  none_held : (ea da : ℕ) → decode_from da 0 (encode_from ea 0 bytes) ≡ ok bytes
  one_held :
      (ea da x : ℕ)
      → x < 256
      → ea % 2 ≡ x % 2
      → da % 128 ≡ x / 2
      → decode_from da 7 (encode_from ea 1 bytes) ≡ ok (x ∷ bytes)
  two_held :
      (ea da x : ℕ)
      → x < 256
      → ea % 4 ≡ x % 4
      → da % 64 ≡ x / 4
      → decode_from da 6 (encode_from ea 2 bytes) ≡ ok (x ∷ bytes)
  three_held :
      (ea da x : ℕ)
      → x < 256
      → ea % 8 ≡ x % 8
      → da % 32 ≡ x / 8
      → decode_from da 5 (encode_from ea 3 bytes) ≡ ok (x ∷ bytes)
  four_held :
      (ea da x : ℕ)
      → x < 256
      → ea % 16 ≡ x % 16
      → da % 16 ≡ x / 16
      → decode_from da 4 (encode_from ea 4 bytes) ≡ ok (x ∷ bytes)

ended : (acc bits : ℕ) → bits < 5 → acc % 2 ^ bits ≡ 0 → decode_from acc bits [] ≡ ok []
unfolding decode_from decode_end
ended acc bits few clear = let short : leb 5 bits ≡ false = ground arith in rw (short, clear)

Reads-nil : Reads []
unfolding encode_from
Reads-nil = record {
  none_held = λ ea da. ended da 0 (omega arith) (omega arith);
  one_held = λ ea da x small e d.
      let v = ea * 16 % u16_mod % 32 in
      give da 7 v x [] [] (omega arith) (omega arith) (omega arith)
        (ended (pushed da v) 4 (omega arith) (omega arith));
  two_held = λ ea da x small e d.
      let v = ea * 8 % u16_mod % 32 in
      give da 6 v x [] [] (omega arith) (omega arith) (omega arith)
        (ended (pushed da v) 3 (omega arith) (omega arith));
  three_held = λ ea da x small e d.
      let v = ea * 4 % u16_mod % 32 in
      give da 5 v x [] [] (omega arith) (omega arith) (omega arith)
        (ended (pushed da v) 2 (omega arith) (omega arith));
  four_held = λ ea da x small e d.
      let v = ea * 2 % u16_mod % 32 in
      give da 4 v x [] [] (omega arith) (omega arith) (omega arith)
        (ended (pushed da v) 1 (omega arith) (omega arith));
}

Reads-cons : (y : ℕ) (bytes : List ℕ) → y < 256 → Reads bytes → Reads (y ∷ bytes)
unfolding encode_from emitted
Reads-cons y bytes hy ih = record {
  none_held = λ ea da.
      let acc = ea * 256 % u16_mod + y in
      let v = acc / 8 % 32 in
      hold da 0 v (encode_from acc 3 bytes) (omega arith) (omega arith)
      ∙ ih.three_held acc (pushed da v) y hy (omega arith) (omega arith);
  one_held = λ ea da x small e d.
      let acc = ea * 256 % u16_mod + y in
      let v = acc / 16 % 32 in
      give da 7 v x (encode_from acc 4 bytes) (y ∷ bytes) (omega arith) (omega arith) (omega arith)
        (ih.four_held acc (pushed da v) y hy (omega arith) (omega arith));
  two_held = λ ea da x small e d.
      let acc = ea * 256 % u16_mod + y in
      let v = acc / 32 % 32 in
      let w = acc / 1 % 32 in
      give da 6 v x (letter w ∷ encode_from acc 0 bytes) (y ∷ bytes) (omega arith) (omega arith)
        (omega arith)
        (give (pushed da v) 3 w y (encode_from acc 0 bytes) bytes (omega arith) (omega arith)
          (omega arith) (ih.none_held acc (pushed (pushed da v) w)));
  three_held = λ ea da x small e d.
      let acc = ea * 256 % u16_mod + y in
      let v = acc / 64 % 32 in
      let w = acc / 2 % 32 in
      give da 5 v x (letter w ∷ encode_from acc 1 bytes) (y ∷ bytes) (omega arith) (omega arith)
        (omega arith)
        (hold (pushed da v) 2 w (encode_from acc 1 bytes) (omega arith) (omega arith)
          ∙ ih.one_held acc (pushed (pushed da v) w) y hy (omega arith) (omega arith));
  four_held = λ ea da x small e d.
      let acc = ea * 256 % u16_mod + y in
      let v = acc / 128 % 32 in
      let w = acc / 4 % 32 in
      give da 4 v x (letter w ∷ encode_from acc 2 bytes) (y ∷ bytes) (omega arith) (omega arith)
        (omega arith)
        (hold (pushed da v) 1 w (encode_from acc 2 bytes) (omega arith) (omega arith)
          ∙ ih.two_held acc (pushed (pushed da v) w) y hy (omega arith) (omega arith));
}

Reads-all : (bytes : List ℕ) → All (λ b. b < 256) bytes → Reads bytes
Reads-all [] h = Reads-nil
Reads-all (y ∷ bytes) (hy, h) = Reads-cons y bytes hy (Reads-all bytes h)

-- Bytes that are written in base32 are read back.
pub decode-encode : (bytes : List ℕ) → All (λ b. b < 256) bytes → decode (encode bytes) ≡ ok bytes
unfolding decode encode
decode-encode bytes h = (Reads-all bytes h).none_held 0 0
