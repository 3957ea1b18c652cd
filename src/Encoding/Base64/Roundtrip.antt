-- ===== src/Encoding/Base64/Roundtrip.antt =====
-- What `base64_encode_unpadded` writes, `base64_decode` reads back.
use rust_tor_proxy.Prelude.{
  ℕ, ◌+◌, ◌*◌, ◌/◌, ◌%◌, ◌<◌, ◌≡◌, refl, ap, Bool, true, false, ◌==◌, List, [], ◌∷◌, ok, arith, All,
  holds_below, holds_below_at, u32_mod,
}
use rust_tor_proxy.Encoding.Base64.{
  Mark, stop, skip, bad, digit, mark, letter, decode_end, decode_from, base64_decode,
  base64_encode_unpadded,
}

abbrev is_digit_mark : Mark → ℕ → Bool
is_digit_mark (digit w) v = w == v
is_digit_mark stop v = false
is_digit_mark skip v = false
is_digit_mark bad v = false

letters : holds_below 64 (λ v. is_digit_mark (mark (letter v)) v) ≡ true
unfolding mark
letters = refl

mark_eq : (m : Mark) (v : ℕ) → is_digit_mark m v ≡ true → m ≡ digit v
mark_eq (digit w) v h = ap digit (ground arith)
mark_eq stop v h = absurd (ground arith)
mark_eq skip v h = absurd (ground arith)
mark_eq bad v h = absurd (ground arith)

mark-letter : (v : ℕ) → v < 64 → mark (letter v) ≡ digit v
mark-letter v h =
    mark_eq (mark (letter v)) v
      (holds_below_at 64 (λ x. is_digit_mark (mark (letter x)) x) v letters h)

-- What the accumulator has of its last bits after a character.
abbrev pushed : ℕ → ℕ → ℕ
pushed acc v = acc * 64 % u32_mod + v

pushed-mod6 : (acc v : ℕ) → v < 64 → pushed acc v % 64 ≡ v
pushed-mod6 acc v h = omega arith

pushed-mod8 : (acc v : ℕ) → v < 64 → pushed acc v % 256 ≡ acc % 4 * 64 + v
pushed-mod8 acc v h = omega arith

pushed-mod10 : (acc v : ℕ) → v < 64 → pushed acc v % 1024 ≡ acc % 16 * 64 + v
pushed-mod10 acc v h = omega arith

pushed-mod12 : (acc v : ℕ) → v < 64 → pushed acc v % 4096 ≡ acc % 64 * 64 + v
pushed-mod12 acc v h = omega arith

-- The accumulators after each character of a group, and the bytes that they complete.
group_bytes :
    (acc a b c v₁ v₂ v₃ v₄ : ℕ)
    → a < 256
    → b < 256
    → c < 256
    → v₁ ≡ a / 4
    → v₂ ≡ a % 4 * 16 + b / 16
    → v₃ ≡ b % 16 * 4 + c / 64
    → v₄ ≡ c % 64
    → (pushed (pushed acc v₁) v₂ / 16 % 256 ≡ a)
      × (pushed (pushed (pushed acc v₁) v₂) v₃ / 4 % 256 ≡ b)
      × (pushed (pushed (pushed (pushed acc v₁) v₂) v₃) v₄ % 256 ≡ c)
      × (pushed (pushed acc v₁) v₂ % 16 ≡ b / 16)
      × (pushed (pushed (pushed acc v₁) v₂) v₃ % 4 ≡ c / 64)
group_bytes acc a b c v₁ v₂ v₃ v₄ ha hb hc e₁ e₂ e₃ e₄ =
    let acc₁ = pushed acc v₁ in
    let acc₂ = pushed acc₁ v₂ in
    let acc₃ = pushed acc₂ v₃ in
    let m₁ : acc₁ % 64 ≡ v₁ = pushed-mod6 acc v₁ (omega arith) in
    let m₂ : acc₂ % 4096 ≡ acc₁ % 64 * 64 + v₂ = pushed-mod12 acc₁ v₂ (omega arith) in
    let m₃ : acc₃ % 1024 ≡ acc₂ % 16 * 64 + v₃ = pushed-mod10 acc₂ v₃ (omega arith) in
    let m₄ : pushed acc₃ v₄ % 256 ≡ acc₃ % 4 * 64 + v₄ = pushed-mod8 acc₃ v₄ (omega arith) in
    let k₂ : acc₂ % 16 ≡ b / 16 = omega (arith, m₁, m₂) in
    let k₃ : acc₃ % 4 ≡ c / 64 = omega (arith, k₂, m₃) in
    (omega (arith, m₁, m₂), omega (arith, k₂, m₃), omega (arith, k₃, m₄), k₂, k₃)

decode_from-encode :
    (acc : ℕ) (bytes : List ℕ)
    → All (λ b. b < 256) bytes
    → decode_from acc 0 (base64_encode_unpadded bytes) ≡ ok bytes
unfolding decode_from base64_encode_unpadded decode_end
decode_from-encode acc [] h = ground arith
decode_from-encode acc (a ∷ []) (ha, h) =
    let v₁ = a * 65536 / 262144 % 64 in
    let v₂ = a * 65536 / 4096 % 64 in
    let (x, y, z, left, q) =
      group_bytes acc a 0 0 v₁ v₂ 0 0 ha (omega arith) (omega arith) (omega arith) (omega arith)
        refl refl in
    let clear : (pushed (pushed acc v₁) v₂ % 16 == 0) ≡ true = ground (arith, left) in
    rw (mark-letter v₁ (omega arith), mark-letter v₂ (omega arith), x, clear)
decode_from-encode acc (a ∷ b ∷ []) (ha, (hb, h)) =
    let n = a * 65536 + b * 256 in
    let v₁ = n / 262144 % 64 in
    let v₂ = n / 4096 % 64 in
    let v₃ = n / 64 % 64 in
    let (x, y, z, p, left) =
      group_bytes acc a b 0 v₁ v₂ v₃ 0 ha hb (omega arith) (omega arith) (omega arith) (omega arith)
        refl in
    let clear : (pushed (pushed (pushed acc v₁) v₂) v₃ % 4 == 0) ≡ true = ground (arith, left) in
    rw (
      mark-letter v₁ (omega arith),
      mark-letter v₂ (omega arith),
      mark-letter v₃ (omega arith),
      x,
      y,
      clear,
    )
decode_from-encode acc (a ∷ b ∷ c ∷ rest) (ha, (hb, (hc, h))) =
    let n = a * 65536 + b * 256 + c in
    let v₁ = n / 262144 % 64 in
    let v₂ = n / 4096 % 64 in
    let v₃ = n / 64 % 64 in
    let v₄ = n % 64 in
    let (x, y, z, p, q) =
      group_bytes acc a b c v₁ v₂ v₃ v₄ ha hb hc (omega arith) (omega arith) (omega arith)
        (omega arith) in
    let more = decode_from-encode (pushed (pushed (pushed (pushed acc v₁) v₂) v₃) v₄) rest h in
    let z' : pushed (pushed (pushed (pushed acc v₁) v₂) v₃) v₄ / 1 % 256 ≡ c = omega (arith, z) in
    rw (
      mark-letter v₁ (omega arith),
      mark-letter v₂ (omega arith),
      mark-letter v₃ (omega arith),
      mark-letter v₄ (omega arith),
      more,
      x,
      y,
      z',
    )

-- Bytes that are written in base64 are read back.
pub base64_decode-base64_encode_unpadded :
    (bytes : List ℕ)
    → All (λ b. b < 256) bytes
    → base64_decode (base64_encode_unpadded bytes) ≡ ok bytes
unfolding base64_decode
base64_decode-base64_encode_unpadded bytes h = decode_from-encode 0 bytes h
