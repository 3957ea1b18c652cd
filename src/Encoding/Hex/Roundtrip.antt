-- ===== src/Encoding/Hex/Roundtrip.antt =====
-- src/util.rs: what `hex_encode` writes, `hex_decode` reads back.
use rust_tor_proxy.Prelude.{
  ℕ, zero, suc, ◌/◌, ◌%◌, ◌<◌, ◌≤◌, ◌≡◌, refl, ap, List, [], ◌∷◌, get_or, length, ◌==◌, true, All,
  ok, arith, u8_max,
}
use rust_tor_proxy.Encoding.Hex.{hex_digits, hex_encode, nibble, hex_pairs, hex_decode}

nibble-digit : (n : ℕ) → n < 16 → nibble (get_or hex_digits n 0) ≡ ok n
unfolding nibble
nibble-digit zero h = refl
nibble-digit (suc zero) h = refl
nibble-digit (suc (suc zero)) h = refl
nibble-digit (suc (suc (suc zero))) h = refl
nibble-digit (suc (suc (suc (suc zero)))) h = refl
nibble-digit (suc (suc (suc (suc (suc zero))))) h = refl
nibble-digit (suc (suc (suc (suc (suc (suc zero)))))) h = refl
nibble-digit (suc (suc (suc (suc (suc (suc (suc zero))))))) h = refl
nibble-digit (suc (suc (suc (suc (suc (suc (suc (suc zero)))))))) h = refl
nibble-digit (suc (suc (suc (suc (suc (suc (suc (suc (suc zero))))))))) h = refl
nibble-digit (suc (suc (suc (suc (suc (suc (suc (suc (suc (suc zero)))))))))) h = refl
nibble-digit (suc (suc (suc (suc (suc (suc (suc (suc (suc (suc (suc zero))))))))))) h = refl
nibble-digit (suc (suc (suc (suc (suc (suc (suc (suc (suc (suc (suc (suc zero)))))))))))) h = refl
nibble-digit (suc (suc (suc (suc (suc (suc (suc (suc (suc (suc (suc (suc (suc zero))))))))))))) h =
    refl
nibble-digit
      (suc (suc (suc (suc (suc (suc (suc (suc (suc (suc (suc (suc (suc (suc zero)))))))))))))) h =
    refl
nibble-digit
      (suc (suc (suc (suc (suc (suc (suc (suc (suc (suc (suc (suc (suc (suc (suc zero)))))))))))))))
      h =
    refl
nibble-digit
      (suc
        (suc (suc (suc (suc (suc (suc (suc (suc (suc (suc (suc (suc (suc (suc (suc n))))))))))))))))
      h =
    absurd (omega arith)

hex_pairs-hex_encode :
    (bytes : List ℕ) → All (λ b. b ≤ u8_max) bytes → hex_pairs (hex_encode bytes) ≡ ok bytes
unfolding hex_pairs hex_encode
hex_pairs-hex_encode [] h = refl
hex_pairs-hex_encode (b ∷ bytes) (small, h) =
    let high : nibble (get_or hex_digits (b / 16) 0) ≡ ok (b / 16) =
      nibble-digit (b / 16) (omega arith) in
    let low : nibble (get_or hex_digits (b % 16) 0) ≡ ok (b % 16) =
      nibble-digit (b % 16) (omega arith) in
    rw (high, low, hex_pairs-hex_encode bytes h) (ap (λ x. ok (x ∷ bytes)) (omega arith))

length-hex_encode : (bytes : List ℕ) → length (hex_encode bytes) % 2 ≡ 0
unfolding hex_encode
length-hex_encode [] = refl
length-hex_encode (b ∷ bytes) = omega (arith, length-hex_encode bytes)

-- Bytes that are written in hexadecimal are read back.
pub hex_decode-hex_encode :
    (bytes : List ℕ) → All (λ b. b ≤ u8_max) bytes → hex_decode (hex_encode bytes) ≡ ok bytes
unfolding hex_decode
hex_decode-hex_encode bytes h =
    let even : (length (hex_encode bytes) % 2 == 0) ≡ true =
      ground (arith, length-hex_encode bytes) in
    rw even (hex_pairs-hex_encode bytes h)
