-- ===== src/Cell/Bytes.antt =====
-- `to_be_bytes` and `from_be_bytes` of `u16` and `u32`.
use rust_tor_proxy.Prelude.{ℕ, ◌+◌, ◌*◌, ◌/◌, ◌%◌, ◌<◌, ◌≡◌, List, [], ◌∷◌, arith}

unfoldable pub be16 : ℕ → List ℕ
be16 n = (n / 256 % 256) ∷ (n % 256) ∷ []

unfoldable pub be32 : ℕ → List ℕ
be32 n = (n / 16777216 % 256) ∷ (n / 65536 % 256) ∷ (n / 256 % 256) ∷ (n % 256) ∷ []

unfoldable pub u16_of : ℕ → ℕ → ℕ
u16_of a b = a * 256 + b

unfoldable pub u32_of : ℕ → ℕ → ℕ → ℕ → ℕ
u32_of a b c d = a * 16777216 + b * 65536 + c * 256 + d

pub u16_of-be16 : (n : ℕ) → n < 65536 → u16_of (n / 256 % 256) (n % 256) ≡ n
unfolding u16_of
u16_of-be16 n h = omega arith

pub u32_of-be32 :
    (n : ℕ)
    → n < 4294967296
    → u32_of (n / 16777216 % 256) (n / 65536 % 256) (n / 256 % 256) (n % 256) ≡ n
unfolding u32_of
u32_of-be32 n h = omega arith
