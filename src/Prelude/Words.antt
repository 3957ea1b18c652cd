-- ===== src/Prelude/Words.antt =====
-- Rust's unsigned integers as natural numbers: the largest values, the operations that saturate,
-- and the bounds of a division that the components share. Plain `+` of a release build wraps, and
-- is written out as `% 2 ^ w` where it stands.
use Prim.Native.Nat.{ℕ, ◌+◌, ◌*◌, ◌/◌, ◌≤◌, ◌<◌, min}
use native.Mathlib.Omega.{arith}
use native.Mathlib.Nat.{le-div_iff_mul-le, div-lt_iff_lt-mul}

abbrev pub u8_max : ℕ
u8_max = 255

abbrev pub u16_mod : ℕ
u16_mod = 65536

abbrev pub u32_max : ℕ
u32_max = 4294967295

abbrev pub u32_mod : ℕ
u32_mod = 4294967296

abbrev pub u64_max : ℕ
u64_max = 18446744073709551615

abbrev pub u64_mod : ℕ
u64_mod = 18446744073709551616

-- `saturating_add` and `saturating_mul` of `u32` and `u64`; `saturating_sub` is `-` on ℕ.
abbrev pub sat_add32 : ℕ → ℕ → ℕ
sat_add32 a b = min (a + b) u32_max

abbrev pub sat_add64 : ℕ → ℕ → ℕ
sat_add64 a b = min (a + b) u64_max

abbrev pub sat_mul64 : ℕ → ℕ → ℕ
sat_mul64 a b = min (a * b) u64_max

pub div-le_of_le_mul : (x k d : ℕ) → 0 < d → x ≤ k * d → x / d ≤ k
div-le_of_le_mul x k d pos h = grind (arith, (div-lt_iff_lt-mul {k = d} {x = x} {y = k + 1} pos).1)

pub le-div_of_mul_le : (x k d : ℕ) → 0 < d → k * d ≤ x → k ≤ x / d
le-div_of_mul_le x k d pos h = (le-div_iff_mul-le {k = d} {x = k} {y = x} pos).1 h
