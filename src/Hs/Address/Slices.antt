-- ===== src/Hs/Address/Slices.antt =====
-- src/tor/hs/address.rs: a slice of ASCII is never refused.
use rust_tor_proxy.Prelude.{
  ℕ, zero, suc, ◌-◌, ◌<◌, ◌≤◌, ◌≡◌, refl, ap, arith, true, false, some, [], ◌∷◌, length, IsAscii,
  Text, as_bytes, ltb, leb, ◌==◌, take, drop,
}
use rust_tor_proxy.Hs.Address.{slice_from, slice_to, byte_length, char_width, cons_some}

char_width-ascii : (c : ℕ) → c < 128 → char_width c ≡ 1
unfolding as_bytes
char_width-ascii c h = ground arith

pub byte_length-ascii : (s : Text) → IsAscii s → byte_length s ≡ length s
unfolding as_bytes
byte_length-ascii [] h = refl
byte_length-ascii (c ∷ s) (small, h) =
    let one : ltb c 128 ≡ true = ground arith in rw one (ap suc (byte_length-ascii s h))

pub slice_from-ascii :
    (s : Text) (n : ℕ) → IsAscii s → n ≤ length s → slice_from s n ≡ some (drop n s)
unfolding slice_from
slice_from-ascii [] zero h le = refl
slice_from-ascii [] (suc n) h le = absurd (ground arith)
slice_from-ascii (c ∷ s) zero h le = refl
slice_from-ascii (c ∷ s) (suc n) (small, h) le =
    let width = char_width-ascii c small in
    let started : (suc n == 0) ≡ false = ground arith in
    let wide : leb 1 (suc n) ≡ true = ground arith in
    let left : suc n - 1 ≡ n = omega arith in
    let ih = slice_from-ascii s n h (omega arith) in rw (started, width, wide, left) ih

pub slice_to-ascii : (s : Text) (n : ℕ) → IsAscii s → n ≤ length s → slice_to s n ≡ some (take n s)
unfolding slice_to
slice_to-ascii [] zero h le = refl
slice_to-ascii [] (suc n) h le = absurd (ground arith)
slice_to-ascii (c ∷ s) zero h le = refl
slice_to-ascii (c ∷ s) (suc n) (small, h) le =
    let width = char_width-ascii c small in
    let started : (suc n == 0) ≡ false = ground arith in
    let wide : leb 1 (suc n) ≡ true = ground arith in
    let left : suc n - 1 ≡ n = omega arith in
    let ih = slice_to-ascii s n h (omega arith) in
    rw (started, width, wide, left) (ap (λ o. cons_some c o) ih)
