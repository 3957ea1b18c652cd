-- ===== src/Prelude/Utf8.antt =====
-- `String::from_utf8`: the code points of well-formed UTF-8. `need` bytes of a character are still to
-- come, the next of them between `low` and `high`.
use Prim.Native.Nat.{ℕ, ◌+◌, ◌-◌, ◌*◌, ◌/◌, ◌%◌, ◌<◌}
use mathlib.Core.Path.{◌≡◌, refl}
use mathlib.Core.Bool.{Bool, ◌&&◌}
use mathlib.Core.Option.{Option, none, some}
use mathlib.Core.List.{List, [], ◌∷◌, ◌++◌}
use native.Mathlib.Omega.{arith}
use rust_tor_proxy.Prelude.Tests.{leb, ltb, ◌==◌, if◌then◌else◌}
use rust_tor_proxy.Prelude.Lists.{All}
use rust_tor_proxy.Prelude.Str.{Text}

record Utf8 : Type 0 where
  need : ℕ
  acc : ℕ
  low : ℕ
  high : ℕ

abbrev between : Utf8
between = record { need = 0; acc = 0; low = 0; high = 0 }

abbrev within : ℕ → ℕ → ℕ → Bool
within low high c = leb low c && leb c high

abbrev lead : ℕ → ℕ → ℕ → ℕ → Option (Utf8 × Option ℕ)
lead need acc low high = some (record { need = need; acc = acc; low = low; high = high }, none)

first_byte : ℕ → Option (Utf8 × Option ℕ)
first_byte c =
    if ltb c 0x80
    then some (between, some c)
    else if within 0xc2 0xdf c
    then lead 1 (c - 0xc0) 0x80 0xbf
    else if c == 0xe0
    then lead 2 0 0xa0 0xbf
    else if c == 0xed
    then lead 2 0xd 0x80 0x9f
    else if within 0xe1 0xef c
    then lead 2 (c - 0xe0) 0x80 0xbf
    else if c == 0xf0
    then lead 3 0 0x90 0xbf
    else if within 0xf1 0xf3 c
    then lead 3 (c - 0xf0) 0x80 0xbf
    else if c == 0xf4
    then lead 3 4 0x80 0x8f
    else none

next_byte : Utf8 → ℕ → Option (Utf8 × Option ℕ)
next_byte u c =
    let acc = u.acc * 64 + (c - 0x80) in
    if within u.low u.high c
    then (if u.need == 1 then some (between, some acc) else lead (u.need - 1) acc 0x80 0xbf)
    else none

abbrev emit : Option ℕ → Option Text → Option Text
emit o none = none
emit none (some s) = some s
emit (some c) (some s) = some (c ∷ s)

utf8_from : Utf8 → List ℕ → Option Text
unfolding first_byte next_byte
utf8_from u [] = if u.need == 0 then some [] else none
utf8_from u (c ∷ cs) = elim (if u.need == 0 then first_byte c else next_byte u c) [
  | none ↦ none
  | some (u', o) ↦ emit o (utf8_from u' cs)
]

-- `String::from_utf8`
unfoldable pub from_utf8 : List ℕ → Option Text
unfolding utf8_from
from_utf8 bytes = utf8_from between bytes

abbrev pub IsAscii : Text → Type 0
IsAscii s = All (λ c. c < 128) s

pub IsAscii-append : (s t : Text) → IsAscii s → IsAscii t → IsAscii (s ++ t)
IsAscii-append [] t h h' = h'
IsAscii-append (c ∷ s) t (small, h) h' = (small, IsAscii-append s t h h')

utf8_from-ascii : (s : List ℕ) → All (λ c. c < 128) s → utf8_from between s ≡ some s
unfolding utf8_from first_byte
utf8_from-ascii [] h = refl
utf8_from-ascii (c ∷ s) (small, h) = ground (arith, utf8_from-ascii s h)

-- ASCII is its own decoding.
pub from_utf8-ascii : (s : List ℕ) → All (λ c. c < 128) s → from_utf8 s ≡ some s
unfolding from_utf8
from_utf8-ascii s h = utf8_from-ascii s h

-- `str::as_bytes`
unfoldable pub as_bytes : Text → List ℕ
as_bytes [] = []
as_bytes (c ∷ cs) =
    if ltb c 0x80
    then c ∷ as_bytes cs
    else if ltb c 0x800
    then (0xc0 + c / 64) ∷ (0x80 + c % 64) ∷ as_bytes cs
    else if ltb c 0x10000
    then (0xe0 + c / 4096) ∷ (0x80 + c / 64 % 64) ∷ (0x80 + c % 64) ∷ as_bytes cs
    else (0xf0 + c / 262144)
      ∷ (0x80 + c / 4096 % 64)
      ∷ (0x80 + c / 64 % 64)
      ∷ (0x80 + c % 64)
      ∷ as_bytes cs
