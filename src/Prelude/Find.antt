-- ===== src/Prelude/Find.antt =====
-- More of `str`: searching, trimming and lines.
use Prim.Native.Nat.{ℕ, suc, ◌+◌}
use mathlib.Core.Bool.{Bool, true, false, ◌&&◌}
use mathlib.Core.Option.{Option, none, some}
use mathlib.Core.List.{List, [], ◌∷◌, reverse}
use rust_tor_proxy.Prelude.Tests.{leb, ◌==◌, if◌then◌else◌}
use rust_tor_proxy.Prelude.Str.{Text, split, is_whitespace}

-- `s.starts_with(prefix)`
unfoldable pub starts_with : Text → Text → Bool
starts_with [] s = true
starts_with (p ∷ ps) [] = false
starts_with (p ∷ ps) (c ∷ cs) = p == c && starts_with ps cs

abbrev one_later : Option ℕ → Option ℕ
one_later none = none
one_later (some i) = some (suc i)

-- `s.find(pattern)`
unfoldable pub find : Text → Text → Option ℕ
unfolding starts_with
find pattern [] = if starts_with pattern [] then some 0 else none
find pattern (c ∷ cs) =
    let later = one_later (find pattern cs) in
    if starts_with pattern (c ∷ cs) then some 0 else later

unfoldable pub skip_whitespace : Text → Text
unfolding is_whitespace
skip_whitespace [] = []
skip_whitespace (c ∷ cs) = if is_whitespace c then skip_whitespace cs else c ∷ cs

-- `s.trim_end()` and `s.trim()`
unfoldable pub trim_end : Text → Text
unfolding skip_whitespace
trim_end s = reverse (skip_whitespace (reverse s))

unfoldable pub trim : Text → Text
unfolding trim_end
trim s = skip_whitespace (trim_end s)

abbrev strip_cr_reversed : Text → Text
strip_cr_reversed [] = []
strip_cr_reversed (c ∷ cs) = if c == 13 then reverse cs else reverse (c ∷ cs)

-- Fields between newlines as lines: all but the last were ended by one.
unfoldable pub close_lines : List Text → List Text
close_lines [] = []
close_lines ([] ∷ []) = []
close_lines ((c ∷ cs) ∷ []) = (c ∷ cs) ∷ []
close_lines (f ∷ g ∷ fs) = strip_cr_reversed (reverse f) ∷ close_lines (g ∷ fs)

-- `s.lines()`
unfoldable pub lines : Text → List Text
unfolding close_lines split
lines s = close_lines (split 10 s)

abbrev lower : ℕ → ℕ
lower c = if leb b'A' c && leb c b'Z' then c + 32 else c

-- `s.eq_ignore_ascii_case(t)`
unfoldable pub eq_ignore_ascii_case : Text → Text → Bool
eq_ignore_ascii_case [] [] = true
eq_ignore_ascii_case [] (y ∷ ys) = false
eq_ignore_ascii_case (x ∷ xs) [] = false
eq_ignore_ascii_case (x ∷ xs) (y ∷ ys) = lower x == lower y && eq_ignore_ascii_case xs ys
