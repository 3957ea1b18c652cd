-- ===== src/Encoding/Dates.antt =====
-- src/util.rs, `days_from_civil`, `parse_datetime` and `format_datetime`. Fields of a date cannot be
-- negative, since `-` separates them; those of a time can. The `i64` sums wrap, which is written out at
-- the end, since no division follows.
pub mod Roundtrip
mod Tests
use rust_tor_proxy.Prelude.{
  ℕ, ◌+◌, ◌-◌, ◌*◌, ◌/◌, ◌%◌, Bool, not, ◌&&◌, ◌||◌, Option, none, some, List, [], ◌∷◌, ◌++◌, ltb,
  leb, ◌==◌, if◌then◌else◌, Text, codes, split, parse_uint, digits_of, Result, ok, err,
  invalid_data, ℤ, pos, negsuc, neg, sub_ℕ, pos_part, ◌+ℤ◌, ◌-ℤ◌, mul_ℤ, div_ℤ, ltb_ℤ, as_u64,
}

abbrev pub i64_max : ℕ
i64_max = 9223372036854775807

abbrev is_nonneg : ℤ → Bool
is_nonneg (pos n) = Bool.true
is_nonneg (negsuc n) = Bool.false

-- `days_from_civil`
unfoldable pub days_from_civil : ℕ → ℕ → ℕ → ℤ
days_from_civil year month day =
    let y = if leb month 2 then sub_ℕ year 1 else pos year in
    let era = div_ℤ (if is_nonneg y then y else y -ℤ pos 399) 400 in
    let year_of_era = pos_part (y -ℤ mul_ℤ era 400) in
    let day_of_year = (153 * (if ltb 2 month then month - 3 else month + 9) + 2) / 5 + day - 1 in
    let day_of_era = year_of_era * 365 + year_of_era / 4 - year_of_era / 100 + day_of_year in
    mul_ℤ era 146097 +ℤ pos day_of_era -ℤ pos 719468

abbrev neg_of : Option ℕ → Option ℤ
neg_of none = none
neg_of (some n) = some (neg n)

abbrev pos_of : Option ℕ → Option ℤ
pos_of none = none
pos_of (some n) = some (pos n)

-- `s.parse::<i64>()`
unfoldable pub parse_int : Text → Option ℤ
parse_int [] = none
parse_int (c ∷ cs) =
    if c == b'-'
    then neg_of (digits_of 9223372036854775808 cs)
    else pos_of (parse_uint i64_max (c ∷ cs))

abbrev all_three {ℓ} : {A : Type ℓ} → Option A → Option A → Option A → Option (A × A × A)
all_three (some a) (some b) (some c) = some (a, b, c)
all_three none b c = none
all_three (some a) none c = none
all_three (some a) (some b) none = none

abbrev three_fields {ℓ} : {A : Type ℓ} → (Text → Option A) → List Text → Option (A × A × A)
three_fields parse (a ∷ b ∷ c ∷ []) = all_three (parse a) (parse b) (parse c)
three_fields parse fields = none

-- The checks of `parse_datetime` on a date and on a time.
unfoldable pub parse_date : Text → Option (ℕ × ℕ × ℕ)
parse_date date = elim (three_fields (parse_uint i64_max) (split b'-' date)) [
  | none ↦ none
  | some (year, month, day) ↦
      if leb 1 month && leb month 12 && (leb 1 day && leb day 31)
      then some (year, month, day)
      else none
]

unfoldable pub parse_time : Text → Option (ℤ × ℤ × ℤ)
parse_time time = elim (three_fields parse_int (split b':' time)) [
  | none ↦ none
  | some (hour, minute, second) ↦
      if ltb_ℤ (pos 23) hour || (ltb_ℤ (pos 59) minute || ltb_ℤ (pos 60) second)
      then none
      else some (hour, minute, second)
]

-- The seconds, as `u64::try_from` takes them.
unfoldable pub unix_seconds : ℕ × ℕ × ℕ → ℤ × ℤ × ℤ → Option ℕ
unix_seconds (year, month, day) (hour, minute, second) =
    let seconds = as_u64 (
      mul_ℤ (days_from_civil year month day) 86400
      +ℤ mul_ℤ hour 3600
      +ℤ mul_ℤ minute 60
      +ℤ second) in
    if leb seconds i64_max then some seconds else none

abbrev both_parsed : Option (ℕ × ℕ × ℕ) → Option (ℤ × ℤ × ℤ) → Option ℕ
both_parsed none time = none
both_parsed (some date) none = none
both_parsed (some date) (some time) = unix_seconds date time

abbrev or_bad : Option ℕ → Result ℕ
or_bad none = err (invalid_data "bad timestamp {date:?} {time:?}")
or_bad (some seconds) = ok seconds

-- `parse_datetime`
unfoldable pub parse_datetime : Text → Text → Result ℕ
parse_datetime date time = or_bad (both_parsed (parse_date date) (parse_time time))

-- `{:02}` of a number below 100, and `{:04}` of one below 10000.
unfoldable pub two_digits : ℕ → Text
two_digits n = (b'0' + n / 10) ∷ (b'0' + n % 10) ∷ []

unfoldable pub four_digits : ℕ → Text
four_digits n =
    (b'0' + n / 1000) ∷ (b'0' + n / 100 % 10) ∷ (b'0' + n / 10 % 10) ∷ (b'0' + n % 10) ∷ []

-- The date of `format_datetime`; nothing is negative there, for its argument is a `u64`.
unfoldable pub civil_from_days : ℕ → ℕ × ℕ × ℕ
civil_from_days days =
    let z = days + 719468 in
    let era = z / 146097 in
    let doe = z - era * 146097 in
    let yoe = (doe - doe / 1460 + doe / 36524 - doe / 146096) / 365 in
    let y = yoe + era * 400 in
    let doy = doe - (365 * yoe + yoe / 4 - yoe / 100) in
    let mp = (5 * doy + 2) / 153 in
    let d = doy - (153 * mp + 2) / 5 + 1 in
    let m = if ltb mp 10 then mp + 3 else mp - 9 in (if leb m 2 then y + 1 else y, m, d)

-- `format_datetime`: the date and the time, which a space joins.
unfoldable pub format_datetime : ℕ → Text × Text
format_datetime unix =
    let secs = unix % 86400 in
    let (y, m, d) = civil_from_days (unix / 86400) in
    (
      four_digits y ++ (b'-' ∷ (two_digits m ++ (b'-' ∷ two_digits d))),
      two_digits (secs / 3600)
          ++ (b':' ∷ (two_digits (secs % 3600 / 60) ++ (b':' ∷ two_digits (secs % 60)))),
    )
