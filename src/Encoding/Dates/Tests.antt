-- ===== src/Encoding/Dates/Tests.antt =====
-- Runs of the calendar.
use rust_tor_proxy.Prelude.{
  pos, ◌≡◌, refl, codes, ok, split, parse_uint, digits_of, digits_from, is_digit,
}
use rust_tor_proxy.Encoding.Dates.Roundtrip.{days_from_civil-civil_from_days}
use rust_tor_proxy.Encoding.Dates.{
  parse_datetime, parse_date, parse_time, parse_int, unix_seconds, days_from_civil, civil_from_days,
  format_datetime, two_digits, four_digits,
}

parse_2026 : parse_datetime (codes "2026-09-02") (codes "12:34:56") ≡ ok 1788352496
unfolding parse_datetime parse_date parse_time parse_int unix_seconds days_from_civil split
    parse_uint digits_of digits_from is_digit
parse_2026 = refl

format_2026 : format_datetime 1788352496 ≡ (codes "2026-09-02", codes "12:34:56")
unfolding format_datetime civil_from_days two_digits four_digits
format_2026 = refl

-- A negative hour is taken.
parse_negative_hour : parse_datetime (codes "2026-09-02") (codes "-5:00:00") ≡ ok 1788289200
unfolding parse_datetime parse_date parse_time parse_int unix_seconds days_from_civil split
    parse_uint digits_of digits_from is_digit
parse_negative_hour = refl

days_from_civil-civil_from_days_example :
    (let (y, m, d) = civil_from_days 20698 in days_from_civil y m d) ≡ pos 20698
days_from_civil-civil_from_days_example = days_from_civil-civil_from_days 20698
