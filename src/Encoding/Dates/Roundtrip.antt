-- ===== src/Encoding/Dates/Roundtrip.antt =====
-- The calendar is inverted.
use rust_tor_proxy.Prelude.{
  ℕ, ◌+◌, ◌-◌, ◌*◌, ◌/◌, ◌%◌, ◌<◌, ◌≤◌, ◌≡◌, arith, leb, ltb, if◌then◌else◌, true, ◌∙◌, pos, sub_ℕ,
  pos_part, ◌+ℤ◌, ◌-ℤ◌,
}
use rust_tor_proxy.Encoding.Dates.{civil_from_days, days_from_civil}

abbrev yoe_of : ℕ → ℕ
yoe_of doe = (doe - doe / 1460 + doe / 36524 - doe / 146096) / 365

yoe_bound : (doe : ℕ) → doe < 146097 → yoe_of doe < 400
yoe_bound doe h = omega arith

yoe_start : (doe : ℕ) → doe < 146097 → let y = yoe_of doe in 365 * y + y / 4 - y / 100 ≤ doe
yoe_start doe h = omega arith

yoe_end : (doe : ℕ) → doe < 146097 → let y = yoe_of doe in doe ≤ 365 * y + y / 4 - y / 100 + 365
yoe_end doe h = omega arith

doy_bound : (doy : ℕ) → doy ≤ 365 → (5 * doy + 2) / 153 ≤ 11
doy_bound doy h = omega arith

doy_start : (doy : ℕ) → (153 * ((5 * doy + 2) / 153) + 2) / 5 ≤ doy
doy_start doy = omega arith

-- A count of years from March, and of months from March, as `days_from_civil` finds them.
days_of_march :
    (year month day y₀ mp : ℕ)
    → (if leb month 2 then sub_ℕ year 1 else pos year) ≡ pos y₀
    → (if ltb 2 month then month - 3 else month + 9) ≡ mp
    → days_from_civil year month day
      ≡ pos (y₀ / 400 * 146097)
        +ℤ pos (y₀ % 400 * 365 + y₀ % 400 / 4 - y₀ % 400 / 100 + ((153 * mp + 2) / 5 + day - 1))
        -ℤ pos 719468
unfolding days_from_civil
days_of_march year month day y₀ mp ey em =
    let yoe : pos_part (pos y₀ -ℤ pos (y₀ / 400 * 400)) ≡ y₀ % 400 = ground arith in
    rw (ey, em, yoe)

sub_ℕ-pos : (a b c : ℕ) → a ≡ c + b → sub_ℕ a b ≡ pos c
sub_ℕ-pos a b c h =
    let difference : a - b ≡ c = omega arith in
    let larger : leb b a ≡ true = ground arith in rw (larger, difference)

add_then_sub : (a b days : ℕ) → a + b ≡ days + 719468 → pos a +ℤ pos b -ℤ pos 719468 ≡ pos days
add_then_sub a b days h =
    let first = sub_ℕ-pos (a + b) 0 (a + b) (omega arith) in
    rw first (sub_ℕ-pos (a + b + 0) 719468 days (omega arith))

-- The sum of the parts of a date of the March calendar.
march_sum :
    (era yoe doy mp days : ℕ)
    → yoe < 400
    → era * 146097 + (365 * yoe + yoe / 4 - yoe / 100 + doy) ≡ days + 719468
    → (153 * mp + 2) / 5 ≤ doy
    → let y₀ = yoe + era * 400 in
      let day = doy - (153 * mp + 2) / 5 + 1 in
      pos (y₀ / 400 * 146097)
        +ℤ pos (y₀ % 400 * 365 + y₀ % 400 / 4 - y₀ % 400 / 100 + ((153 * mp + 2) / 5 + day - 1))
        -ℤ pos 719468
      ≡ pos days
march_sum era yoe doy mp days small total start =
    let quotient : (yoe + era * 400) / 400 ≡ era = omega arith in
    let rest : (yoe + era * 400) % 400 ≡ yoe = omega arith in
    let day : (153 * mp + 2) / 5 + (doy - (153 * mp + 2) / 5 + 1) - 1 ≡ doy = omega arith in
    rw (quotient, rest, day)
      (add_then_sub (era * 146097) (yoe * 365 + yoe / 4 - yoe / 100 + doy) days (omega arith))

-- The date of a day of the March calendar has that day's number, before January and after it.
from_march :
    (era yoe doy mp days : ℕ)
    → yoe < 400
    → era * 146097 + (365 * yoe + yoe / 4 - yoe / 100 + doy) ≡ days + 719468
    → (153 * mp + 2) / 5 ≤ doy
    → mp ≤ 11
    → let month = if ltb mp 10 then mp + 3 else mp - 9 in
      days_from_civil
        (if leb month 2 then yoe + era * 400 + 1 else yoe + era * 400)
        month
        (doy - (153 * mp + 2) / 5 + 1)
      ≡ pos days
from_march era yoe doy mp days small total start months =
    let month = if ltb mp 10 then mp + 3 else mp - 9 in
    let y₀ = yoe + era * 400 in
    let year = if leb month 2 then y₀ + 1 else y₀ in
    days_of_march year month (doy - (153 * mp + 2) / 5 + 1) y₀ mp (ground arith) (ground arith)
    ∙ march_sum era yoe doy mp days small total start

parts_of :
    (z era start : ℕ)
    → era * 146097 ≤ z
    → start ≤ z - era * 146097
    → era * 146097 + (start + (z - era * 146097 - start)) ≡ z
parts_of z era start h h' = omega arith

rest_le : (a b c : ℕ) → a ≤ b + c → a - b ≤ c
rest_le a b c h = omega arith

-- The day number of a date that was made from a day number is that number.
pub days_from_civil-civil_from_days :
    (days : ℕ) → let (y, m, d) = civil_from_days days in days_from_civil y m d ≡ pos days
unfolding civil_from_days
days_from_civil-civil_from_days days =
    let z = days + 719468 in
    let era = z / 146097 in
    let doe = z - era * 146097 in
    let yoe = yoe_of doe in
    let doy = doe - (365 * yoe + yoe / 4 - yoe / 100) in
    let small : doe < 146097 = omega arith in
    let first = yoe_start doe small in
    let last = yoe_end doe small in
    from_march era yoe doy ((5 * doy + 2) / 153) days (yoe_bound doe small)
      (parts_of z era (365 * yoe + yoe / 4 - yoe / 100) (omega arith) first) (doy_start doy)
      (doy_bound doy (rest_le doe (365 * yoe + yoe / 4 - yoe / 100) 365 last))
