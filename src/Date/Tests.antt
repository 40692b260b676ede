-- ===== src/Date/Tests.antt =====
-- Tests of `Date`, and its theorems at concrete inputs.
use rfcs.Common.{some, ◌>>=◌, ℕ, ◌≡◌, refl, arith}
use rfcs.Common.Int.{pos, ◌+ℤ◌, ◌-ℤ◌, ◌*ℤ◌, quot, rem, add_int, sub_int, mul_int}
use rfcs.Date.{get_julian_day_number, get_year_month_day, of_ymd, week_day}
use rfcs.Date.Calendar.{IsValid}
use rfcs.Date.RoundTrip.{year_month_day-julian, date_of, IsDateOf}

leap_day-IsValid : IsValid 2000 2 29
leap_day-IsValid = omega arith

-- 29 February 2000 was a Tuesday.
leap_day_week : (of_ymd (pos 2000) (pos 2) (pos 29) >>= week_day) ≡ some (pos 2)
unfolding week_day of_ymd get_julian_day_number add_int sub_int mul_int ◌+ℤ◌ ◌-ℤ◌ ◌*ℤ◌ quot rem
leap_day_week = refl

year_month_day-julian_example :
    (get_julian_day_number (pos 2000) (pos 2) (pos 29) >>= get_year_month_day)
    ≡ some (record { year = pos 2000; month = pos 2; day = pos 29 })
year_month_day-julian_example = year_month_day-julian 2000 2 29 leap_day-IsValid (omega arith)

date_of_example : (y m d : ℕ) × IsDateOf 2451604 y m d
date_of_example = date_of 2451604 (omega arith) (omega arith)
