-- ===== src/Date.antt =====
-- muduo/base/Date.cc and Date.h: Gregorian dates as Julian day numbers. The arithmetic is that of
-- `int`, and `none` is an overflow, which C++ does not define.
pub mod Numbers
pub mod Calendar
pub mod RoundTrip
mod Tests
use rfcs.Common.{ℕ, ◌+◌, Bool, Option, some, none, ◌>>=◌}
use rfcs.Common.Int.{ℤ, pos, ◌+ℤ◌, ◌-ℤ◌, ◌*ℤ◌, quot, rem, ltb_ℤ, add_int, sub_int, mul_int}

pub record YearMonthDay : Type 0 where
  pub year : ℤ
  pub month : ℤ
  pub day : ℤ

pub record Date : Type 0 where
  pub julian_day_number : ℤ

unfoldable pub get_julian_day_number : ℤ → ℤ → ℤ → Option ℤ
get_julian_day_number year month day = do
  rest ← sub_int (pos 14) month
  let a = quot rest 12
  y ← add_int year (pos 4800)
  y ← sub_int y a
  months ← mul_int (pos 12) a
  m ← add_int month months
  m ← sub_int m (pos 3)
  days ← mul_int (pos 153) m
  days ← add_int days (pos 2)
  number ← add_int day (quot days 5)
  days ← mul_int y (pos 365)
  number ← add_int number days
  number ← add_int number (quot y 4)
  number ← sub_int number (quot y 100)
  number ← add_int number (quot y 400)
  sub_int number (pos 32045)

unfoldable pub get_year_month_day : ℤ → Option YearMonthDay
get_year_month_day julian_day_number = do
  a ← add_int julian_day_number (pos 32044)
  t ← mul_int (pos 4) a
  t ← add_int t (pos 3)
  let b = quot t 146097
  t ← mul_int b (pos 146097)
  c ← sub_int a (quot t 4)
  t ← mul_int (pos 4) c
  t ← add_int t (pos 3)
  let d = quot t 1461
  t ← mul_int (pos 1461) d
  e ← sub_int c (quot t 4)
  t ← mul_int (pos 5) e
  t ← add_int t (pos 2)
  let m = quot t 153
  t ← mul_int (pos 153) m
  t ← add_int t (pos 2)
  day ← sub_int e (quot t 5)
  day ← add_int day (pos 1)
  month ← add_int m (pos 3)
  t ← mul_int (pos 12) (quot m 10)
  month ← sub_int month t
  t ← mul_int b (pos 100)
  year ← add_int t d
  year ← sub_int year (pos 4800)
  year ← add_int year (quot m 10)
  some (record { year = year; month = month; day = day })

-- The constructors from a calendar date, from a `struct tm`, and from nothing.
unfoldable pub of_ymd : ℤ → ℤ → ℤ → Option Date
of_ymd y m d = do number ← get_julian_day_number y m d; some (record { julian_day_number = number })

unfoldable pub of_tm : ℤ → ℤ → ℤ → Option Date
of_tm tm_year tm_mon tm_mday = do
  year ← add_int tm_year (pos 1900)
  month ← add_int tm_mon (pos 1)
  of_ymd year month tm_mday

abbrev pub invalid : Date
invalid = record { julian_day_number = pos 0 }

unfoldable pub valid : Date → Bool
valid d = ltb_ℤ (pos 0) d.julian_day_number

unfoldable pub year_month_day : Date → Option YearMonthDay
year_month_day d = get_year_month_day d.julian_day_number

-- 0 is Sunday.
unfoldable pub week_day : Date → Option ℤ
week_day d = do number ← add_int d.julian_day_number (pos 1); some (rem number 7)

-- `operator<`
unfoldable pub before : Date → Date → Bool
before x y = ltb_ℤ x.julian_day_number y.julian_day_number

unfoldable pub julian_day_of_1970_01_01 : Option ℤ
julian_day_of_1970_01_01 = get_julian_day_number (pos 1970) (pos 1) (pos 1)
