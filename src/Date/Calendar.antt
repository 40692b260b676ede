-- ===== src/Date/Calendar.antt =====
-- The Gregorian calendar, stated by its leap rule and the lengths of its months.
use rfcs.Common.{
  ℕ, ◌+◌, ◌-◌, ◌%◌, ◌≤◌, ◌≡◌, ◌≢◌, ◌⊎◌, Bool, ◌&&◌, ◌||◌, not, arith, ◌==◌, if◌then◌else◌,
}
use rfcs.Date.Numbers.{march_year, march_month, month_start, month_of_year}

abbrev pub is_leap : ℕ → Bool
is_leap y = (y % 4 == 0) && (not (y % 100 == 0) || (y % 400 == 0))

-- February, then the four short months.
abbrev pub days_in_month : ℕ → ℕ → ℕ
days_in_month year month =
    let february = if is_leap year then 29 else 28 in
    let short = (month == 11) || (month == 9) || (month == 6) || (month == 4) in
    if short then 30 else if month == 2 then february else 31

pub record IsValid (year month day : ℕ) : Type 0 where
  pub month_in : (1 ≤ month) × (month ≤ 12)
  pub day_in : (1 ≤ day) × (day ≤ days_in_month year month)

-- A year that begins in March and ends with a 29 February.
abbrev pub IsLong : ℕ → Type 0
IsLong y = (y % 4 ≡ 3) × ((y % 100 ≢ 99) ⊎ (y % 400 ≡ 399))

-- The position of a date in its year, counted from 0 on 1 March.
abbrev pub position : ℕ → ℕ → ℕ
position month day = day - 1 + month_start (march_month month)

pub month_of_year-position :
    (y m d : ℕ) → IsValid y m d → month_of_year (position m d) ≡ march_month m
month_of_year-position y m d v = ground arith

pub position-le : (y m d : ℕ) → IsValid y m d → position m d ≤ 365
position-le y m d v = ground arith

pub position_last : (y m d : ℕ) → IsValid y m d → position m d ≡ 365 → IsLong (march_year y m)
position_last y m d v h = ground arith
