-- ===== src/Date/RoundTrip.antt =====
-- Julian day numbers and calendar dates determine each other.
use rfcs.Common.{ℕ, ◌+◌, ◌-◌, ◌*◌, ◌/◌, ◌%◌, ◌≤◌, ◌≡◌, ◌⊎◌, ap, ◌∙◌, ap₂, arith, some, ◌>>=◌}
use rfcs.Common.Int.{pos}
use rfcs.Date.{get_julian_day_number, get_year_month_day}
use rfcs.Date.Numbers.{
  march_year, march_month, month_start, year_start, century, day_of_century, year_of_century,
  day_of_year, month_of_year, julian-pos, civil-pos, civil_of, civil_of-eq, sub_century, sub_year,
  last_number, day_of_century_bound,
}
use rfcs.Date.Calendar.{
  IsValid, IsLong, position, month_of_year-position, position-le, position_last,
}

-- A day of the March year `y`, and the centuries and years before it.
module _ (y p : ℕ) (h : p ≤ 365) (last : p ≡ 365 → IsLong y) where
  century-day : century (p + year_start y) ≡ y / 100
  century-day = ground arith

  day_of_century-day : day_of_century (p + year_start y) ≡ p + y % 100 * 365 + y % 100 / 4
  day_of_century-day = omega (arith, century-day)

  year_of_century-day : year_of_century (p + y % 100 * 365 + y % 100 / 4) ≡ y % 100
  year_of_century-day = ground arith

  day_of_year-day : day_of_year (p + y % 100 * 365 + y % 100 / 4) ≡ p
  day_of_year-day = omega (arith, year_of_century-day)

pub day-le : (y m d : ℕ) → IsValid y m d → d ≤ 31
day-le y m d v = ground arith

-- The day number of a valid date, less the offset of the computation.
julian-position :
    (y m d : ℕ)
    → IsValid y m d
    → y ≤ 5000000
    → (n : ℕ) × (get_julian_day_number (pos y) (pos m) (pos d) ≡ some (pos n))
      × (n + 32044 ≡ position m d + year_start (march_year y m))
julian-position y m d v few = (
  _,
  julian-pos y m d v.month_in.0 v.month_in.1 v.day_in.0 (day-le y m d v) few,
  omega (arith, v.month_in, v.day_in),
)

position-civil :
    (y m d : ℕ)
    → IsValid y m d
    → civil_of (march_year y m / 100) (march_year y m % 100) (position m d)
      ≡ record { year = pos y; month = pos m; day = pos d }
position-civil y m d v =
    let month = month_of_year-position y m d v in
    civil_of-eq _ _ _ y m d (omega (arith, v.month_in, month)) (omega (arith, v.month_in, month))
      (omega (arith, v.month_in, month)) (omega (arith, v.day_in, month)) v.day_in.0

-- `getYearMonthDay` undoes `getJulianDayNumber`, and no `int` overflows in either, on every valid date
-- from the year 0 to the year 1465000.
pub year_month_day-julian :
    (y m d : ℕ)
    → IsValid y m d
    → y ≤ 1465000
    → (get_julian_day_number (pos y) (pos m) (pos d) >>= get_year_month_day)
      ≡ some (record { year = pos y; month = pos m; day = pos d })
year_month_day-julian y m d v few =
    let (n, e, p) = julian-position y m d v (omega (arith, few)) in
    let at = position m d in
    let y' = march_year y m in
    let short = position-le y m d v in
    let last = position_last y m d v in
    let c = ap day_of_century p ∙ day_of_century-day y' at short last in
    let century_eq = ap century p ∙ century-day y' at short last in
    let year_eq = ap year_of_century c ∙ year_of_century-day y' at short last in
    let day_eq = ap day_of_year c ∙ day_of_year-day y' at short last in
    let within : n ≤ last_number = omega (arith, few, p, short) in
    rw (e, civil-pos n within)
      (ap some ((λ i. civil_of (century_eq i) (year_eq i) (day_eq i)) ∙ position-civil y m d v))

-- The other way: a day number is taken apart into a century, a year of it and a day of that.
century_end :
    (a : ℕ) → (day_of_century a ≤ 36523) ⊎ ((day_of_century a ≡ 36524) × (century a % 4 ≡ 3))
century_end a = ground arith

year_start-parts : (b d : ℕ) → d ≤ 99 → year_start (b * 100 + d) ≡ b * 146097 / 4 + 1461 * d / 4
year_start-parts b d h = omega arith

-- The last day of a March year of 366 days.
year_end :
    (b c : ℕ)
    → (c ≤ 36523) ⊎ ((c ≡ 36524) × (b % 4 ≡ 3))
    → (day_of_year c ≤ 364) ⊎ ((day_of_year c ≡ 365) × IsLong (b * 100 + year_of_century c))
year_end b c h = ground arith

-- A position in a March year is a day of one of its months.
civil-IsValid :
    (y e : ℕ)
    → (e ≤ 364) ⊎ ((e ≡ 365) × IsLong (y + 4800))
    → IsValid
        (y + month_of_year e / 10)
        (month_of_year e + 3 - 12 * (month_of_year e / 10))
        (e - month_start (month_of_year e) + 1)
civil-IsValid y e h = ground arith

-- What a day number and a date have to do with each other, in both directions.
pub record IsDateOf (n y m d : ℕ) : Type 0 where
  pub civil :
      get_year_month_day (pos n) ≡ some (record { year = pos y; month = pos m; day = pos d })
  pub valid : IsValid y m d
  pub julian : get_julian_day_number (pos y) (pos m) (pos d) ≡ some (pos n)

IsDateOf-parts :
    (n b d e y : ℕ)
    → n + 32044 ≡ e + year_start (b * 100 + d)
    → get_year_month_day (pos n) ≡ some (civil_of b d e)
    → n ≤ last_number
    → b * 100 + d ≡ y + 4800
    → (e ≤ 364) ⊎ ((e ≡ 365) × IsLong (b * 100 + d))
    → IsDateOf n
        (y + month_of_year e / 10)
        (month_of_year e + 3 - 12 * (month_of_year e / 10))
        (e - month_start (month_of_year e) + 1)
IsDateOf-parts n b d e y total civil within shifted last =
    let v = civil-IsValid y e (rw shifted at last) in
    let m = month_of_year e + 3 - 12 * (month_of_year e / 10) in
    let k = e - month_start (month_of_year e) + 1 in
    let few : month_of_year e ≤ 11 = omega (arith, last) in
    let march : march_month m ≡ month_of_year e = omega arith in
    let year : march_year (y + month_of_year e / 10) m ≡ b * 100 + d = omega arith in
    let start : month_start (march_month m) ≤ e = omega (arith, march) in
    let days : k + month_start (march_month m) ≡ e + 1 = omega (arith, march) in
    let number : k
          + month_start (march_month m)
          + year_start (march_year (y + month_of_year e / 10) m)
          - 32045
        ≡ n =
      ap₂ (λ u w. u + year_start w - 32045) days year ∙ omega (arith, total) in
    record {
      civil =
          civil
          ∙ ap some (
              civil_of-eq b d e _ _ _ (omega arith) (omega arith) (omega arith) (omega arith)
                (omega arith));
      valid = v;
      julian =
          julian-pos (y + month_of_year e / 10) m k v.month_in.0 v.month_in.1 v.day_in.0
            (day-le (y + month_of_year e / 10) m k v) (omega (arith, within, total, shifted, few))
          ∙ ap (λ x. some (pos x)) number;
    }

put_together : (a x z s : ℕ) → x ≤ a → z ≤ a - x → s ≡ x + z → a ≡ a - x - z + s
put_together a x z s h k e = omega arith

shift_back : (y : ℕ) → 4800 ≤ y → y ≡ y - 4800 + 4800
shift_back y h = omega arith

-- Every day number from that of 1 March of the year 0 to 536838867, the last one for which
-- `getYearMonthDay` does not overflow, is the number of the date that it computes, and that date is
-- valid.
pub date_of : (n : ℕ) → 1721120 ≤ n → n ≤ last_number → (y m d : ℕ) × IsDateOf n y m d
date_of n h within =
    let a = n + 32044 in
    let c = day_of_century a in
    let b = century a in
    let d = year_of_century c in
    let few : d ≤ 99 = omega (arith, day_of_century_bound a) in
    let total : a ≡ day_of_year c + year_start (b * 100 + d) =
      put_together a (b * 146097 / 4) (1461 * d / 4) _ (sub_century a) (sub_year c)
        (year_start-parts b d few) in
    let late : 48 ≤ b = omega arith in
    (
      _,
      _,
      _,
      IsDateOf-parts n b d (day_of_year c) (b * 100 + d - 4800) total (civil-pos n within) within
          (shift_back (b * 100 + d) (omega arith)) (year_end b c (century_end a)),
    )
