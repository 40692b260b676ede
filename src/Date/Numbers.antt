-- ===== src/Date/Numbers.antt =====
-- The computations of `Date` over the natural numbers, where no difference is negative.
use rfcs.Common.{ℕ, ◌+◌, ◌-◌, ◌*◌, ◌/◌, ◌≤◌, ◌≡◌, refl, some, ap, ◌∙◌, arith}
use rfcs.Common.Int.{
  pos, ◌+ℤ◌, ◌-ℤ◌, ◌*ℤ◌, quot, add_int, sub_int, mul_int, add_int-pos, sub_int-pos, mul_int-pos,
  sub_int-diff, add_int-diff,
}
use rfcs.Date.{julian_day_of_1970_01_01, get_julian_day_number, get_year_month_day, YearMonthDay}

-- The years of the computation begin in March: `shift` is 1 in January and February.
abbrev pub shift : ℕ → ℕ
shift month = (14 - month) / 12

abbrev pub march_year : ℕ → ℕ → ℕ
march_year year month = year + 4800 - shift month

abbrev pub march_month : ℕ → ℕ
march_month month = month + 12 * shift month - 3

-- The days before a month, counted from March, and before a year.
abbrev pub month_start : ℕ → ℕ
month_start m = (153 * m + 2) / 5

abbrev pub year_start : ℕ → ℕ
year_start y = y * 365 + y / 4 - y / 100 + y / 400

-- For a year that is not negative, and whose days an `int` counts, and a month from 1 to 12.
pub julian-pos :
    (year month day : ℕ)
    → 1 ≤ month
    → month ≤ 12
    → 1 ≤ day
    → day ≤ 31
    → year ≤ 5000000
    → get_julian_day_number (pos year) (pos month) (pos day)
      ≡ some
          (pos (day + month_start (march_month month) + year_start (march_year year month) - 32045))
unfolding get_julian_day_number quot
julian-pos year month day lo hi d k few =
    let y = march_year year month in
    let m = march_month month in
    let n = day + month_start m in
    rw
      (
        sub_int-pos 14 month (omega arith) (omega arith),
        add_int-pos year 4800 (omega arith),
        sub_int-pos (year + 4800) (shift month) (omega arith) (omega arith),
        mul_int-pos 12 (shift month) (omega arith),
        add_int-pos month (12 * shift month) (omega arith),
        sub_int-pos (month + 12 * shift month) 3 (omega arith) (omega arith),
        mul_int-pos 153 m (omega arith),
        add_int-pos (153 * m) 2 (omega arith),
        add_int-pos day (month_start m) (omega arith),
        mul_int-pos y 365 (omega arith),
        add_int-pos n (y * 365) (omega arith),
        add_int-pos (n + y * 365) (y / 4) (omega arith),
        sub_int-pos (n + y * 365 + y / 4) (y / 100) (omega arith) (omega arith),
        add_int-pos (n + y * 365 + y / 4 - y / 100) (y / 400) (omega arith),
        sub_int-pos (n + y * 365 + y / 4 - y / 100 + y / 400) 32045 (omega arith) (omega arith),
      )
      (ap (λ x. some (pos x)) (omega arith))

-- The steps of `getYearMonthDay` on a day `a` counted from 1 March of the year -4800.
abbrev pub century : ℕ → ℕ
century a = (4 * a + 3) / 146097

abbrev pub day_of_century : ℕ → ℕ
day_of_century a = a - century a * 146097 / 4

abbrev pub year_of_century : ℕ → ℕ
year_of_century c = (4 * c + 3) / 1461

abbrev pub day_of_year : ℕ → ℕ
day_of_year c = c - 1461 * year_of_century c / 4

abbrev pub month_of_year : ℕ → ℕ
month_of_year e = (5 * e + 2) / 153

-- None of the differences is negative.
pub sub_century : (a : ℕ) → century a * 146097 / 4 ≤ a
sub_century a = omega arith

pub sub_year : (c : ℕ) → 1461 * year_of_century c / 4 ≤ c
sub_year c = omega arith

sub_month : (e : ℕ) → month_start (month_of_year e) ≤ e
sub_month e = omega arith

pub day_of_century_bound : (a : ℕ) → day_of_century a ≤ 36524
day_of_century_bound a = omega arith

pub day_of_year_bound : (a : ℕ) → day_of_year (day_of_century a) ≤ 365
day_of_year_bound a = omega (arith, day_of_century_bound a)

sub_ten : (e : ℕ) → e ≤ 365 → 12 * (month_of_year e / 10) ≤ month_of_year e + 3
sub_ten e h = omega arith

-- The date of the day `e` of the March year `d` of the century `b`.
pub civil_of : ℕ → ℕ → ℕ → YearMonthDay
civil_of b d e =
    let m = month_of_year e in
    record {
      day = pos (e - month_start m + 1);
      month = pos (m + 3 - 12 * (m / 10));
      year = pos (b * 100 + d) -ℤ pos 4800 +ℤ pos (m / 10);
    }

-- The last day number for which `4 * a + 3` is an `int`.
abbrev pub last_number : ℕ
last_number = 536838867

-- Every day number from 0 to the last.
pub civil-pos :
    (n : ℕ)
    → n ≤ last_number
    → let c = day_of_century (n + 32044) in
      get_year_month_day (pos n)
      ≡ some (civil_of (century (n + 32044)) (year_of_century c) (day_of_year c))
unfolding get_year_month_day civil_of quot
civil-pos n h =
    let a = n + 32044 in
    let b = century a in
    let c = day_of_century a in
    let d = year_of_century c in
    let e = day_of_year c in
    let m = month_of_year e in
    let ce = day_of_century_bound a in
    let ee = day_of_year_bound a in
    rw
      (
        add_int-pos n 32044 (omega arith),
        mul_int-pos 4 a (omega arith),
        add_int-pos (4 * a) 3 (omega arith),
        mul_int-pos b 146097 (omega arith),
        sub_int-pos a (b * 146097 / 4) (sub_century a) (omega arith),
        mul_int-pos 4 c (omega (arith, ce)),
        add_int-pos (4 * c) 3 (omega (arith, ce)),
        mul_int-pos 1461 d (omega (arith, ce)),
        sub_int-pos c (1461 * d / 4) (sub_year c) (omega (arith, ce)),
        mul_int-pos 5 e (omega (arith, ee)),
        add_int-pos (5 * e) 2 (omega (arith, ee)),
        mul_int-pos 153 m (omega (arith, ee)),
        add_int-pos (153 * m) 2 (omega (arith, ee)),
        sub_int-pos e (month_start m) (sub_month e) (omega (arith, ee)),
        add_int-pos (e - month_start m) 1 (omega (arith, ee)),
        add_int-pos m 3 (omega (arith, ee)),
        mul_int-pos 12 (m / 10) (omega (arith, ee)),
        sub_int-pos (m + 3) (12 * (m / 10)) (sub_ten e ee) (omega (arith, ee)),
        mul_int-pos b 100 (omega arith),
        add_int-pos (b * 100) d (omega (arith, ce)),
        sub_int-diff (b * 100 + d) 4800 (omega (arith, ce)) (omega arith),
        add_int-diff (b * 100 + d) 4800 (m / 10) (omega (arith, ce, ee)) (omega arith),
      )
      refl

pub year_back : (y s : ℕ) → s ≤ 1 → pos (y + 4800 - s) -ℤ pos 4800 +ℤ pos s ≡ pos y
unfolding ◌+ℤ◌ ◌-ℤ◌
year_back y s h = ground arith

pub civil_of-eq :
    (b d e y m k : ℕ)
    → b * 100 + d ≡ y + 4800 - month_of_year e / 10
    → month_of_year e / 10 ≤ 1
    → month_of_year e + 3 ≡ m + 12 * (month_of_year e / 10)
    → e + 1 ≡ month_start (month_of_year e) + k
    → 1 ≤ k
    → civil_of b d e ≡ record { year = pos y; month = pos m; day = pos k }
unfolding civil_of
civil_of-eq b d e y m k year_eq few month_eq day_eq some_day =
    let p : e - month_start (month_of_year e) + 1 ≡ k = omega arith in
    let q : month_of_year e + 3 - 12 * (month_of_year e / 10) ≡ m = omega arith in
    let r : pos (b * 100 + d) -ℤ pos 4800 +ℤ pos (month_of_year e / 10) ≡ pos y =
      ap (λ t. pos t -ℤ pos 4800 +ℤ pos (month_of_year e / 10)) year_eq
      ∙ year_back y (month_of_year e / 10) few in
    λ i. record { year = r i; month = pos (q i); day = pos (p i) }

pub epoch : julian_day_of_1970_01_01 ≡ some (pos 2440588)
unfolding julian_day_of_1970_01_01 get_julian_day_number add_int sub_int mul_int ◌+ℤ◌ ◌-ℤ◌ ◌*ℤ◌ quot
epoch = refl
