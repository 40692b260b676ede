-- ===== src/TimeZone/Clock.antt =====
-- muduo/base/TimeZone.cc: `fillHMS`, `BreakTime` and `fromUtcTime`.
use rfcs.Common.{
  Option, some, ◌>>=◌, ℕ, ◌+◌, ◌-◌, ◌*◌, ◌/◌, ◌%◌, ◌≤◌, ◌<◌, ◌≡◌, refl, arith, if◌then◌else◌,
}
use rfcs.Common.Int.{
  ℤ, pos, negsuc, pos_part, ◌+ℤ◌, ◌-ℤ◌, ◌*ℤ◌, ◌≤ℤ◌, ◌<ℤ◌, quot, rem, ltb_ℤ, add_int, sub_int,
  mul_int, add_int64, mul_int64, add_int-pos, sub_int-diff, mul_int-pos,
}
use rfcs.Date.{year_month_day, of_ymd, julian_day_of_1970_01_01}
use rfcs.Date.Numbers.{last_number, epoch}
use rfcs.Date.Calendar.{IsValid}
use rfcs.Date.RoundTrip.{date_of, IsDateOf}
use rfcs.TimeZone.{DateTime, cast_int}

abbrev pub seconds_per_day : ℕ
seconds_per_day = 86400

unfoldable pub fill_hms : ℕ → DateTime → DateTime
fill_hms seconds dt =
    let minutes = seconds / 60 in
    record dt {
      second = pos (seconds % 60);
      minute = pos (minutes % 60);
      hour = pos (minutes / 60);
    }

-- The seconds of the day and the days: C++11 rounds towards zero.
unfoldable pub seconds_and_days : ℤ → Option (ℤ × ℤ)
seconds_and_days t =
    let seconds = cast_int (rem t seconds_per_day) in
    let days = cast_int (quot t seconds_per_day) in
    if ltb_ℤ seconds (pos 0)
    then (do
      seconds ← add_int seconds (pos seconds_per_day)
      days ← sub_int days (pos 1)
      some (seconds, days))
    else some (seconds, days)

abbrev pub no_time : DateTime
no_time = record {
  year = pos 0;
  month = pos 0;
  day = pos 0;
  hour = pos 0;
  minute = pos 0;
  second = pos 0;
}

unfoldable pub break_time : ℤ → Option DateTime
break_time t = do
  (seconds, days) ← seconds_and_days t
  let dt = fill_hms (pos_part seconds) no_time
  epoch ← julian_day_of_1970_01_01
  number ← add_int days epoch
  ymd ← year_month_day (record { julian_day_number = number })
  some (record dt { year = ymd.year; month = ymd.month; day = ymd.day })

-- The days and the seconds of the day are `int`, the sum an `int64_t`.
unfoldable pub from_utc_time : DateTime → Option ℤ
from_utc_time dt = do
  date ← of_ymd dt.year dt.month dt.day
  hours ← mul_int dt.hour (pos 3600)
  minutes ← mul_int dt.minute (pos 60)
  seconds_in_day ← add_int hours minutes
  seconds_in_day ← add_int seconds_in_day dt.second
  epoch ← julian_day_of_1970_01_01
  days ← sub_int date.julian_day_number epoch
  seconds ← mul_int64 days (pos seconds_per_day)
  add_int64 seconds seconds_in_day

-- `toUtcTime`
unfoldable pub to_utc_time : ℤ → Option DateTime
to_utc_time seconds_since_epoch = break_time seconds_since_epoch

-- From 1 March of the year 0 to the last day that `getYearMonthDay` handles.
pub record InRange (t : ℤ) : Type 0 where
  pub late : negsuc 62162035199 ≤ℤ t
  pub early : t <ℤ pos 46172011392000

-- A second as a Julian day number and a second of that day.
record Splits (t : ℤ) (n s : ℕ) : Type 0 where
  split : seconds_and_days t ≡ some (pos s, pos n -ℤ pos 2440588)
  whole : (pos n -ℤ pos 2440588) *ℤ pos seconds_per_day +ℤ pos s ≡ t
  later : 1721120 ≤ n
  last : n ≤ last_number
  within : s < seconds_per_day

pos-Splits :
    (k : ℕ)
    → k < 46172011392000
    → Splits (pos k) (k / seconds_per_day + 2440588) (k % seconds_per_day)
unfolding seconds_and_days add_int sub_int rem quot ◌+ℤ◌ ◌-ℤ◌ ◌*ℤ◌
pos-Splits k h = record {
  split = ground arith;
  whole = ground arith;
  later = ground arith;
  last = ground arith;
  within = ground arith;
}

negsuc-Splits :
    (k : ℕ)
    → k ≤ 62162035199
    → Splits
        (negsuc k)
        (2440588 - (k / seconds_per_day + 1))
        (seconds_per_day - 1 - k % seconds_per_day)
unfolding seconds_and_days add_int sub_int rem quot ◌+ℤ◌ ◌-ℤ◌ ◌*ℤ◌
negsuc-Splits k h = record {
  split = ground arith;
  whole = ground arith;
  later = ground arith;
  last = ground arith;
  within = ground arith;
}

Splits-in : (t : ℤ) → InRange t → (n s : ℕ) × Splits t n s
Splits-in (pos k) r = (_, _, pos-Splits k (omega (arith, r.early)))
Splits-in (negsuc k) r = (_, _, negsuc-Splits k (omega (arith, r.late)))

back_to_number :
    (n : ℕ)
    → 1721120 ≤ n
    → n ≤ last_number
    → add_int (pos n -ℤ pos 2440588) (pos 2440588) ≡ some (pos n)
unfolding add_int ◌+ℤ◌ ◌-ℤ◌
back_to_number n h k = ground arith

time_of_day : (s : ℕ) → s / 60 / 60 * 3600 + s / 60 % 60 * 60 + s % 60 ≡ s
time_of_day s = omega arith

whole_days :
    (n : ℕ)
    → n ≤ last_number
    → mul_int64 (pos n -ℤ pos 2440588) (pos seconds_per_day)
      ≡ some ((pos n -ℤ pos 2440588) *ℤ pos seconds_per_day)
unfolding mul_int64 ◌*ℤ◌ ◌-ℤ◌
whole_days n h = ground arith

add_int64-eq : (a b t : ℤ) → a +ℤ b ≡ t → InRange t → add_int64 a b ≡ some t
unfolding add_int64
add_int64-eq a b t e r = rw e (ground (arith, r.late, r.early))

-- The date and the time of day with these numbers.
abbrev pub civil_time : ℕ → ℕ → ℕ → ℕ → ℕ → ℕ → DateTime
civil_time y m d h mi s = record {
  year = pos y;
  month = pos m;
  day = pos d;
  hour = pos h;
  minute = pos mi;
  second = pos s;
}

-- A valid date and time of day that name the second `t`, and the code's results for them.
pub record IsMoment (t : ℤ) (y m d h mi s : ℕ) : Type 0 where
  pub broken : break_time t ≡ some (civil_time y m d h mi s)
  pub date_valid : IsValid y m d
  pub time_valid : (h ≤ 23) × (mi ≤ 59) × (s ≤ 59)
  pub seconds : from_utc_time (civil_time y m d h mi s) ≡ some t

break_time-eq :
    (t : ℤ) (n s y m d : ℕ)
    → Splits t n s
    → IsDateOf n y m d
    → break_time t ≡ some (civil_time y m d (s / 60 / 60) (s / 60 % 60) (s % 60))
unfolding break_time fill_hms year_month_day
break_time-eq t n s y m d p e = rw (p.split, epoch, back_to_number n p.later p.last, e.civil) refl

from_utc_time-eq :
    (t : ℤ) (n s y m d : ℕ)
    → Splits t n s
    → IsDateOf n y m d
    → InRange t
    → from_utc_time (civil_time y m d (s / 60 / 60) (s / 60 % 60) (s % 60)) ≡ some t
unfolding from_utc_time of_ymd
from_utc_time-eq t n s y m d p e r =
    let h = s / 60 / 60 in
    let mi = s / 60 % 60 in
    rw
      (
        e.julian,
        mul_int-pos h 3600 (omega (arith, p.within)),
        mul_int-pos mi 60 (omega arith),
        add_int-pos (h * 3600) (mi * 60) (omega (arith, p.within)),
        add_int-pos (h * 3600 + mi * 60) (s % 60) (omega (arith, p.within)),
        time_of_day s,
        epoch,
        sub_int-diff n 2440588 (omega (arith, p.last)) (omega arith),
        whole_days n p.last,
      )
      (add_int64-eq _ (pos s) t p.whole r)

-- `BreakTime` gives a valid date and time of day, and `fromUtcTime` of these is the second it was
-- given, without an overflow, for every second from 1 March of the year 0 to the day whose Julian day
-- number is 536838867, the last that `getYearMonthDay` handles.
pub break_time-from : (t : ℤ) → InRange t → (y m d h mi s : ℕ) × IsMoment t y m d h mi s
break_time-from t r =
    let (n, s, p) = Splits-in t r in
    let (y, m, d, e) = date_of n p.later p.last in
    (
      y,
      m,
      d,
      _,
      _,
      _,
      record {
        broken = break_time-eq t n s y m d p e;
        date_valid = e.valid;
        time_valid = omega (arith, p.within);
        seconds = from_utc_time-eq t n s y m d p e r;
      },
    )
