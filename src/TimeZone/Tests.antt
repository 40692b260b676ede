-- ===== src/TimeZone/Tests.antt =====
-- Tests of `TimeZone`, and its theorems at concrete inputs.
use rfcs.Common.{
  ℕ, ◌≡◌, refl, arith, true, false, List, [], ◌∷◌, ◌++◌, some, none, replicate, ◌>>=◌,
}
use rfcs.Common.Int.{
  pos, negsuc, ◌+ℤ◌, ◌-ℤ◌, ◌*ℤ◌, quot, rem, add_int, sub_int, mul_int, add_int64, sub_int64,
  mul_int64,
}
use rfcs.Date.{
  get_julian_day_number, get_year_month_day, of_ymd, year_month_day, julian_day_of_1970_01_01,
}
use rfcs.Buffer.Ints.{from_network}
use rfcs.TimeZone.{Data, DateTime, Transition, add_local_time, add_transition}
use rfcs.TimeZone.Clock.{
  break_time, from_utc_time, fill_hms, seconds_and_days, civil_time, InRange, IsMoment,
  break_time-from,
}
use rfcs.TimeZone.Lookup.{
  upper_bound, first_after, is_partitioned, prior_second, find_between, find_by_utc, find_by_local,
  to_local_time, from_local_time,
}
use rfcs.TimeZone.InForce.{in_force, find_by_utc-in_force}
use rfcs.TimeZone.RoundTrip.{IsPlain, to_local_time-from_local_time}
use rfcs.TimeZone.File.{
  read_exactly, as_count, read_bytes, read_int32, read_uint8, skip, read_times, read_indices,
  read_local_times, add_transitions, read_counts, is_handled, read_data, read_data_block,
  read_time_zone_file, load_zone_file, same_bytes, read_to_end,
}
use rfcs.TimeZone.File.Total.{Gives, IsOrdered, load_zone_file-Gives}

-- China of 1991: summer time from 13 April 18:00 to 14 September 17:00 in Coordinated Universal Time.
abbrev china : Data
china = record {
  transitions =
      record { utctime = pos 671565600; localtime = pos 671598000; localtime_idx = pos 1 }
      ∷ record { utctime = pos 684867600; localtime = pos 684896400; localtime_idx = pos 0 }
      ∷ [];
  localtimes =
      record { utc_offset = pos 28800; is_dst = false; desig_idx = pos 0 }
      ∷ record { utc_offset = pos 32400; is_dst = true; desig_idx = pos 4 }
      ∷ [];
  abbreviation = [];
  tzstring = [];
}

-- 31 December 1969, 23:59:59
last_second : break_time (negsuc 0) ≡ some (civil_time 1969 12 31 23 59 59)
unfolding break_time fill_hms seconds_and_days year_month_day get_year_month_day
    get_julian_day_number julian_day_of_1970_01_01 add_int sub_int mul_int ◌+ℤ◌ ◌-ℤ◌ ◌*ℤ◌ quot rem
last_second = refl

-- The day after the last one that `getYearMonthDay` handles: an `int` overflows.
too_late : break_time (pos 46172011392000) ≡ none
unfolding break_time fill_hms seconds_and_days year_month_day get_year_month_day
    get_julian_day_number julian_day_of_1970_01_01 add_int sub_int mul_int ◌+ℤ◌ ◌-ℤ◌ ◌*ℤ◌ quot rem
too_late = refl

-- Transitions that are out of order, on which the binary search is not defined.
abbrev unordered : List Transition
unordered =
    record { utctime = pos 20; localtime = pos 20; localtime_idx = pos 0 }
    ∷ record { utctime = pos 5; localtime = pos 5; localtime_idx = pos 0 }
    ∷ []

unordered_bound : upper_bound (λ tr. tr.utctime) (pos 15) unordered ≡ none
unfolding upper_bound is_partitioned
unordered_bound = refl

-- 15 September 1991, 01:30: the hour is repeated at the last transition, and the answer is the later
-- local time on either side.
abbrev repeated : DateTime
repeated = record {
  year = pos 1991;
  month = pos 9;
  day = pos 15;
  hour = pos 1;
  minute = pos 30;
  second = pos 0;
}

repeated_last :
    find_by_local china repeated false
    ≡ some (record { utc_offset = pos 28800; is_dst = false; desig_idx = pos 0 })
unfolding find_by_local find_between prior_second upper_bound first_after is_partitioned
    from_utc_time of_ymd get_julian_day_number julian_day_of_1970_01_01 add_int sub_int mul_int
    add_int64 sub_int64 mul_int64 ◌+ℤ◌ ◌-ℤ◌ ◌*ℤ◌ quot
repeated_last = refl

break_time-from_example : (y m d h mi s : ℕ) × IsMoment (negsuc 0) y m d h mi s
break_time-from_example =
    break_time-from (negsuc 0) (record { late = omega arith; early = omega arith })

find_by_utc-in_force_example : find_by_utc china (pos 684867599) ≡ in_force china (pos 684867599)
find_by_utc-in_force_example = find_by_utc-in_force china (pos 684867599) refl

-- 1 July 1991, 00:00:00 in Coordinated Universal Time
july_IsPlain :
    IsPlain china
      (pos 678326400)
      (record { utc_offset = pos 32400; is_dst = true; desig_idx = pos 4 })
unfolding ◌+ℤ◌
july_IsPlain = IsPlain.during 0 refl refl refl refl

july_InRange : InRange (pos 678326400 +ℤ pos 32400)
unfolding ◌+ℤ◌
july_InRange = record { late = omega arith; early = omega arith }

to_local_time-from_local_time_example :
    (to_local_time (record { zone_data = some china }) (pos 678326400) >>= λ r.
    from_local_time (record { zone_data = some china }) (r.0) true)
    ≡ some (pos 678326400)
to_local_time-from_local_time_example =
    to_local_time-from_local_time (record { zone_data = some china }) china (pos 678326400)
      (record { utc_offset = pos 32400; is_dst = true; desig_idx = pos 4 }) true refl refl
      july_IsPlain july_InRange

-- A file of version 1 with one transition and two local times.
abbrev zone_file : List ℕ
zone_file =
    84 ∷ 90 ∷ 105 ∷ 102 ∷ 0 ∷ []
    ++ replicate 15 0
    ++ 0 ∷ 0 ∷ 0 ∷ 0 ∷ 0 ∷ 0 ∷ 0 ∷ 0 ∷ 0 ∷ 0 ∷ 0 ∷ 0 ∷ 0 ∷ 0 ∷ 0 ∷ 1 ∷ 0 ∷ 0 ∷ 0 ∷ 2 ∷ 0 ∷ 0 ∷ 0 ∷ 4
      ∷ []
    ++ 0 ∷ 0 ∷ 2 ∷ 0 ∷ 1 ∷ []
    ++ 0 ∷ 0 ∷ 0 ∷ 0 ∷ 0 ∷ 0 ∷ 255 ∷ 255 ∷ 255 ∷ 0 ∷ 1 ∷ 0 ∷ []
    ++ 67 ∷ 83 ∷ 84 ∷ 0 ∷ []

abbrev zone_of_file : Data
zone_of_file = record {
  transitions = record { utctime = pos 512; localtime = pos 256; localtime_idx = pos 1 } ∷ [];
  localtimes =
      record { utc_offset = pos 0; is_dst = false; desig_idx = pos 0 }
      ∷ record { utc_offset = negsuc 255; is_dst = true; desig_idx = pos 0 }
      ∷ [];
  abbreviation = 67 ∷ 83 ∷ 84 ∷ 0 ∷ [];
  tzstring = [];
}

zone_file_loaded : (load_zone_file (some zone_file)).zone_data ≡ some zone_of_file
unfolding load_zone_file read_time_zone_file read_data_block read_data read_counts read_local_times
    add_transitions read_times read_indices is_handled read_bytes read_exactly read_int32 read_uint8
    as_count skip same_bytes from_network add_local_time add_transition add_int64 ◌+ℤ◌ ◌*ℤ◌
    read_to_end
zone_file_loaded = refl

zone_of_file-IsOrdered : IsOrdered zone_of_file
zone_of_file-IsOrdered = record {
  some_local = omega arith;
  by_utc = refl;
  by_local = refl;
  moderate = refl;
}

new_year_seconds : from_utc_time (civil_time 1970 1 1 0 10 0) ≡ some (pos 600)
unfolding from_utc_time of_ymd get_julian_day_number julian_day_of_1970_01_01 add_int sub_int
    mul_int add_int64 mul_int64 ◌+ℤ◌ ◌-ℤ◌ ◌*ℤ◌ quot
new_year_seconds = refl

load_zone_file-Gives_example :
    Gives (to_local_time (load_zone_file (some zone_file)) (pos 600))
    × Gives (from_local_time (load_zone_file (some zone_file)) (civil_time 1970 1 1 0 10 0) false)
load_zone_file-Gives_example =
    load_zone_file-Gives (some zone_file) zone_of_file (pos 600) (pos 600)
      (civil_time 1970 1 1 0 10 0) false zone_file_loaded zone_of_file-IsOrdered
      (record { late = omega arith; early = omega arith }) new_year_seconds
      (record { late = omega arith; early = omega arith })
