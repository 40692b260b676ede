-- ===== src/TimeZone.antt =====
-- muduo/base/TimeZone.cc and TimeZone.h: the data of a time zone and the local time of a moment. A
-- second is a whole number; `none` is an exception, a failed assertion, or an overflow of `int` or
-- `int64_t` or another thing that C++ does not define.
pub mod Clock
pub mod File
pub mod Lookup
pub mod Moderate
pub mod InForce
pub mod RoundTrip
mod Tests
use rfcs.Common.{
  ℕ, ◌+◌, ◌-◌, ◌*◌, ◌%◌, ◌^◌, Bool, true, false, List, [], ◌∷◌, ◌++◌, Option, none, some, ltb,
  if◌then◌else◌, get_elem?, ◌>>=◌,
}
use rfcs.Common.Int.{ℤ, pos, negsuc, ◌+ℤ◌, sub_ℕ, add_int64}

pub record DateTime : Type 0 where
  pub year : ℤ
  pub month : ℤ
  pub day : ℤ
  pub hour : ℤ
  pub minute : ℤ
  pub second : ℤ

pub record Transition : Type 0 where
  pub utctime : ℤ
  pub localtime : ℤ
  pub localtime_idx : ℤ

pub record LocalTime : Type 0 where
  pub utc_offset : ℤ
  pub is_dst : Bool
  pub desig_idx : ℤ

-- `TimeZone::Data`
pub record Data : Type 0 where
  pub transitions : List Transition
  pub localtimes : List LocalTime
  pub abbreviation : List ℕ
  pub tzstring : List ℕ

-- `data_`: a null pointer is an invalid time zone.
pub record TimeZone : Type 0 where
  pub zone_data : Option Data

abbrev pub empty_data : Data
empty_data = record { transitions = []; localtimes = []; abbreviation = []; tzstring = [] }

-- An element at a signed index: there is none below 0.
abbrev pub at : {A : Type 0} → List A → ℤ → Option A
at xs (pos i) = get_elem? xs i
at xs (negsuc i) = none

unfoldable pub add_local_time : ℤ → Bool → ℤ → Data → Data
add_local_time utc_offset is_dst desig_idx zone_data = record zone_data {
  localtimes =
      zone_data.localtimes
      ++ record { utc_offset = utc_offset; is_dst = is_dst; desig_idx = desig_idx } ∷ [];
}

-- `localtimes.at` throws on an index out of range.
unfoldable pub add_transition : ℤ → ℤ → Data → Option Data
add_transition utc_time localtime_idx zone_data = do
  lt ← at zone_data.localtimes localtime_idx
  localtime ← add_int64 utc_time lt.utc_offset
  some (record zone_data {
    transitions =
        zone_data.transitions
        ++ record { utctime = utc_time; localtime = localtime; localtime_idx = localtime_idx } ∷ [];
  })

-- `TimeZone(int eastOfUtc, const char* name)`
unfoldable pub fixed_zone : ℤ → List ℕ → TimeZone
unfolding add_local_time
fixed_zone east_of_utc name =
    let zone_data = add_local_time east_of_utc false (pos 0) empty_data in
    record { zone_data = some (record zone_data { abbreviation = name }) }

unfoldable pub utc : TimeZone
unfolding fixed_zone
utc = fixed_zone (pos 0) (85 ∷ 84 ∷ 67 ∷ [])

unfoldable pub is_valid : TimeZone → Bool
is_valid zone = elim zone.zone_data [ none ↦ false | some zone_data ↦ true ]

-- A pattern of 32 bits as an `int`.
abbrev pub signed32 : ℕ → ℤ
signed32 n = if ltb n (2 ^ 31) then pos n else sub_ℕ n (2 ^ 32)

-- `static_cast<int>`
abbrev pub cast_int : ℤ → ℤ
cast_int (pos n) = signed32 (n % 2 ^ 32)
cast_int (negsuc n) = signed32 (2 ^ 32 - 1 - n % 2 ^ 32)
