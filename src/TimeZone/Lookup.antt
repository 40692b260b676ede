-- ===== src/TimeZone/Lookup.antt =====
-- muduo/base/TimeZone.cc: the two `findLocalTime`, `toLocalTime` and `fromLocalTime`. An iterator into
-- `transitions` is its index. A pointer to a `LocalTime` is the element itself.
use rfcs.Common.{
  none, ◌&&◌, ℕ, zero, suc, ◌-◌, Bool, true, not, List, [], ◌∷◌, Option, some, ◌==◌, if◌then◌else◌,
  length, get_elem?, ◌>>=◌, ◌>>◌, assert,
}
use rfcs.Common.Int.{ℤ, pos, ltb_ℤ, add_int64, sub_int64}
use rfcs.TimeZone.{DateTime, Transition, LocalTime, Data, TimeZone, at}
use rfcs.TimeZone.Clock.{break_time, from_utc_time}

-- The first index whose key is greater than the value.
unfoldable pub first_after : (Transition → ℤ) → ℤ → List Transition → ℕ
first_after key value [] = 0
first_after key value (x ∷ xs) =
    let rest = first_after key value xs in if ltb_ℤ value (key x) then 0 else suc rest

abbrev pub all_after : (Transition → ℤ) → ℤ → List Transition → Bool
all_after key value [] = true
all_after key value (x ∷ xs) = ltb_ℤ value (key x) && all_after key value xs

-- The keys that are greater than the value stand behind the others.
unfoldable pub is_partitioned : (Transition → ℤ) → ℤ → List Transition → Bool
is_partitioned key value [] = true
is_partitioned key value (x ∷ xs) =
    let rest = is_partitioned key value xs in
    if ltb_ℤ value (key x) then all_after key value xs else rest

-- `std::upper_bound`, which wants the range partitioned so, and is not defined else.
unfoldable pub upper_bound : (Transition → ℤ) → ℤ → List Transition → Option ℕ
upper_bound key value xs =
    if is_partitioned key value xs then some (first_after key value xs) else none

-- `localtimes[tr.localtimeIdx]`
abbrev pub local_of : Data → Option Transition → Option LocalTime
local_of z tr = tr >>= λ tr. at z.localtimes tr.localtime_idx

-- `transitions.empty() || value < transitions.front()`
abbrev pub before_all : (Transition → ℤ) → ℤ → List Transition → Bool
before_all key value [] = true
before_all key value (x ∷ xs) = ltb_ℤ value (key x)

-- `transitions[i]` and `transitions.back()`
abbrev pub transition : Data → ℕ → Option Transition
transition z i = get_elem? z.transitions i

abbrev pub back : Data → Option Transition
back z = transition z (length z.transitions - 1)

unfoldable pub find_by_utc : Data → ℤ → Option LocalTime
find_by_utc z utc_time =
    if before_all (λ tr. tr.utctime) utc_time z.transitions then get_elem? z.localtimes 0 else do
      i ← upper_bound (λ tr. tr.utctime) utc_time z.transitions
      assert (not (i == 0))
      if not (i == length z.transitions)
          then local_of z (transition z (i - 1))
          else local_of z (back z)

-- `transI->utctime - 1 + localtimes[prior_trans.localtimeIdx].utcOffset`
unfoldable pub prior_second : Data → ℕ → Transition → Option ℤ
prior_second z i prior_trans = do
  tr ← transition z i
  lt ← at z.localtimes prior_trans.localtime_idx
  before ← sub_int64 tr.utctime (pos 1)
  add_int64 before lt.utc_offset

-- The transition before index `i`, and the last second before that at `i` in its local time: what
-- the code keeps where `i` is the first.
abbrev pub look_back : Data → ℕ → Transition → ℤ → Option (Transition × ℤ)
look_back z zero prior_trans prior = some (prior_trans, prior)
look_back z (suc i) prior_trans prior = do
  prior_trans' ← transition z i
  prior' ← prior_second z (suc i) prior_trans'
  some (prior_trans', prior')

-- The answer at the transition `i`, or that of the transition before it.
abbrev pub choose : Data → Bool → ℕ → Transition → Option LocalTime
choose z post_transition i prior_trans =
    if post_transition
    then local_of z (transition z i)
    else at z.localtimes prior_trans.localtime_idx

-- From the index that `upper_bound` gives, which is not the end.
unfoldable pub find_between : Data → ℤ → Bool → ℕ → Option LocalTime
find_between z localtime post_transition i = do
  prior_trans ← transition z (i - 1)
  prior ← prior_second z i prior_trans
  if ltb_ℤ prior localtime then choose z post_transition i prior_trans else do
    (prior_trans, prior) ← look_back z (i - 1) prior_trans prior
    if not (ltb_ℤ prior localtime)
        then choose z post_transition (i - 1) prior_trans
        else local_of z (transition z (i - 1))

unfoldable pub find_by_local : Data → DateTime → Bool → Option LocalTime
find_by_local z lt post_transition = from_utc_time lt >>= λ localtime.
    if before_all (λ tr. tr.localtime) localtime z.transitions then get_elem? z.localtimes 0 else do
      i ← upper_bound (λ tr. tr.localtime) localtime z.transitions
      assert (not (i == 0))
      if i == length z.transitions
          then local_of z (back z)
          else find_between z localtime post_transition i

-- The local time and, for the caller who asks for it, the offset.
unfoldable pub to_local_time : TimeZone → ℤ → Option (DateTime × ℤ)
to_local_time zone seconds = do
  z ← zone.zone_data
  lt ← find_by_utc z seconds
  local_seconds ← add_int64 seconds lt.utc_offset
  dt ← break_time local_seconds
  some (dt, lt.utc_offset)

unfoldable pub from_local_time : TimeZone → DateTime → Bool → Option ℤ
from_local_time zone localtime post_transition = do
  z ← zone.zone_data
  lt ← find_by_local z localtime post_transition
  local_seconds ← from_utc_time localtime
  sub_int64 local_seconds lt.utc_offset
