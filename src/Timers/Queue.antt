-- ===== src/Timers/Queue.antt =====
-- muduo/net/TimerQueue.h, TimerQueue.cc, Timer.h, Timer.cc, TimerId.h, and the Timestamp of
-- muduo/base/Timestamp.h: the timers of a loop, in the loop's thread. Times are microseconds since
-- the epoch. A timer is an object of the heap at its address; `new` finds a free address, which is
-- an argument. A callback is a number. `none` is a failed assertion, or the use of an object that
-- has been deleted.
use rfcs.Common.{
  ℕ, ◌+◌, ◌-◌, ◌*◌, ◌/◌, ◌%◌, ◌^◌, Bool, true, false, not, ◌&&◌, List, [], ◌∷◌, Option, some, none,
  if◌then◌else◌, ltb, ◌==◌, length, ◌>>=◌, ◌>>◌, assert,
}
use rfcs.Timers.Sets.{PairSet, has, insert, erase, before, from}

-- `interval` is in microseconds, as `addTime` adds it; `repeat` is its sign.
pub record Timer : Type 0 where
  pub callback : ℕ
  pub expiration : ℕ
  pub interval : ℕ
  pub repeat : Bool
  pub sequence : ℕ

-- `timers_` holds expirations and addresses, `activeTimers_` and `cancelingTimers_` addresses and
-- sequence numbers. `armed` is the time for which the timerfd was set last, until it is read.
pub record TimerQueue : Type 0 where
  pub timers : PairSet
  pub active : PairSet
  pub canceling : PairSet
  pub calling_expired : Bool
  pub heap : ℕ → Option Timer
  pub num_created : ℕ
  pub armed : Option ℕ

abbrev pub init : TimerQueue
init = record {
  timers = [];
  active = [];
  canceling = [];
  calling_expired = false;
  heap = λ p. none;
  num_created = 0;
  armed = none;
}

-- `UINTPTR_MAX`
abbrev pub max_address : ℕ
max_address = 2 ^ 64 - 1

abbrev pub store : ℕ → Option Timer → TimerQueue → TimerQueue
store p t q = record q { heap = λ p'. if p == p' then t else q.heap p' }

-- `howMuchTimeFromNow`: seconds and nanoseconds, for at least 100 microseconds.
unfoldable pub how_much_time_from_now : ℕ → ℕ → ℕ × ℕ
how_much_time_from_now now when =
    let ahead = when - now in
    let microseconds = if ltb ahead 100 then 100 else ahead in
    (microseconds / (1000 * 1000), (microseconds % (1000 * 1000)) * 1000)

abbrev pub reset_timerfd : ℕ → TimerQueue → TimerQueue
reset_timerfd expiration q = record q { armed = some expiration }

-- The test of `insert` before the sets change.
abbrev pub earliest_changed : ℕ → PairSet → Bool
earliest_changed when [] = true
earliest_changed when ((first, p) ∷ s) = ltb when first

unfoldable pub insert_timer : ℕ → TimerQueue → Option (Bool × TimerQueue)
insert_timer p q = do
  assert (length q.timers == length q.active)
  timer ← q.heap p
  let earliest = earliest_changed timer.expiration q.timers
  assert (not (has timer.expiration p q.timers))
  assert (not (has p timer.sequence q.active))
  let q' = record q {
    timers = insert timer.expiration p q.timers;
    active = insert p timer.sequence q.active;
  }
  assert (length q'.timers == length q'.active)
  some (earliest, q')

unfoldable pub add_timer_in_loop : ℕ → TimerQueue → Option TimerQueue
unfolding insert_timer
add_timer_in_loop p q = do
  (earliest, q') ← insert_timer p q
  timer ← q'.heap p
  some (if earliest then reset_timerfd timer.expiration q' else q')

-- `addTimer` in the loop's thread: the timer is made at a free address, and put in.
unfoldable pub add_timer :
    (address callback when interval : ℕ) → Bool → TimerQueue → Option ((ℕ × ℕ) × TimerQueue)
unfolding add_timer_in_loop
add_timer address callback when interval repeat q =
    let sequence = q.num_created + 1 in
    let timer : Timer = record {
      callback = callback;
      expiration = when;
      interval = interval;
      repeat = repeat;
      sequence = sequence;
    } in
    add_timer_in_loop address (store address (some timer) (record q { num_created = sequence }))
    >>= λ q'. some ((address, sequence), q')

unfoldable pub cancel_in_loop : ℕ × ℕ → TimerQueue → Option TimerQueue
cancel_in_loop (p, sequence) q = do
  assert (length q.timers == length q.active)
  q' ←
      if has p sequence q.active
      then (q.heap p >>= λ timer.
          assert (has timer.expiration p q.timers)
          >> some (
              store p none (record q {
                timers = erase timer.expiration p q.timers;
                active = erase p sequence q.active;
              })))
      else if q.calling_expired
      then some (record q { canceling = insert p sequence q.canceling })
      else some q
  assert (length q'.timers == length q'.active)
  some q'

-- The loop of `getExpired` over the entries that it has copied.
unfoldable pub erase_active : PairSet → TimerQueue → Option TimerQueue
erase_active [] q = some q
erase_active ((when, p) ∷ expired) q = q.heap p >>= λ timer.
    assert (has p timer.sequence q.active)
    >> erase_active expired (record q { active = erase p timer.sequence q.active })

-- `now < end->first`, if there is an end
abbrev pub is_after : ℕ → PairSet → Bool
is_after now [] = true
is_after now ((first, p) ∷ s) = ltb now first

unfoldable pub get_expired : ℕ → TimerQueue → Option (PairSet × TimerQueue)
unfolding erase_active
get_expired now q = do
  assert (length q.timers == length q.active)
  let expired = before now max_address q.timers
  let left = from now max_address q.timers
  assert (is_after now left)
  q' ← erase_active expired (record q { timers = left })
  assert (length q'.timers == length q'.active)
  some (expired, q')

-- `Timer::restart`
abbrev pub restart : ℕ → Timer → Timer
restart now timer = record timer { expiration = if timer.repeat then now + timer.interval else 0 }

-- A round of the loop of `reset`.
unfoldable pub reset_timer : ℕ → ℕ → TimerQueue → Option TimerQueue
unfolding insert_timer
reset_timer now p q = q.heap p >>= λ timer.
    if timer.repeat && not (has p timer.sequence q.canceling)
    then (insert_timer p (store p (some (restart now timer)) q) >>= λ (earliest, q'). some q')
    else some (store p none q)

unfoldable pub reset_timers : ℕ → PairSet → TimerQueue → Option TimerQueue
unfolding reset_timer
reset_timers now [] q = some q
reset_timers now ((when, p) ∷ expired) q = reset_timer now p q >>= λ q'. reset_timers now expired q'

-- The end of `reset`: the timerfd is set for the first timer, if its expiration is valid.
unfoldable pub rearm : TimerQueue → Option TimerQueue
rearm q = elim q.timers [
  | [] ↦ some q
  | (when, p) ∷ s ↦ q.heap p >>= λ timer.
      some (if ltb 0 timer.expiration then reset_timerfd timer.expiration q else q)
]

unfoldable pub reset : ℕ → PairSet → TimerQueue → Option TimerQueue
unfolding reset_timers rearm
reset now expired q = reset_timers now expired q >>= rearm

-- What a callback asks of the queue.
pub data Command : Type 0 where
  adds : (address callback when interval : ℕ) → Bool → Command
  cancels : ℕ × ℕ → Command

unfoldable pub perform : Command → TimerQueue → Option TimerQueue
unfolding add_timer cancel_in_loop
perform (adds address callback when interval repeat) q =
    add_timer address callback when interval repeat q >>= λ (id, q'). some q'
perform (cancels id) q = cancel_in_loop id q

unfoldable pub perform_all : List Command → TimerQueue → Option TimerQueue
unfolding perform
perform_all [] q = some q
perform_all (c ∷ cs) q = perform c q >>= λ q'. perform_all cs q'

-- The callbacks of the expired timers run one after the other; `does` tells what each asks.
unfoldable pub run_expired :
    (ℕ → List Command) → PairSet → TimerQueue → Option (List ℕ × TimerQueue)
unfolding perform_all
run_expired does [] q = some ([], q)
run_expired does ((when, p) ∷ expired) q = do
  timer ← q.heap p
  q' ← perform_all (does timer.callback) q
  (ran, q'') ← run_expired does expired q'
  some (timer.callback ∷ ran, q'')

-- `handleRead`: the callbacks that ran, and the queue.
unfoldable pub handle_read : (ℕ → List Command) → ℕ → TimerQueue → Option (List ℕ × TimerQueue)
unfolding get_expired run_expired reset
handle_read does now q = do
  (expired, q1) ← get_expired now (record q { armed = none })
  (ran, q2) ← run_expired does expired (record q1 { calling_expired = true; canceling = [] })
  q3 ← reset now expired (record q2 { calling_expired = false })
  some (ran, q3)
