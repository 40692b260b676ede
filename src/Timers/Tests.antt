-- ===== src/Timers/Tests.antt =====
-- The theorems of the timer queue at concrete queues.
use rfcs.Common.{ℕ, ◌≡◌, refl, true, false, List, [], ◌∷◌, some, none, if◌then◌else◌, ◌==◌, arith}
use rfcs.Timers.Sets.{has, insert, erase, before, from}
use rfcs.Timers.Queue.{
  Timer, TimerQueue, Command, adds, cancels, init, handle_read, cancel_in_loop, get_expired,
  erase_active, perform, perform_all, reset_timers,
}
use rfcs.Timers.Sound.{Sound}
use rfcs.Timers.Calls.{cancel_in_loop-stops}
use rfcs.Timers.Expiry.{due}
use rfcs.Timers.Reset.{Resets, reset_timers-Resets}
use rfcs.Timers.Round.{fits_round, fits_all, round_fits, callbacks, Alarm, handle_read-runs}

-- A timer that repeats, and one that does not.
abbrev ticks : Timer
ticks = record { callback = 1; expiration = 50; interval = 30; repeat = true; sequence = 1 }

abbrev once : Timer
once = record { callback = 2; expiration = 90; interval = 0; repeat = false; sequence = 2 }

abbrev two : TimerQueue
two = record init {
  timers = (50, 64) ∷ (90, 32) ∷ [];
  active = (32, 2) ∷ (64, 1) ∷ [];
  heap = λ p. if p == 64 then some ticks else if p == 32 then some once else none;
  num_created = 2;
  armed = some 50;
}

two-Sound : Sound two []
two-Sound = record {
  timers_sorted = ground arith;
  active_sorted = ground arith;
  same_size = refl;
  entries = λ when p h. ground arith;
  actives = λ p n h. ground arith;
  loose = tt;
}

-- The first timer cancels itself, and adds another one.
abbrev does : ℕ → List Command
does n = if n == 1 then cancels (64, 1) ∷ adds 16 3 200 0 false ∷ [] else []

does-fits : round_fits does 60 two ≡ true
unfolding round_fits fits_round fits_all get_expired erase_active before from erase perform insert
    perform_all
does-fits = refl

handle_read-runs_example :
    (after : TimerQueue) × (handle_read does 60 two ≡ some (callbacks two (due 60 two), after))
    × Sound after []
    × Alarm after
handle_read-runs_example = handle_read-runs does 60 two two-Sound (omega arith) does-fits

cancel_in_loop-stops_example :
    (after : TimerQueue) × (cancel_in_loop (64, 1) two ≡ some after)
    × Sound after []
    × (has 64 1 after.active ≡ false)
    × (has 64 1 two.active ≡ false → two.calling_expired ≡ true → has 64 1 after.canceling ≡ true)
cancel_in_loop-stops_example = cancel_in_loop-stops two [] 64 1 two-Sound

-- The first timer is out of the sets and has run.
abbrev after_first : TimerQueue
after_first = record two { timers = (90, 32) ∷ []; active = (32, 2) ∷ [] }

after_first-Sound : Sound after_first ((50, 64) ∷ [])
after_first-Sound = record {
  timers_sorted = ground arith;
  active_sorted = ground arith;
  same_size = refl;
  entries = λ when p h. ground arith;
  actives = λ p n h. ground arith;
  loose = (refl, refl, tt);
}

reset_timers-Resets_example :
    Resets 60 after_first ((50, 64) ∷ []) (reset_timers 60 ((50, 64) ∷ []) after_first)
reset_timers-Resets_example =
    reset_timers-Resets 60 ((50, 64) ∷ []) after_first (omega arith) after_first-Sound
