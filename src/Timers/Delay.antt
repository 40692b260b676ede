-- ===== src/Timers/Delay.antt =====
-- The time for which the timerfd is set.
use rfcs.Common.{ℕ, ◌+◌, ◌-◌, ◌*◌, ◌<◌, ◌≡◌, max, arith}
use rfcs.Timers.Queue.{how_much_time_from_now}

-- The seconds and nanoseconds are those from now on to the expiration, or 100 microseconds if that
-- is sooner or past; and the nanoseconds are less than a second.
pub how_much_time_from_now-is :
    (now when : ℕ)
    → (((how_much_time_from_now now when).0 * 1000000000 + (how_much_time_from_now now when).1)
        ≡ max (when - now) 100 * 1000)
      × ((how_much_time_from_now now when).1 < 1000000000)
unfolding how_much_time_from_now
how_much_time_from_now-is now when = ground arith
