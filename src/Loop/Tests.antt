-- ===== src/Loop/Tests.antt =====
-- The theorem of the loop at a concrete run.
use rfcs.Common.{◌≡◌, refl, true, some}
use rfcs.Loop.{
  EventLoop, init, polling, handling, begin_loop, poll_returns, queue_in_loop, queue_from_outside,
}
use rfcs.Loop.Wakeup.{
  Awake, at_start, after, begins, poll_ends, handler_queues, outside_queues, Reaches-Awake,
}

abbrev sleeping : EventLoop
sleeping = record init { looping = true; phase = polling }

sleeping-begun : begin_loop init ≡ some sleeping
unfolding begin_loop
sleeping-begun = refl

abbrev handles : EventLoop
handles = poll_returns sleeping

handles-phase : handles.phase ≡ handling
unfolding poll_returns
handles-phase = refl

-- A handler and another thread queue one functor each.
abbrev both : EventLoop
both = queue_from_outside 2 (queue_in_loop 1 handles)

Reaches-Awake_example : Awake both
Reaches-Awake_example = Reaches-Awake both (
    after
      (after (after (after at_start (begins refl refl sleeping-begun)) (poll_ends refl))
        (handler_queues 1 handles-phase))
      (outside_queues 2))
