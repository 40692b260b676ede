-- ===== src/Loop.antt =====
-- muduo/net/EventLoop.h and EventLoop.cc: the functors that wait in a loop, and its wakeup.
-- A function here is one atomic step of the loop's thread, or of another thread: `queueInLoop` of
-- another thread is two, since the mutex is free before the wakeup. A functor is a number; what it
-- does in the loop are further steps. `wakers` are the threads between the two steps, `woken` is
-- the counter of the eventfd. `history` and `ran` record the functors that were queued and run.
pub mod Wakeup
mod Tests
use rfcs.Common.{
  ℕ, ◌+◌, Bool, true, false, not, ◌||◌, List, [], ◌∷◌, ◌++◌, Option, some, none, if◌then◌else◌,
  ◌>>◌, assert,
}

-- Where the loop's thread is: outside `loop`, in `poll`, in the handling of the events, before the
-- swap of `doPendingFunctors`, or in its loop, with the functors that are left.
pub data Phase : Type 0 where
  stopped polling handling swapping : Phase
  running : List ℕ → Phase

pub record EventLoop : Type 0 where
  pub phase : Phase
  pub looping : Bool
  pub quit : Bool
  pub event_handling : Bool
  pub calling_pending_functors : Bool
  pub pending : List ℕ
  pub woken : ℕ
  pub wakers : ℕ
  pub history : List ℕ
  pub ran : List ℕ

abbrev pub init : EventLoop
init = record {
  phase = stopped;
  looping = false;
  quit = false;
  event_handling = false;
  calling_pending_functors = false;
  pending = [];
  woken = 0;
  wakers = 0;
  history = [];
  ran = [];
}

abbrev pub wakeup : EventLoop → EventLoop
wakeup l = record l { woken = l.woken + 1 }

-- `handleRead`: the eventfd counts from 0 again.
abbrev pub handle_read : EventLoop → EventLoop
handle_read l = record l { woken = 0 }

abbrev pub push : ℕ → EventLoop → EventLoop
push f l = record l { pending = l.pending ++ f ∷ []; history = l.history ++ f ∷ [] }

-- `queueInLoop` in the loop's thread.
unfoldable pub queue_in_loop : ℕ → EventLoop → EventLoop
queue_in_loop f l = if l.calling_pending_functors then wakeup (push f l) else push f l

-- `queueInLoop` in another thread, and `quit` there: the wakeup is a step of its own.
unfoldable pub queue_from_outside : ℕ → EventLoop → EventLoop
queue_from_outside f l = record (push f l) { wakers = l.wakers + 1 }

unfoldable pub quit_from_outside : EventLoop → EventLoop
quit_from_outside l = record l { quit = true; wakers = l.wakers + 1 }

unfoldable pub wake_from_outside : ℕ → EventLoop → EventLoop
wake_from_outside left l = wakeup (record l { wakers = left })

unfoldable pub quit_in_loop : EventLoop → EventLoop
quit_in_loop l = record l { quit = true }

-- `loop` up to the first `poll`
unfoldable pub begin_loop : EventLoop → Option EventLoop
begin_loop l =
    assert (not l.looping) >> some (record l { looping = true; quit = false; phase = polling })

unfoldable pub poll_returns : EventLoop → EventLoop
poll_returns l = record l { phase = handling; event_handling = true }

unfoldable pub begin_pending : EventLoop → EventLoop
begin_pending l = record l {
  phase = swapping;
  event_handling = false;
  calling_pending_functors = true;
}

unfoldable pub swap_pending : EventLoop → EventLoop
swap_pending l = record l { phase = running l.pending; pending = [] }

unfoldable pub run_functor : ℕ → List ℕ → EventLoop → EventLoop
run_functor f fs l = record l { phase = running fs; ran = l.ran ++ f ∷ [] }

-- The end of `doPendingFunctors`, and the test of the loop.
unfoldable pub end_round : EventLoop → EventLoop
end_round l =
    let done = record l { calling_pending_functors = false } in
    if done.quit
    then record done { phase = stopped; looping = false }
    else record done { phase = polling }
