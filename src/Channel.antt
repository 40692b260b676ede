-- ===== src/Channel.antt =====
-- muduo/net/Channel.h and Channel.cc: the events of one file descriptor and their dispatch.
-- A mask of `poll` flags is a record of Booleans, one for each flag that the code names. `none` is a
-- failed assertion.
pub mod Dispatch
mod Tests
use rfcs.Common.{
  ℕ, ◌≡◌, Bool, true, false, not, ◌&&◌, ◌||◌, List, [], ◌∷◌, ◌++◌, Option, some, none,
  if◌then◌else◌, ◌>>=◌, ◌>>◌, assert,
}
use rfcs.Common.Int.{ℤ, negsuc}

pub record Events : Type 0 where
  pub pollin : Bool
  pub pollpri : Bool
  pub pollout : Bool
  pub pollerr : Bool
  pub pollhup : Bool
  pub pollnval : Bool
  pub pollrdhup : Bool

abbrev pub none_event : Events
none_event = record {
  pollin = false;
  pollpri = false;
  pollout = false;
  pollerr = false;
  pollhup = false;
  pollnval = false;
  pollrdhup = false;
}

pub record Channel : Type 0 where
  pub fd : ℕ
  pub events : Events
  pub revents : Events
  pub index : ℤ
  pub log_hup : Bool
  pub tied : Bool
  pub event_handling : Bool
  pub added_to_loop : Bool

abbrev pub init : ℕ → Channel
init fd = record {
  fd = fd;
  events = none_event;
  revents = none_event;
  index = negsuc 0;
  log_hup = true;
  tied = false;
  event_handling = false;
  added_to_loop = false;
}

-- The flags of `events_` that the class sets: POLLIN and POLLPRI to read, POLLOUT to write.
abbrev pub is_none_event : Channel → Bool
is_none_event c = not (c.events.pollin || c.events.pollpri || c.events.pollout)

abbrev pub is_writing : Channel → Bool
is_writing c = c.events.pollout

abbrev pub is_reading : Channel → Bool
is_reading c = c.events.pollin || c.events.pollpri

-- `update` marks the channel; the poller, which it tells, is modelled apart.
abbrev pub update : Channel → Channel
update c = record c { added_to_loop = true }

abbrev pub enable_reading : Channel → Channel
enable_reading c =
    update (record c { events = record (c.events) { pollin = true; pollpri = true } })

abbrev pub disable_reading : Channel → Channel
disable_reading c =
    update (record c { events = record (c.events) { pollin = false; pollpri = false } })

abbrev pub enable_writing : Channel → Channel
enable_writing c = update (record c { events = record (c.events) { pollout = true } })

abbrev pub disable_writing : Channel → Channel
disable_writing c = update (record c { events = record (c.events) { pollout = false } })

abbrev pub disable_all : Channel → Channel
disable_all c = update (record c { events = none_event })

-- `assert(isNoneEvent())` comes first.
abbrev pub remove : Channel → Option Channel
remove c = assert (is_none_event c) >> some (record c { added_to_loop = false })

abbrev pub tie : Channel → Channel
tie c = record c { tied = true }

-- The callbacks that are set, and those that are called.
pub record Callbacks : Type 0 where
  pub has_read : Bool
  pub has_write : Bool
  pub has_close : Bool
  pub has_error : Bool

pub data Call : Type 0 where
  close error read write : Call

abbrev call_if : Bool → Call → List Call
call_if b c = if b then c ∷ [] else []

-- The calls of `handleEventWithGuard`, in order. A callback may change the channel; the flags that
-- are tested are those of `revents_`, which only the poller sets.
unfoldable pub handle_event_with_guard : Callbacks → Events → List Call
handle_event_with_guard cb r =
    call_if (r.pollhup && not r.pollin && cb.has_close) close
    ++ (call_if ((r.pollerr || r.pollnval) && cb.has_error) error
        ++ (call_if ((r.pollin || r.pollpri || r.pollrdhup) && cb.has_read) read
            ++ call_if (r.pollout && cb.has_write) write))

-- `alive` says whether the tied object still exists.
unfoldable pub handle_event : Bool → Callbacks → Channel → List Call
unfolding handle_event_with_guard
handle_event alive cb c =
    if c.tied
    then (if alive then handle_event_with_guard cb c.revents else [])
    else handle_event_with_guard cb c.revents
