-- ===== src/Channel/Dispatch.antt =====
-- Which callbacks an event calls, and in which order.
use rfcs.Common.{ℕ, ◌≡◌, ◌+◌, ◌≤◌, Bool, true, false, not, ◌&&◌, ◌||◌, List, [], ◌∷◌, arith}
use rfcs.Channel.{Events, Callbacks, Call, close, error, read, write, Channel, handle_event}

-- The order of the calls within one event.
abbrev pub rank : Call → ℕ
rank close = 0
rank error = 1
rank read = 2
rank write = 3

abbrev pub Ascends : ℕ → List Call → Type 0
Ascends n [] = Unit {0}
Ascends n (c ∷ cs) = (n ≤ rank c) × Ascends (rank c + 1) cs

abbrev pub same : Call → Call → Bool
same close close = true
same error error = true
same read read = true
same write write = true
same _ _ = false

abbrev pub called : Call → List Call → Bool
called k [] = false
called k (c ∷ cs) = same k c || called k cs

-- When each callback is due: at which events it is called, if it is set.
abbrev pub due : Callbacks → Events → Call → Bool
due cb r close = cb.has_close && (r.pollhup && not r.pollin)
due cb r error = cb.has_error && (r.pollerr || r.pollnval)
due cb r read = cb.has_read && (r.pollin || r.pollpri || r.pollrdhup)
due cb r write = cb.has_write && r.pollout

-- A callback is called just when it is due, and the tied object, if there is one, is alive.
pub handle_event-due :
    (alive : Bool) (cb : Callbacks) (c : Channel) (k : Call)
    → called k (handle_event alive cb c) ≡ ((alive || not c.tied) && due cb c.revents k)
unfolding handle_event
handle_event-due alive cb c close = ground arith
handle_event-due alive cb c error = ground arith
handle_event-due alive cb c read = ground arith
handle_event-due alive cb c write = ground arith

-- Each callback is called at most once, close before error before read before write.
pub handle_event-Ascends :
    (alive : Bool) (cb : Callbacks) (c : Channel) → Ascends 0 (handle_event alive cb c)
unfolding handle_event
handle_event-Ascends alive cb c = ground arith
