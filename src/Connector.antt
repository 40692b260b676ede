-- ===== src/Connector.antt =====
-- muduo/net/Connector.h and Connector.cc: the attempts to connect, with their retries.
-- The answers of the system calls are arguments: a new socket, what `connect` says, SO_ERROR, and
-- whether the socket is connected to itself. What the connector asks of its loop, of the system and
-- of its user is recorded: timers in milliseconds, and sockets, newest first; queued functors in
-- order. `none` is a failed assertion, or a use of the channel when there is none.
pub mod Sound
pub mod Calls
pub mod Sockets
pub mod Backoff
mod Tests
use rfcs.Common.{
  ℕ, ◌*◌, min, Bool, true, false, List, [], ◌∷◌, ◌++◌, Option, some, none, if◌then◌else◌, ◌>>=◌,
  ◌>>◌, assert,
}
use rfcs.Channel.{Channel, disable_all, enable_writing}
use rfcs.Channel

pub data State : Type 0 where
  disconnected connecting connected : State

pub data Functor : Type 0 where
  starts stops resets_channel : Functor

pub record Connector : Type 0 where
  pub connect : Bool
  pub state : State
  pub channel : Option Channel
  pub retry_delay : ℕ
  pub timers : List ℕ
  pub queued : List Functor
  pub opened : List ℕ
  pub closed : List ℕ
  pub handed : List ℕ

-- What `connect` says: it goes on, it may be tried again, or it fails for good.
pub data ConnectResult : Type 0 where
  in_progress try_again failed : ConnectResult

abbrev pub max_retry_delay : ℕ
max_retry_delay = 30 * 1000

abbrev pub init_retry_delay : ℕ
init_retry_delay = 500

abbrev pub init : Connector
init = record {
  connect = false;
  state = disconnected;
  channel = none;
  retry_delay = init_retry_delay;
  timers = [];
  queued = [];
  opened = [];
  closed = [];
  handed = [];
}

abbrev pub is_disconnected : State → Bool
is_disconnected disconnected = true
is_disconnected _ = false

abbrev pub is_connecting : State → Bool
is_connecting connecting = true
is_connecting _ = false

abbrev pub is_none : Option Channel → Bool
is_none none = true
is_none (some c) = false

abbrev pub close : ℕ → Connector → Connector
close sockfd c = record c { closed = sockfd ∷ c.closed }

abbrev pub queue : Functor → Connector → Connector
queue f c = record c { queued = c.queued ++ f ∷ [] }

unfoldable pub retry : ℕ → Connector → Connector
retry sockfd c =
    let d = record (close sockfd c) { state = disconnected } in
    if d.connect
    then record d {
      timers = d.retry_delay ∷ d.timers;
      retry_delay = min (d.retry_delay * 2) max_retry_delay;
    }
    else d

unfoldable pub begin_connecting : ℕ → Connector → Option Connector
begin_connecting sockfd c = do
  assert (is_none c.channel)
  some (record c { state = connecting; channel = some (enable_writing (Channel.init sockfd)) })

-- `connect`
unfoldable pub try_connect : ℕ → ConnectResult → Connector → Option Connector
unfolding retry begin_connecting
try_connect sockfd in_progress c = begin_connecting sockfd (record c { opened = sockfd ∷ c.opened })
try_connect sockfd try_again c = some (retry sockfd (record c { opened = sockfd ∷ c.opened }))
try_connect sockfd failed c = some (close sockfd (record c { opened = sockfd ∷ c.opened }))

unfoldable pub start_in_loop : ℕ → ConnectResult → Connector → Option Connector
unfolding try_connect
start_in_loop sockfd answer c =
    assert (is_disconnected c.state) >> (if c.connect then try_connect sockfd answer c else some c)

-- `start`, from the loop's thread or from another one.
unfoldable pub start : Bool → ℕ → ConnectResult → Connector → Option Connector
unfolding start_in_loop
start true sockfd answer c = start_in_loop sockfd answer (record c { connect = true })
start false sockfd answer c = some (queue starts (record c { connect = true }))

unfoldable pub stop : Connector → Connector
stop c = queue stops (record c { connect = false })

-- `removeAndResetChannel`: the socket, and the channel stays until the loop runs the functor.
unfoldable pub remove_and_reset_channel : Connector → Option (ℕ × Connector)
remove_and_reset_channel c = c.channel >>= λ channel.
    Channel.remove (disable_all channel) >>= λ removed.
    some (removed.fd, queue resets_channel (record c { channel = some removed }))

unfoldable pub reset_channel : Connector → Connector
reset_channel c = record c { channel = none }

unfoldable pub stop_in_loop : Connector → Option Connector
unfolding retry remove_and_reset_channel
stop_in_loop c =
    if is_connecting c.state
    then (remove_and_reset_channel (record c { state = disconnected }) >>= λ (sockfd, d).
        some (retry sockfd d))
    else some c

unfoldable pub restart : ℕ → ConnectResult → Connector → Option Connector
unfolding start_in_loop
restart sockfd answer c =
    start_in_loop sockfd answer
      (record c { state = disconnected; retry_delay = init_retry_delay; connect = true })

-- The end of `handleWrite`, with SO_ERROR and the test of `isSelfConnect`.
unfoldable pub connection_made : Bool → Bool → ℕ × Connector → Connector
unfolding retry
connection_made has_error is_self (sockfd, c) =
    if has_error
    then retry sockfd c
    else if is_self
    then retry sockfd c
    else (let d = record c { state = connected } in
        if d.connect then record d { handed = sockfd ∷ d.handed } else close sockfd d)

unfoldable pub handle_write : Bool → Bool → Connector → Option Connector
unfolding connection_made remove_and_reset_channel
handle_write has_error is_self c =
    if is_connecting c.state
    then (remove_and_reset_channel c >>= λ r. some (connection_made has_error is_self r))
    else (assert (is_disconnected c.state) >> some c)

unfoldable pub handle_error : Connector → Option Connector
unfolding retry remove_and_reset_channel
handle_error c =
    if is_connecting c.state
    then (remove_and_reset_channel c >>= λ (sockfd, d). some (retry sockfd d))
    else some c

-- The loop runs the functor that has waited longest.
abbrev pub perform : Functor → ℕ → ConnectResult → Connector → Option Connector
perform starts sockfd answer c = start_in_loop sockfd answer c
perform stops sockfd answer c = stop_in_loop c
perform resets_channel sockfd answer c = some (reset_channel c)

unfoldable pub run_queued : ℕ → ConnectResult → Connector → Option Connector
unfolding start_in_loop stop_in_loop reset_channel
run_queued sockfd answer c = elim c.queued [
  | [] ↦ some c
  | f ∷ fs ↦ perform f sockfd answer (record c { queued = fs })
]
