-- ===== src/Tcp/Lifecycle.antt =====
-- The states of a connection, and the connection callback that announces them.
use rfcs.Common.{
  ℕ, ◌-◌, length, drop, ◌≡◌, refl, ap, ◌∙◌, Bool, true, false, List, [], ◌∷◌, ◌++◌, Option, some,
  none, arith, ◌>>=◌, >>=-eq-some,
}
use rfcs.Buffer.{Buffer, append, readable_bytes, add_size}
use rfcs.Buffer.ReadFd.{ReadResult, received, failed, read_fd}
use rfcs.Channel.{is_reading}
use rfcs.Channel
use rfcs.Tcp.{
  force_close_with_delay, start_read, stop_read, TcpConnection, State, disconnected, connecting,
  connected, disconnecting, Call, connection, message, closed, WriteResult, send_in_loop,
  after_write, keep_rest, keep_output, try_write, send, shutdown_in_loop, shutdown, handle_close,
  force_close, force_close_in_loop, start_read_in_loop, stop_read_in_loop, connect_established,
  connect_destroyed, after_read, handle_read, after_handle_write, handle_write,
}

-- The operations of a connection, with what the environment answers, one whole operation after the
-- other: `shutdown` and the forced closes are called in the thread of the loop, while `send`,
-- `startRead` and `stopRead`, which change no state in another thread, may be called from any.
pub data Op : Type 0 where
  sends : Bool → WriteResult → List ℕ → Op
  sends_in_loop : WriteResult → List ℕ → Op
  shuts_down shuts_down_in_loop force_closes force_closes_with_delay force_closes_in_loop
        starts_read_in_loop stops_read_in_loop :
      Op
  starts_read stops_read : Bool → Op
  established destroyed : Op
  reads : (ℕ → ReadResult) → Op
  writes : WriteResult → Op

unfoldable pub step : Op → TcpConnection → Option TcpConnection
step (sends in_loop answer bytes) c = send in_loop answer bytes c
step (sends_in_loop answer bytes) c = send_in_loop answer bytes c
step shuts_down c = some (shutdown true c)
step shuts_down_in_loop c = some (shutdown_in_loop c)
step force_closes c = some (force_close c)
step force_closes_in_loop c = force_close_in_loop c
step force_closes_with_delay c = some (force_close_with_delay c)
step starts_read_in_loop c = some (start_read_in_loop c)
step stops_read_in_loop c = some (stop_read_in_loop c)
step (starts_read in_loop) c = some (start_read in_loop c)
step (stops_read in_loop) c = some (stop_read in_loop c)
step established c = connect_established c
step destroyed c = connect_destroyed c
step (reads readv) c = handle_read readv c
step (writes answer) c = handle_write answer c

unfoldable pub run : List Op → TcpConnection → Option TcpConnection
unfolding step
run [] c = some c
run (op ∷ ops) c = step op c >>= run ops

-- What the connection callback has been told, oldest first: true for up, false for down.
abbrev pub told : List Call → List Bool
told [] = []
told (connection b ∷ cs) = b ∷ told cs
told (_ ∷ cs) = told cs

abbrev pub should_be_told : State → List Bool
should_be_told connecting = []
should_be_told connected = true ∷ []
should_be_told disconnecting = true ∷ []
should_be_told disconnected = true ∷ false ∷ []

abbrev pub IsAnnounced : TcpConnection → Type 0
IsAnnounced c = told c.calls ≡ should_be_told c.state

told-append : (cs ds : List Call) → told (cs ++ ds) ≡ told cs ++ told ds
told-append [] ds = refl
told-append (connection b ∷ cs) ds = ap (λ l. b ∷ l) (told-append cs ds)
told-append (message ∷ cs) ds = told-append cs ds
told-append (closed ∷ cs) ds = told-append cs ds

-- An operation that changes neither the state nor the calls.
abbrev Quiet : TcpConnection → Option TcpConnection → Type 0
Quiet c none = Unit {0}
Quiet c (some c') = (c'.state ≡ c.state) × (c'.calls ≡ c.calls)

keep_output-quiet :
    (m n : ℕ) (c : TcpConnection) (b : Buffer)
    → ((keep_output m n c b).state ≡ c.state) × ((keep_output m n c b).calls ≡ c.calls)
unfolding keep_output
keep_output-quiet m n c b = ground arith

Quiet->>= :
    (c : TcpConnection) (r : Option Buffer) (f : Buffer → TcpConnection)
    → ((b : Buffer) → ((f b).state ≡ c.state) × ((f b).calls ≡ c.calls))
    → Quiet c (r >>= λ b. some (f b))
Quiet->>= c none f h = tt
Quiet->>= c (some b) f h = h b

keep_rest-Quiet : (bytes : List ℕ) (c : TcpConnection) (n : ℕ) → Quiet c (keep_rest bytes c n)
unfolding keep_rest
keep_rest-Quiet bytes c n = Quiet->>= c (append c.output (drop n bytes)) _ (
    keep_output-quiet (readable_bytes c.output)
      (add_size (readable_bytes c.output) (length bytes - n)) c)

try_write-quiet :
    (answer : WriteResult) (bytes : List ℕ) (c : TcpConnection)
    → ((try_write answer bytes c).0.state ≡ c.state)
      × ((try_write answer bytes c).0.calls ≡ c.calls)
unfolding try_write
try_write-quiet answer bytes c = ground arith

after_write-Quiet :
    (bytes : List ℕ) (c : TcpConnection) (n : ℕ) (b : Bool) → Quiet c (after_write bytes (c, n, b))
unfolding after_write
after_write-Quiet bytes c n b = ground (arith, keep_rest-Quiet bytes c n)

send_in_loop-Quiet :
    (answer : WriteResult) (bytes : List ℕ) (c : TcpConnection)
    → Quiet c (send_in_loop answer bytes c)
unfolding send_in_loop
send_in_loop-Quiet answer bytes c =
    let (d, n, b) = try_write answer bytes c in
    ground (
      arith,
      try_write-quiet answer bytes c,
      after_write-Quiet bytes d n b,
      after_write-Quiet bytes c 0 false,
    )

after_handle_write-Quiet :
    (answer : WriteResult) (c : TcpConnection) → Quiet c (after_handle_write c answer)
unfolding after_handle_write
after_handle_write-Quiet answer c = ground arith

handle_write-Quiet : (answer : WriteResult) (c : TcpConnection) → Quiet c (handle_write answer c)
unfolding handle_write
handle_write-Quiet answer c = ground (arith, after_handle_write-Quiet answer c)

Quiet-IsAnnounced :
    (c : TcpConnection) (r : Option TcpConnection) (c' : TcpConnection)
    → Quiet c r
    → IsAnnounced c
    → r ≡ some c'
    → IsAnnounced c'
Quiet-IsAnnounced c none c' q a e = cc
Quiet-IsAnnounced c (some d) c' q a e = ground arith

-- An operation of the life cycle.
handle_close-IsAnnounced :
    (c c' : TcpConnection) → IsAnnounced c → handle_close c ≡ some c' → IsAnnounced c'
unfolding handle_close
handle_close-IsAnnounced c c' a e = ground (
  arith,
  told-append c.calls (connection false ∷ []),
  told-append (c.calls ++ connection false ∷ []) (closed ∷ []),
)

after_read-IsAnnounced :
    (c c' : TcpConnection) (r : ReadResult × Buffer)
    → IsAnnounced c
    → after_read c r ≡ some c'
    → IsAnnounced c'
unfolding after_read
after_read-IsAnnounced c c' (failed n, b) a e = ground arith
after_read-IsAnnounced c c' (received [], b) a e =
    handle_close-IsAnnounced (record c { input = b }) c' a e
after_read-IsAnnounced c c' (received (x ∷ xs), b) a e =
    ground (arith, told-append c.calls (message ∷ []))

shutdown_in_loop-quiet :
    (c : TcpConnection)
    → ((shutdown_in_loop c).state ≡ c.state) × ((shutdown_in_loop c).calls ≡ c.calls)
unfolding shutdown_in_loop
shutdown_in_loop-quiet c = ground arith

shutdown-IsAnnounced :
    (in_loop : Bool) (c : TcpConnection) → IsAnnounced c → IsAnnounced (shutdown in_loop c)
unfolding shutdown
shutdown-IsAnnounced in_loop c a =
    ground (arith, shutdown_in_loop-quiet (record c { state = disconnecting }))

force_close-IsAnnounced : (c : TcpConnection) → IsAnnounced c → IsAnnounced (force_close c)
unfolding force_close
force_close-IsAnnounced c a = ground arith

connect_established-IsAnnounced :
    (c c' : TcpConnection) → IsAnnounced c → connect_established c ≡ some c' → IsAnnounced c'
unfolding connect_established
connect_established-IsAnnounced c c' a e =
    ground (arith, told-append c.calls (connection true ∷ []))

connect_destroyed-IsAnnounced :
    (c c' : TcpConnection) → IsAnnounced c → connect_destroyed c ≡ some c' → IsAnnounced c'
unfolding connect_destroyed
connect_destroyed-IsAnnounced c c' a e = ground (arith, told-append c.calls (connection false ∷ []))

force_close_in_loop-IsAnnounced :
    (c c' : TcpConnection) → IsAnnounced c → force_close_in_loop c ≡ some c' → IsAnnounced c'
unfolding force_close_in_loop
force_close_in_loop-IsAnnounced c c' a e = ground (arith, handle_close-IsAnnounced c c')

handle_read-IsAnnounced :
    (readv : ℕ → ReadResult) (c c' : TcpConnection)
    → IsAnnounced c
    → handle_read readv c ≡ some c'
    → IsAnnounced c'
unfolding handle_read
handle_read-IsAnnounced readv c c' a e =
    let (r, h, k) = >>=-eq-some (read_fd readv c.input) (after_read c) e in
    after_read-IsAnnounced c c' r a k

start_read_in_loop-Quiet : (c : TcpConnection) → Quiet c (some (start_read_in_loop c))
unfolding start_read_in_loop
start_read_in_loop-Quiet c = ground arith

stop_read_in_loop-Quiet : (c : TcpConnection) → Quiet c (some (stop_read_in_loop c))
unfolding stop_read_in_loop
stop_read_in_loop-Quiet c = ground arith

send-Quiet :
    (in_loop : Bool) (answer : WriteResult) (bytes : List ℕ) (c : TcpConnection)
    → Quiet c (send in_loop answer bytes c)
unfolding send
send-Quiet in_loop answer bytes c = ground (arith, send_in_loop-Quiet answer bytes c)

start_read-Quiet : (in_loop : Bool) (c : TcpConnection) → Quiet c (some (start_read in_loop c))
unfolding start_read
start_read-Quiet in_loop c = ground (arith, start_read_in_loop-Quiet c)

stop_read-Quiet : (in_loop : Bool) (c : TcpConnection) → Quiet c (some (stop_read in_loop c))
unfolding stop_read
stop_read-Quiet in_loop c = ground (arith, stop_read_in_loop-Quiet c)

force_close_with_delay-IsAnnounced :
    (c : TcpConnection) → IsAnnounced c → IsAnnounced (force_close_with_delay c)
unfolding force_close_with_delay
force_close_with_delay-IsAnnounced c a = ground arith

step-IsAnnounced :
    (op : Op) (c c' : TcpConnection) → IsAnnounced c → step op c ≡ some c' → IsAnnounced c'
unfolding step
step-IsAnnounced (sends in_loop answer bytes) c c' a e =
    Quiet-IsAnnounced c _ c' (send-Quiet in_loop answer bytes c) a e
step-IsAnnounced (sends_in_loop answer bytes) c c' a e =
    Quiet-IsAnnounced c _ c' (send_in_loop-Quiet answer bytes c) a e
step-IsAnnounced shuts_down c c' a e = ground (arith, shutdown-IsAnnounced true c a)
step-IsAnnounced shuts_down_in_loop c c' a e =
    Quiet-IsAnnounced c _ c' (shutdown_in_loop-quiet c) a e
step-IsAnnounced force_closes c c' a e = ground (arith, force_close-IsAnnounced c a)
step-IsAnnounced force_closes_with_delay c c' a e =
    ground (arith, force_close_with_delay-IsAnnounced c a)
step-IsAnnounced (starts_read in_loop) c c' a e =
    Quiet-IsAnnounced c _ c' (start_read-Quiet in_loop c) a e
step-IsAnnounced (stops_read in_loop) c c' a e =
    Quiet-IsAnnounced c _ c' (stop_read-Quiet in_loop c) a e
step-IsAnnounced force_closes_in_loop c c' a e = force_close_in_loop-IsAnnounced c c' a e
step-IsAnnounced starts_read_in_loop c c' a e =
    Quiet-IsAnnounced c _ c' (start_read_in_loop-Quiet c) a e
step-IsAnnounced stops_read_in_loop c c' a e =
    Quiet-IsAnnounced c _ c' (stop_read_in_loop-Quiet c) a e
step-IsAnnounced established c c' a e = connect_established-IsAnnounced c c' a e
step-IsAnnounced destroyed c c' a e = connect_destroyed-IsAnnounced c c' a e
step-IsAnnounced (reads readv) c c' a e = handle_read-IsAnnounced readv c c' a e
step-IsAnnounced (writes answer) c c' a e =
    Quiet-IsAnnounced c _ c' (handle_write-Quiet answer c) a e

-- Whatever a connection is asked, in whatever order, and whatever the system answers, as long as
-- `shutdown` and the forced closes are called in the thread of the loop and no assertion fails: the
-- connection callback has been told nothing while the connection is connecting, up once while it is
-- connected or disconnecting, and up once and then down once when it is disconnected, if this held
-- before.
pub run-IsAnnounced :
    (ops : List Op) (c c' : TcpConnection) → IsAnnounced c → run ops c ≡ some c' → IsAnnounced c'
unfolding run
run-IsAnnounced [] c c' a e = ground arith
run-IsAnnounced (op ∷ ops) c c' a e =
    let (d, h, k) = >>=-eq-some (step op c) (run ops) e in
    run-IsAnnounced ops d c' (step-IsAnnounced op c d a h) k

shutdown-channel :
    (in_loop : Bool) (c : TcpConnection)
    → c.state ≡ connected
    → ((shutdown in_loop c).state ≡ disconnecting) × ((shutdown in_loop c).channel ≡ c.channel)
unfolding shutdown shutdown_in_loop
shutdown-channel in_loop c s = ground arith

remove-reading : (c : Channel.Channel) → is_reading c ≡ true → Channel.remove c ≡ none
remove-reading c r = ground arith

connect_destroyed-disconnecting :
    (c : TcpConnection)
    → c.state ≡ disconnecting
    → is_reading c.channel ≡ true
    → connect_destroyed c ≡ none
unfolding connect_destroyed
connect_destroyed-disconnecting c s r = ground (arith, remove-reading c.channel r)

-- When a connected connection that reads has been shut down, and the peer has not closed yet,
-- `connectDestroyed` fails the assertion of `Channel::remove`.
pub connect_destroyed-shutdown :
    (in_loop : Bool) (c : TcpConnection)
    → c.state ≡ connected
    → is_reading c.channel ≡ true
    → connect_destroyed (shutdown in_loop c) ≡ none
connect_destroyed-shutdown in_loop c s r =
    let (t, k) = shutdown-channel in_loop c s in
    connect_destroyed-disconnecting (shutdown in_loop c) t (ap (λ x. is_reading x) k ∙ r)
