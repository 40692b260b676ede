-- ===== src/Tcp.antt =====
-- muduo/net/TcpConnection.h and TcpConnection.cc: one connection, driven by its loop.
-- A callback of the user is recorded in `calls` where the code calls it; what it does on the
-- connection in turn is a further operation. A functor queued in the loop is recorded in `queued`.
-- The answers of the system calls are arguments. `none` is a failed assertion.
pub mod Lifecycle
pub mod Output
pub mod Stream
mod Tests
use rfcs.Common.{
  ℕ, ◌-◌, ◌*◌, Bool, true, false, not, ◌&&◌, ◌||◌, List, [], ◌∷◌, ◌++◌, Option, some, if◌then◌else◌,
  ltb, leb, ◌==◌, length, take, drop, ◌>>=◌, ◌>>◌, assert,
}
use rfcs.Buffer.{Buffer, readable_bytes, retrieve, append, add_size}
use rfcs.Buffer.ReadFd.{ReadResult, received, failed, read_fd}
use rfcs.Buffer.Valid.{contents}
use rfcs.Channel.{
  Channel, is_writing, is_reading, enable_reading, disable_reading, enable_writing, disable_writing,
  disable_all,
}
use rfcs.Channel

pub data State : Type 0 where
  disconnected connecting connected disconnecting : State

-- A call of one of the callbacks that the user or the server has set.
pub data Call : Type 0 where
  connection : Bool → Call
  message closed : Call

-- A functor that waits in the loop.
pub data Functor : Type 0 where
  write_complete : Functor
  high_water : ℕ → Functor
  sends : List ℕ → Functor
  shuts_down force_closes force_closes_later starts_read stops_read : Functor

-- `socket_`, by what it has been asked to do: the bytes that the kernel took, and `shutdownWrite`.
pub record Socket : Type 0 where
  pub taken : List ℕ
  pub write_shut : Bool

pub record TcpConnection : Type 0 where
  pub state : State
  pub reading : Bool
  pub socket : Socket
  pub channel : Channel
  pub input : Buffer
  pub output : Buffer
  pub high_water_mark : ℕ
  pub has_write_complete : Bool
  pub has_high_water : Bool
  pub calls : List Call
  pub queued : List Functor

-- What `write` answers: a count, or an error that is EWOULDBLOCK, EPIPE or ECONNRESET, or another.
pub data WriteResult : Type 0 where
  wrote : ℕ → WriteResult
  would_block broken other_error : WriteResult

abbrev pub is_connected : State → Bool
is_connected connected = true
is_connected _ = false

abbrev pub is_disconnected : State → Bool
is_disconnected disconnected = true
is_disconnected _ = false

abbrev pub is_connecting : State → Bool
is_connecting connecting = true
is_connecting _ = false

abbrev pub is_disconnecting : State → Bool
is_disconnecting disconnecting = true
is_disconnecting _ = false

-- `state_ == kConnected || state_ == kDisconnecting`
abbrev pub is_up : State → Bool
is_up s = is_connected s || is_disconnecting s

abbrev pub queue : Functor → TcpConnection → TcpConnection
queue f c = record c { queued = c.queued ++ f ∷ [] }

abbrev pub call : Call → TcpConnection → TcpConnection
call k c = record c { calls = c.calls ++ k ∷ [] }

abbrev pub init : Buffer → Buffer → Bool → Bool → ℕ → TcpConnection
init input output has_write_complete has_high_water fd = record {
  state = connecting;
  reading = true;
  socket = record { taken = []; write_shut = false };
  channel = Channel.init fd;
  input = input;
  output = output;
  high_water_mark = 64 * 1024 * 1024;
  has_write_complete = has_write_complete;
  has_high_water = has_high_water;
  calls = [];
  queued = [];
}

-- The kernel takes the first `n` bytes.
take_bytes : ℕ → List ℕ → TcpConnection → TcpConnection
take_bytes n bytes c = record c {
  socket = record (c.socket) { taken = c.socket.taken ++ take n bytes };
}

complete_if : Bool → TcpConnection → TcpConnection
complete_if b c = if b && c.has_write_complete then queue write_complete c else c

-- The direct write of `sendInLoop`: the connection after it, `nwrote`, and `faultError`.
pub try_write : WriteResult → List ℕ → TcpConnection → TcpConnection × ℕ × Bool
unfolding take_bytes complete_if
try_write (wrote n) bytes c = (complete_if (length bytes == n) (take_bytes n bytes c), n, false)
try_write would_block bytes c = (c, 0, false)
try_write broken bytes c = (c, 0, true)
try_write other_error bytes c = (c, 0, false)

-- The rest of `sendInLoop`: what was not written is kept in the output buffer, the channel waits
-- to write, and the callback of the high water mark is queued when the buffer comes to the mark.
pub keep_output : ℕ → ℕ → TcpConnection → Buffer → TcpConnection
keep_output old_len total c output =
    let warned =
      if leb c.high_water_mark total && (ltb old_len c.high_water_mark && c.has_high_water)
      then queue (high_water total) c
      else c in
    record warned {
      output = output;
      channel = if is_writing c.channel then c.channel else enable_writing c.channel;
    }

pub keep_rest : List ℕ → TcpConnection → ℕ → Option TcpConnection
keep_rest bytes c nwrote =
    let old_len = readable_bytes c.output in
    append c.output (drop nwrote bytes) >>= λ output.
    some (keep_output old_len (add_size old_len (length bytes - nwrote)) c output)

pub after_write : List ℕ → TcpConnection × ℕ × Bool → Option TcpConnection
unfolding keep_rest
after_write bytes (c, nwrote, fault_error) = do
  assert (leb nwrote (length bytes))
  if not fault_error && ltb nwrote (length bytes) then keep_rest bytes c nwrote else some c

pub send_in_loop : WriteResult → List ℕ → TcpConnection → Option TcpConnection
unfolding try_write after_write
send_in_loop answer bytes c =
    if is_disconnected c.state
    then some c
    else if not (is_writing c.channel) && (readable_bytes c.output == 0)
    then after_write bytes (try_write answer bytes c)
    else after_write bytes (c, 0, false)

-- `send`, from the loop's thread or from another one.
pub send : Bool → WriteResult → List ℕ → TcpConnection → Option TcpConnection
send in_loop answer bytes c =
    if is_connected c.state
    then (if in_loop then send_in_loop answer bytes c else some (queue (sends bytes) c))
    else some c

unfoldable pub shutdown_in_loop : TcpConnection → TcpConnection
shutdown_in_loop c =
    if is_writing c.channel
    then c
    else record c { socket = record (c.socket) { write_shut = true } }

-- `shutdown` tests `state_` and then sets it, without a lock. Another thread's call is the test
-- `is_connected`, and then, when the loop may have gone on, `shutdown_sets`.
unfoldable pub shutdown_sets : Bool → TcpConnection → TcpConnection
unfolding shutdown_in_loop
shutdown_sets in_loop c =
    let c' = record c { state = disconnecting } in
    if in_loop then shutdown_in_loop c' else queue shuts_down c'

unfoldable pub shutdown : Bool → TcpConnection → TcpConnection
unfolding shutdown_sets
shutdown in_loop c = if is_connected c.state then shutdown_sets in_loop c else c

unfoldable pub handle_close : TcpConnection → Option TcpConnection
handle_close c = do
  assert (is_up c.state)
  some (
      call closed (
        call (connection false)
          (record c { state = disconnected; channel = disable_all c.channel })))

-- `forceClose` and `forceCloseWithDelay` test `state_` and then set it, without a lock: another
-- thread's call is the test `is_up`, and then, when the loop may have gone on, what sets it.
unfoldable pub force_close_sets : TcpConnection → TcpConnection
force_close_sets c = queue force_closes (record c { state = disconnecting })

unfoldable pub force_close : TcpConnection → TcpConnection
unfolding force_close_sets
force_close c = if is_up c.state then force_close_sets c else c

-- `forceClose` is called later, by a timer of the loop; the delay is left out.
unfoldable pub force_close_with_delay_sets : TcpConnection → TcpConnection
force_close_with_delay_sets c = queue force_closes_later (record c { state = disconnecting })

unfoldable pub force_close_with_delay : TcpConnection → TcpConnection
unfolding force_close_with_delay_sets
force_close_with_delay c = if is_up c.state then force_close_with_delay_sets c else c

unfoldable pub force_close_in_loop : TcpConnection → Option TcpConnection
unfolding handle_close
force_close_in_loop c = if is_up c.state then handle_close c else some c

unfoldable pub start_read_in_loop : TcpConnection → TcpConnection
start_read_in_loop c =
    if not c.reading || not (is_reading c.channel)
    then record c { channel = enable_reading c.channel; reading = true }
    else c

unfoldable pub stop_read_in_loop : TcpConnection → TcpConnection
stop_read_in_loop c =
    if c.reading || is_reading c.channel
    then record c { channel = disable_reading c.channel; reading = false }
    else c

unfoldable pub start_read : Bool → TcpConnection → TcpConnection
unfolding start_read_in_loop
start_read in_loop c = if in_loop then start_read_in_loop c else queue starts_read c

unfoldable pub stop_read : Bool → TcpConnection → TcpConnection
unfolding stop_read_in_loop
stop_read in_loop c = if in_loop then stop_read_in_loop c else queue stops_read c

unfoldable pub connect_established : TcpConnection → Option TcpConnection
connect_established c = do
  assert (is_connecting c.state)
  some (
      call (connection true)
        (record c { state = connected; channel = enable_reading (Channel.tie c.channel) }))

unfoldable pub connect_destroyed : TcpConnection → Option TcpConnection
connect_destroyed c =
    let down =
      if is_connected c.state
      then call (connection false)
          (record c { state = disconnected; channel = disable_all c.channel })
      else c in
    Channel.remove down.channel >>= λ channel. some (record down { channel = channel })

-- `readFd` returns the count of the bytes, 0 at the end of the stream.
after_read : TcpConnection → ReadResult × Buffer → Option TcpConnection
unfolding handle_close
after_read c (failed e, input) = some (record c { input = input })
after_read c (received [], input) = handle_close (record c { input = input })
after_read c (received (x ∷ xs), input) = some (call message (record c { input = input }))

pub handle_read : (ℕ → ReadResult) → TcpConnection → Option TcpConnection
unfolding after_read
handle_read readv c = read_fd readv c.input >>= after_read c

-- The bytes that `write` took leave the output buffer; the last one ends the writing.
drained : TcpConnection → TcpConnection
unfolding complete_if shutdown_in_loop
drained c =
    let c' = complete_if true (record c { channel = disable_writing c.channel }) in
    if is_disconnecting c.state then shutdown_in_loop c' else c'

after_handle_write : TcpConnection → WriteResult → Option TcpConnection
unfolding drained take_bytes
after_handle_write c (wrote n) =
    if ltb 0 n
    then (retrieve c.output n >>= λ output.
        let c' = record (take_bytes n (contents c.output) c) { output = output } in
        some (if readable_bytes output == 0 then drained c' else c'))
    else some c
after_handle_write c would_block = some c
after_handle_write c broken = some c
after_handle_write c other_error = some c

pub handle_write : WriteResult → TcpConnection → Option TcpConnection
unfolding after_handle_write
handle_write answer c = if is_writing c.channel then after_handle_write c answer else some c
