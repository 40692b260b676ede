-- ===== src/Tcp/Tests.antt =====
-- Runs of a connection, and its theorems at concrete connections.
use rfcs.Common.{◌≡◌, refl, true, false, List, [], ◌∷◌, some, none, arith, ◌>>=◌}
use rfcs.Buffer.{Buffer}
use rfcs.Channel
use rfcs.Tcp.{
  force_close_in_loop, force_close_sets, handle_close, is_up, TcpConnection, connected,
  disconnecting, init, connect_established, connect_destroyed, shutdown, send_in_loop, handle_write,
  wrote, connection, closed, disconnected,
}
use rfcs.Tcp.Lifecycle.{
  Op, run, shuts_down, force_closes_in_loop, established, run-IsAnnounced,
  connect_destroyed-shutdown, told, step,
}
use rfcs.Tcp.Output.{Flows, Accepts}
use rfcs.Tcp.Stream.{send_in_loop-Accepts, handle_write-Accepts, handle_write-shuts}

-- Ten bytes of room.
abbrev small : Buffer
small = record {
  bytes = 0 ∷ 0 ∷ 0 ∷ 0 ∷ 0 ∷ 0 ∷ 0 ∷ 0 ∷ 0 ∷ 0 ∷ [];
  reader_index = 8;
  writer_index = 8;
}

abbrev fresh : TcpConnection
fresh = init small small true false 5

abbrev up : TcpConnection
up = record fresh { state = connected; channel = Channel.enable_reading fresh.channel }

abbrev waiting : TcpConnection
waiting = record fresh {
  state = disconnecting;
  channel = Channel.enable_writing fresh.channel;
  output = record small { writer_index = 10 };
}

fresh-Flows : Flows fresh
fresh-Flows = record { valid = omega arith; waits = refl }

up-Flows : Flows up
up-Flows = record { valid = omega arith; waits = refl }

waiting-Flows : Flows waiting
waiting-Flows = record { valid = omega arith; waits = refl }

send_in_loop-Accepts_example : Accepts up (send_in_loop (wrote 1) (7 ∷ 9 ∷ []) up) (7 ∷ 9 ∷ [])
send_in_loop-Accepts_example =
    send_in_loop-Accepts up (wrote 1) (7 ∷ 9 ∷ []) 1 up-Flows refl refl (omega arith) (omega arith)

handle_write-Accepts_example : Accepts waiting (handle_write (wrote 1) waiting) (0 ∷ 0 ∷ [])
handle_write-Accepts_example =
    handle_write-Accepts waiting (wrote 1) 1 waiting-Flows refl (omega arith)

handle_write-shuts_example :
    (d : TcpConnection) × (handle_write (wrote 2) waiting ≡ some d)
    × (d.socket.write_shut ≡ true)
    × (d.socket.taken ≡ 0 ∷ 0 ∷ [])
handle_write-shuts_example = handle_write-shuts waiting waiting-Flows refl refl

connect_destroyed-shutdown_example : connect_destroyed (shutdown true up) ≡ none
connect_destroyed-shutdown_example = connect_destroyed-shutdown true up refl refl

-- Established, shut down, and closed.
abbrev life : List Op
life = established ∷ shuts_down ∷ force_closes_in_loop ∷ []

abbrev lived : TcpConnection
lived = record fresh {
  state = disconnected;
  channel = Channel.disable_all (Channel.enable_reading (Channel.tie fresh.channel));
  socket = record (fresh.socket) { write_shut = true };
  calls = connection true ∷ connection false ∷ closed ∷ [];
}

life-run : run life fresh ≡ some lived
unfolding run step connect_established shutdown force_close_in_loop
life-run = refl

run-IsAnnounced_example : told lived.calls ≡ true ∷ false ∷ []
run-IsAnnounced_example = run-IsAnnounced life fresh lived refl life-run

-- Another thread tests the state for `forceClose` while the connection is up, the loop handles the end
-- of the stream, the other thread sets the state, and the loop runs the functor: down is told twice.
abbrev announced : TcpConnection
announced = record up { calls = connection true ∷ [] }

force_close_race :
    (is_up announced.state ≡ true)
    × ((handle_close announced >>= λ c.
          force_close_in_loop (force_close_sets c) >>= λ d. some (told d.calls))
        ≡ some (true ∷ false ∷ false ∷ []))
unfolding handle_close force_close_sets force_close_in_loop
force_close_race = (refl, refl)
