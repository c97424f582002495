-- ===== src/Programs/ShutdownTest.antt =====
-- bounce/test/shutdown_test.cc: a server that shuts each connection down at once.
pub mod Quiet
use bounce.Prelude.{ℕ, true, Option, none, some, List, [], ◌∷◌, ◌>>=◌, false, if◌then◌else◌}
use bounce.Prelude.Int.{ℤ}
use bounce.Buffer.{received}
use bounce.SockAddress.{from_ip}
use bounce.TcpConnection.{Answer, Callbacks, TcpConnection, is_connected, shutdown, handle_read}
use bounce.TcpConnection.Object.{ConnectionCallback, MessageCallback, no_callbacks}
use bounce.TcpServer.Objects.{
  Server, construct_server, start_server, set_connection_callback, set_server_message_callback,
  set_server_write_callback,
}
use bounce.Programs
use bounce.Programs.Echo.{echo}

unfoldable pub conn_cb : ConnectionCallback
unfolding shutdown
conn_cb c = some (if is_connected c.state then shutdown true c else c)

-- It only prints.
abbrev pub write_cb : ConnectionCallback
write_cb c = some c

abbrev pub other_callbacks : Callbacks
unfolding conn_cb
other_callbacks = record no_callbacks { connect_cb = some conn_cb; write_cb = some write_cb }

unfoldable pub read_cb : Answer → MessageCallback
unfolding echo
read_cb a = echo other_callbacks a

-- The callbacks that the program gives the server.
unfoldable pub callbacks : Answer → Callbacks
unfolding read_cb
callbacks a = record other_callbacks { message_cb = some (read_cb a) }

-- `main` between the loggers and `loop.loop()`; the arguments are those of echo_bench's.
module _ (inet_pton : ℕ → List ℕ → Option (List ℕ)) (inet_ntop : ℕ → List ℕ → List ℕ) where
  unfoldable pub main : {A S : Type 0} → Answer → ℕ → (ℕ → ℕ) → ℤ → ℤ → ℤ → Option (Server A S)
  unfolding construct_server from_ip set_connection_callback set_server_message_callback
      set_server_write_callback read_cb start_server conn_cb
  main a loop address fd bound listens = do
    let addr = from_ip inet_pton inet_ntop Programs.localhost 9281 false
    server ← construct_server loop addr 3 fd bound
    start_server address listens (
        set_server_write_callback (some write_cb) (
          set_server_message_callback (some (read_cb a))
            (set_connection_callback (some conn_cb) server)))

-- Messages that arrive, each of at least one byte, and what `::send` would answer to each.
unfoldable pub receive_each : ℕ → List (ℕ × List ℕ × Answer) → TcpConnection → Option TcpConnection
unfolding handle_read callbacks
receive_each time [] c = some c
receive_each time (m ∷ ms) c =
    handle_read (callbacks m.2) time (received (m.0 ∷ m.1)) c >>= receive_each time ms
