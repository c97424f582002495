-- ===== src/Programs/TcpserverTest.antt =====
-- bounce/test/tcpserver_test.cc: an echo server that prints what happens, with two threads.
use bounce.Prelude.{ℕ, Option, some, List, ◌>>=◌, false}
use bounce.Prelude.Int.{ℤ}
use bounce.SockAddress.{from_ip}
use bounce.TcpConnection.{Answer, Callbacks}
use bounce.TcpConnection.Object.{ConnectionCallback, MessageCallback, no_callbacks}
use bounce.TcpServer.Objects.{
  Server, construct_server, start_server, set_server_thread_number, set_connection_callback,
  set_server_message_callback, set_server_write_callback,
}
use bounce.Programs
use bounce.Programs.Echo.{echo}

-- These two only print.
abbrev pub conn_cb : ConnectionCallback
conn_cb c = some c

abbrev pub write_cb : ConnectionCallback
write_cb c = some c

abbrev pub other_callbacks : Callbacks
other_callbacks = record no_callbacks { connect_cb = some conn_cb; write_cb = some write_cb }

unfoldable pub read_cb : Answer → MessageCallback
unfolding echo
read_cb a = echo other_callbacks a

-- `main` between the loggers and `loop.loop()`; the arguments are those of echo_bench's.
module _ (inet_pton : ℕ → List ℕ → Option (List ℕ)) (inet_ntop : ℕ → List ℕ → List ℕ) where
  unfoldable pub main : {A S : Type 0} → Answer → ℕ → (ℕ → ℕ) → ℤ → ℤ → ℤ → Option (Server A S)
  unfolding construct_server from_ip set_server_thread_number set_connection_callback
      set_server_message_callback set_server_write_callback read_cb start_server
  main a loop address fd bound listens = do
    let addr = from_ip inet_pton inet_ntop Programs.localhost 9281 false
    server ← construct_server loop addr 3 fd bound
    let two = set_server_thread_number 2 server
    start_server address listens (
        set_server_write_callback (some write_cb) (
          set_server_message_callback (some (read_cb a))
            (set_connection_callback (some conn_cb) two)))
