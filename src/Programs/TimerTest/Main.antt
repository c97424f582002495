-- ===== src/Programs/TimerTest/Main.antt =====
-- The main function of bounce/test/timer_test.cc.
use bounce.Prelude.{ℕ, Option, some, List, ◌>>=◌, false}
use bounce.Prelude.Int.{ℤ}
use bounce.SockAddress.{from_ip}
use bounce.TcpConnection.{Answer}
use bounce.TcpConnection.Object.{no_callbacks, ConnectionCallback, MessageCallback}
use bounce.TcpServer.Objects.{
  Server, construct_server, start_server, set_connection_callback, set_server_message_callback,
  set_server_write_callback,
}
use bounce.TimerQueue.{Timer}
use bounce.Programs
use bounce.Programs.Echo.{echo}
use bounce.Programs.TimerTest.{conn_cb}

-- `conn_cb` as the server holds it: it leaves the connection as it is, and crashes where it reads
-- beyond the end of `timers`.
unfoldable pub bound_conn_cb : ℕ → ℕ → List Timer → ConnectionCallback
unfolding conn_cb
bound_conn_cb address now timers conn = conn_cb address now timers conn >>= λ _. some conn

-- What is read is printed and sent back.
abbrev pub read_cb : Answer → MessageCallback
read_cb a = echo no_callbacks a

-- Only prints.
abbrev pub write_cb : ConnectionCallback
write_cb conn = some conn

-- `main` before `loop.loop()`, where the callbacks find the timers `timers` at the time `now` and
-- make theirs at `timer`.
module _ (inet_pton : ℕ → List ℕ → Option (List ℕ)) (inet_ntop : ℕ → List ℕ → List ℕ) where
  unfoldable pub main :
      {A S : Type 0} → Answer → ℕ → ℕ → List Timer → ℕ → (ℕ → ℕ) → ℤ → ℤ → ℤ → Option (Server A S)
  unfolding construct_server from_ip set_connection_callback set_server_message_callback
      set_server_write_callback bound_conn_cb start_server
  main a timer now timers loop address fd bound listens = do
    let addr = from_ip inet_pton inet_ntop Programs.localhost 9282 false
    server ← construct_server loop addr 3 fd bound
    let server1 = set_connection_callback (some (bound_conn_cb timer now timers)) server
    let server2 = set_server_message_callback (some (read_cb a)) server1
    start_server address listens (set_server_write_callback (some write_cb) server2)
