-- ===== src/Programs/ConnectorTest.antt =====
-- bounce/test/connector_test.cc: a client that connects to two echo servers and greets them.
use bounce.Prelude.{ℕ, true, false, Option, some, List, [], ◌∷◌, ◌>>=◌, if◌then◌else◌}
use bounce.Prelude.Int.{ℤ}
use bounce.SockAddress.{SockAddress, from_ip}
use bounce.Connector
use bounce.TcpConnection.{Answer, is_connected, send}
use bounce.TcpConnection.Object.{ConnectionCallback, MessageCallback, no_callbacks}
use bounce.TcpServer.Objects.{
  Server, construct_server, start_server, set_connection_callback, set_server_message_callback,
  is_started,
}
use bounce.Programs
use bounce.Programs.Echo.{echo}

-- "hello!" and a line feed.
abbrev pub hello : List ℕ
hello = 104 ∷ 101 ∷ 108 ∷ 108 ∷ 111 ∷ 33 ∷ 10 ∷ []

-- It runs in the thread of the connection's loop.
unfoldable pub conn_cb : Answer → ConnectionCallback
unfolding send
conn_cb a c = some (if is_connected c.state then send no_callbacks true hello a c else c)

unfoldable pub read_cb : Answer → MessageCallback
unfolding echo
read_cb a = echo no_callbacks a

-- `main` before `loop.loop()`: the server, and the addresses that the loop will connect to; the
-- arguments are those of echo_bench's. The callback for errors only logs.
module _ (inet_pton : ℕ → List ℕ → Option (List ℕ)) (inet_ntop : ℕ → List ℕ → List ℕ) where
  unfoldable pub main :
      {A S : Type 0}
      → Answer
      → ℕ
      → (ℕ → ℕ)
      → ℤ
      → ℤ
      → ℤ
      → Option (Server A S × Option SockAddress × Option SockAddress)
  unfolding construct_server from_ip set_connection_callback set_server_message_callback conn_cb
      read_cb start_server Connector.connect is_started
  main a loop address fd bound listens = do
    server ←
        construct_server loop (from_ip inet_pton inet_ntop Programs.localhost 9999 false) 1 fd bound
    let addr = from_ip inet_pton inet_ntop Programs.localhost 9281 false
    let addr2 = from_ip inet_pton inet_ntop Programs.localhost 9282 false
    server' ← start_server address listens (
        set_server_message_callback (some (read_cb a))
          (set_connection_callback (some (conn_cb a)) server))
    some (
      server',
      Connector.connect (is_started server') addr,
      Connector.connect (is_started server') addr2,
    )
