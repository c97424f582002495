-- ===== src/Programs/EchoBench.antt =====
-- bounce/test/echo_bench.cc: an echo server that sets no callback for connections.
pub mod Crashes
use bounce.Prelude.{ℕ, Option, none, some, List, ◌>>=◌, false}
use bounce.Prelude.Int.{ℤ}
use bounce.SockAddress.{from_ip}
use bounce.TcpConnection.{Answer}
use bounce.TcpConnection.Object.{no_callbacks}
use bounce.TcpServer.Objects.{Server, construct_server, start_server, set_server_message_callback}
use bounce.Programs
use bounce.Programs.Echo.{echo}

-- `main` before `loop.loop()`. The loop of the server is at `loop` and those of the threads at
-- `address i`, `fd` is the socket's descriptor, and `bound` and `listens` are what `::bind` and
-- `::listen` return.
module _ (inet_pton : ℕ → List ℕ → Option (List ℕ)) (inet_ntop : ℕ → List ℕ → List ℕ) where
  unfoldable pub main : {A S : Type 0} → Answer → ℕ → (ℕ → ℕ) → ℤ → ℤ → ℤ → Option (Server A S)
  unfolding construct_server from_ip set_server_message_callback echo start_server
  main a loop address fd bound listens = do
    let addr = from_ip inet_pton inet_ntop Programs.localhost 9999 false
    server ← construct_server loop addr 3 fd bound
    start_server address listens (set_server_message_callback (some (echo no_callbacks a)) server)
