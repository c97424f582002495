-- ===== src/TcpServer/Objects/Tests.antt =====
-- A server without threads takes one connection through its life.
use bounce.Prelude.{ℕ, ◌≡◌, refl, true, false, Option, none, some, [], ◌>>=◌}
use bounce.Prelude.Int.{ℤ, pos, negsuc}
use bounce.SockAddress.{SockAddress, from_port}
use bounce.TcpServer.{Connection}
use bounce.TcpServer.Objects.{Server, new_connection_object}
use bounce.TcpServer.Objects.WholeLife.{run_life, Ended, run_life-Ended}

abbrev server : Server ℕ ℕ
server = record {
  tcp_server = record {
    started = true;
    loop = 1;
    acceptor = record {
      listen_sock = record {
        fd = pos 3;
        bound = true;
        listening = true;
        write_shut = false;
        read_shut = false;
        closed = false;
      };
      listen_channel = record { fd = pos 3; events = 3; revents = 0; index = 0 };
      handles = true;
      local_addr = from_port 8080 false false;
    };
    thread_pool = record { started = true; thread_num = 0; next_loop_index = 0; loops = [] };
    connection_map = λ _. none;
    posts = [];
  };
  thread_init_cb = none;
  connect_cb = some some;
  message_cb = none;
  write_cb = none;
  error_cb = none;
  objects = λ _. none;
}

abbrev make : ℕ → ℤ → Server ℕ ℕ → Option (Server ℕ ℕ)
make loop fd s = some s

abbrev peer : SockAddress
unfolding from_port
peer = from_port 4242 true false

run_life-Ended_example :
    (conn : Connection) × (s' : Server ℕ ℕ) × ((new_connection_object 50
          (pos 5)
          1024
          (negsuc 0)
          peer
          peer
          server
        >>= run_life make 1 conn)
      ≡ some s')
    × Ended make 50 (pos 5) conn server s'
run_life-Ended_example =
    run_life-Ended make 50 (pos 5) 1024 (negsuc 0) peer peer server (record { loops = refl }) refl
      (some, refl, λ c. refl)
