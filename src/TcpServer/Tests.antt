-- ===== src/TcpServer/Tests.antt =====
-- Runs of a server, and its theorems at a concrete one.
use bounce.Prelude.{◌>>=◌, ◌+◌, ◌≡◌, refl, none, some, [], ◌∷◌, true, false}
use bounce.Prelude.Int.{negsuc, pos, put_at}
use bounce.Prelude.Outcomes.{returned}
use bounce.SockAddress.{from_port}
use bounce.Acceptor.{Acceptor, handle_accept}
use bounce.TcpServer.{bound_new_connection, choose_loop}
use bounce.TcpServer.{
  do_connect_complete, accept_connection, Connection, TcpServer, init, start, new_connection,
  remove_connection_in_loop,
}
use bounce.TcpServer.Calls.{
  sets_thread_number, sets_new_connection, makes_connection, removes_connection,
  removes_connection_in_loop, run_calls, IsRunning, run_calls-start,
}
use bounce.TcpServer.Posts.{destroyed, connected}
use bounce.TcpServer.Life.{Lives, Reach, here, makes, removes, Reach-Lives}

abbrev conn : Connection
conn = record { address = 50; fd = pos 5; loop = 101 }

abbrev listener : Acceptor
listener = record {
  listen_sock = record {
    fd = pos 3;
    bound = true;
    listening = true;
    write_shut = false;
    read_shut = false;
    closed = false;
  };
  listen_channel = record { fd = pos 3; events = 3; revents = 0; index = 0 };
  handles = true;
  local_addr = from_port 8080 false false;
}

-- A server with the loops 101 and 102.
abbrev running : TcpServer
running = record {
  started = true;
  loop = 1;
  acceptor = listener;
  thread_pool = record {
    started = true;
    thread_num = 2;
    next_loop_index = 0;
    loops = 101 ∷ 102 ∷ [];
  };
  connection_map = λ _. none;
  posts = [];
}

-- The server with two threads before its start.
abbrev stopped : TcpServer
stopped = record {
  started = false;
  loop = 1;
  acceptor = record {
    listen_sock = record {
      fd = pos 3;
      bound = true;
      listening = false;
      write_shut = false;
      read_shut = false;
      closed = false;
    };
    listen_channel = record { fd = pos 3; events = 0; revents = 0; index = 0 };
    handles = false;
    local_addr = from_port 8080 false false;
  };
  thread_pool = record { started = false; thread_num = 2; next_loop_index = 0; loops = [] };
  connection_map = λ _. none;
  posts = [];
}

run_calls-start_example :
    (u : TcpServer) × (run_calls
        (makes_connection 50 (pos 5)
          ∷ sets_thread_number 7
          ∷ makes_connection 60 (pos 6)
          ∷ makes_connection 70 (pos 7)
          ∷ removes_connection conn
          ∷ removes_connection_in_loop conn
          ∷ sets_new_connection (pos 8)
          ∷ [])
        running
      ≡ some u)
    × IsRunning u
unfolding start
run_calls-start_example =
    run_calls-start (λ i. 101 + i) (pos 0)
      (makes_connection 50 (pos 5)
        ∷ sets_thread_number 7
        ∷ makes_connection 60 (pos 6)
        ∷ makes_connection 70 (pos 7)
        ∷ removes_connection conn
        ∷ removes_connection_in_loop conn
        ∷ sets_new_connection (pos 8)
        ∷ [])
      stopped running refl

started_two :
    (init 1 (from_port 8080 false false) 2 (pos 3) (pos 0) >>= start (λ i. 101 + i) (pos 0))
    ≡ some running
unfolding start init
started_two = refl

-- A failed accept makes a connection of the descriptor -1.
accept_failed :
    returned (accept_connection 50 (negsuc 0) (from_port 80 true false) running)
    ≡ new_connection 50 (negsuc 0) running
unfolding accept_connection bound_new_connection handle_accept new_connection choose_loop
accept_failed = refl

abbrev with_one : TcpServer
with_one = record running { connection_map = put_at (pos 5) (some conn) (λ _. none) }

running-Lives : Lives running
unfolding connected destroyed
running-Lives = record {
  loops = record { loops = refl };
  kept = λ c i. absurd i;
  mapped = λ fd c e. cc;
  known = λ c i. absurd i;
  once = tt;
  own = tt;
}

-- Descriptor 5 is connected on the loop 101, and the connection is removed again.
abbrev after_one : TcpServer
after_one = record with_one {
  thread_pool = record (running.thread_pool) { next_loop_index = 1 };
  posts = do_connect_complete 101 conn ∷ [];
}

one_life : Reach running (remove_connection_in_loop conn after_one)
unfolding new_connection connected
one_life = removes conn (makes 50 (pos 5) here refl (λ d i. absurd i) refl) refl

Reach-Lives_example : Lives (remove_connection_in_loop conn after_one)
Reach-Lives_example = Reach-Lives running-Lives one_life
