-- ===== src/TcpServer.antt =====
-- bounce/tcp_server.h and bounce/tcp_server.cc: the connections of a server. A connection is known by
-- the address of its object; what the server asks of loops is listed in `posts`, in order. The
-- acceptor calls `new_connection` with what `accept` returned.
pub mod Connections
pub mod Posts
pub mod Life
pub mod Calls
pub mod Objects
mod Tests
use bounce.Prelude.{
  ℕ, zero, suc, Bool, true, false, not, Option, none, some, List, [], ◌∷◌, ◌++◌, ◌==◌,
  if◌then◌else◌, ◌>>=◌,
}
use bounce.Prelude.Int.{ℤ, put_at}
use bounce.Acceptor
use bounce.Acceptor.{Acceptor, start_listen, handle_accept}
use bounce.Prelude.Outcomes.{Outcome, returns, crashes, returned}
use bounce.SockAddress.{SockAddress}
use bounce.LoopThreadPool
use bounce.LoopThreadPool.{LoopThreadPool, get_loop_for_new_connection}

pub record Connection : Type 0 where
  pub address : ℕ
  pub fd : ℤ
  pub loop : ℕ

-- A task that `doTaskInThread` or `queueTaskInThread` of a loop is given.
pub data Post : Type 0 where
  do_connect_complete : ℕ → Connection → Post
  do_remove_in_loop : ℕ → Connection → Post
  queue_destroy : ℕ → Connection → Post
  queue_new_connection : ℕ → ℤ → Post

pub record TcpServer : Type 0 where
  pub started : Bool
  pub loop : ℕ
  pub acceptor : Acceptor
  pub thread_pool : LoopThreadPool
  pub connection_map : ℤ → Option Connection
  pub posts : List Post

-- The constructor, for the address, the descriptor of the socket and what `::bind` returned; `none` is
-- the exit of the program, here and in `start`.
unfoldable pub init : ℕ → SockAddress → ℕ → ℤ → ℤ → Option TcpServer
unfolding LoopThreadPool.init Acceptor.init
init loop addr thread_num fd ret = do
  acceptor ← returned (Acceptor.init fd addr ret)
  some (record {
    started = false;
    loop = loop;
    acceptor = acceptor;
    thread_pool = LoopThreadPool.init thread_num;
    connection_map = λ _. none;
    posts = [];
  })

-- `start`, where `ret` is what `::listen` returned.
unfoldable pub start : (ℕ → ℕ) → ℤ → TcpServer → Option TcpServer
unfolding LoopThreadPool.start start_listen
start address ret s = do
  let pool = LoopThreadPool.start address s.thread_pool
  acceptor ← returned (start_listen ret s.acceptor)
  some (record s { thread_pool = pool; acceptor = acceptor; started = true })

unfoldable pub set_thread_number : ℕ → TcpServer → TcpServer
unfolding LoopThreadPool.set_thread_number
set_thread_number num s =
    if not s.started
    then record s { thread_pool = LoopThreadPool.set_thread_number num s.thread_pool }
    else s

-- The loop for a connection, and the pool after the choice; a null pointer is replaced by the loop
-- of the server, but none of the pool's loops is null.
unfoldable pub choose_loop : TcpServer → Option (ℕ × LoopThreadPool)
unfolding get_loop_for_new_connection
choose_loop s =
    if s.thread_pool.thread_num == 0
    then some (s.loop, s.thread_pool)
    else get_loop_for_new_connection s.thread_pool

-- `insert` of a map leaves an entry that is there.
unfoldable pub insert_connection : Connection → (ℤ → Option Connection) → ℤ → Option Connection
insert_connection conn m = elim (m conn.fd) [ none ↦ put_at conn.fd (some conn) m | some _ ↦ m ]

-- The part of `newConnection` after the choice of the loop, for the new object at `address`.
unfoldable pub add_connection : ℕ → ℤ → ℕ → LoopThreadPool → TcpServer → TcpServer
unfolding insert_connection
add_connection address fd loop pool s =
    let conn : Connection = record { address = address; fd = fd; loop = loop } in
    record s {
      thread_pool = pool;
      connection_map = insert_connection conn s.connection_map;
      posts = s.posts ++ do_connect_complete loop conn ∷ [];
    }

unfoldable pub new_connection : ℕ → ℤ → TcpServer → Option TcpServer
unfolding choose_loop add_connection
new_connection address fd s = do
  chosen ← choose_loop s
  some (add_connection address fd chosen.0 chosen.1 s)

-- `setNewConnection`, by which a connector hands a descriptor over.
unfoldable pub set_new_connection : ℤ → TcpServer → TcpServer
set_new_connection fd s = record s { posts = s.posts ++ queue_new_connection s.loop fd ∷ [] }

unfoldable pub remove_connection : Connection → TcpServer → TcpServer
remove_connection conn s = record s { posts = s.posts ++ do_remove_in_loop s.loop conn ∷ [] }

unfoldable pub remove_connection_in_loop : Connection → TcpServer → TcpServer
remove_connection_in_loop conn s = elim (s.connection_map conn.fd) [
  | none ↦ s
  | some _ ↦ record s {
    connection_map = put_at conn.fd none s.connection_map;
    posts = s.posts ++ queue_destroy conn.loop conn ∷ [];
  }
]

-- The callback that the acceptor is given.
unfoldable pub bound_new_connection : ℕ → ℤ → SockAddress → TcpServer → Outcome TcpServer
unfolding new_connection
bound_new_connection address fd addr s = elim (new_connection address fd s) [
  | none ↦ crashes
  | some s' ↦ returns s'
]

-- A descriptor, or the failure to get one, comes in at the acceptor.
unfoldable pub accept_connection : ℕ → ℤ → SockAddress → TcpServer → Outcome TcpServer
unfolding handle_accept bound_new_connection
accept_connection address ret stored s =
    handle_accept ret stored
      (record { acceptor = s.acceptor; accept_cb = some (bound_new_connection address) }) s
