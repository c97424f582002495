-- ===== src/TcpServer/Objects.antt =====
-- A server with the callbacks of the program and the objects of its connections: what the loops do
-- when they come to the tasks that the server has posted.
pub mod Quiet
pub mod WholeLife
pub mod Settings
mod Tests
use bounce.Prelude.{
  ℕ, Bool, true, false, Option, none, some, List, [], ◌∷◌, ◌==◌, if◌then◌else◌, ◌>>=◌,
}
use bounce.Prelude.Int.{ℤ}
use bounce.SockAddress.{SockAddress}
use bounce.TcpConnection.{
  TcpConnection, Callbacks, connect_complete, destroy_connection, handle_close,
}
use bounce.TcpConnection.Object.{
  Object, ConnectionCallback, MessageCallback, construct, get_addr, on_connection,
  set_connect_callback, set_message_callback, set_write_complete_callback, set_close_callback,
  set_error_callback,
}
use bounce.LoopThreadPool.Threads.{Threads, add_init_thread_callback}
use bounce.TcpServer.{
  TcpServer, Connection, Post, do_connect_complete, do_remove_in_loop, queue_destroy,
  queue_new_connection, new_connection, remove_connection, remove_connection_in_loop, init, start,
  set_thread_number, set_new_connection,
}
use bounce.TcpServer

abbrev pub ThreadInitCallback : Type 0 → Type 0
ThreadInitCallback S = ℕ → S → S

abbrev pub WriteCompleteCallback : Type 0
WriteCompleteCallback = ConnectionCallback

abbrev pub ErrorCallback : Type 0
ErrorCallback = ConnectionCallback

-- `A` is the type of the context objects of connections, `S` what the callback for new threads
-- changes. `objects` holds the connection at each address.
pub record Server (A S : Type 0) : Type 0 where
  pub tcp_server : TcpServer
  pub thread_init_cb : Option (ThreadInitCallback S)
  pub connect_cb : Option ConnectionCallback
  pub message_cb : Option MessageCallback
  pub write_cb : Option WriteCompleteCallback
  pub error_cb : Option ErrorCallback
  pub objects : ℕ → Option (Object A)

abbrev pub put_object {ℓ} : {B : Type ℓ} → ℕ → B → (ℕ → Option B) → ℕ → Option B
put_object p o objects q = if p == q then some o else objects q

-- `std::bind(&TcpServer::removeConnection, this, _1)` leaves the connection as it is; what it does to
-- the server is `close_connection` below.
abbrev pub bound_remove_connection : ConnectionCallback
bound_remove_connection c = some c

module _ {A S : Type 0} where
  -- The constructor, with what `init` takes.
  unfoldable pub construct_server : ℕ → SockAddress → ℕ → ℤ → ℤ → Option (Server A S)
  unfolding init
  construct_server loop addr thread_num fd ret = do
    t ← init loop addr thread_num fd ret
    some (record {
      tcp_server = t;
      thread_init_cb = none;
      connect_cb = none;
      message_cb = none;
      write_cb = none;
      error_cb = none;
      objects = λ _. none;
    })

  -- `start`, but for the callback for new threads, which `pass_init_callback` hands on.
  unfoldable pub start_server : (ℕ → ℕ) → ℤ → Server A S → Option (Server A S)
  unfolding start
  start_server address ret s = do
    t ← start address ret s.tcp_server
    some (record s { tcp_server = t })

  unfoldable pub set_server_thread_number : ℕ → Server A S → Server A S
  unfolding set_thread_number
  set_server_thread_number num s = record s { tcp_server = set_thread_number num s.tcp_server }

  unfoldable pub set_thread_init_callback : Option (ThreadInitCallback S) → Server A S → Server A S
  set_thread_init_callback cb s = record s { thread_init_cb = cb }

  unfoldable pub set_connection_callback : Option ConnectionCallback → Server A S → Server A S
  set_connection_callback cb s = record s { connect_cb = cb }

  unfoldable pub set_server_message_callback : Option MessageCallback → Server A S → Server A S
  set_server_message_callback cb s = record s { message_cb = cb }

  unfoldable pub set_server_write_callback : Option WriteCompleteCallback → Server A S → Server A S
  set_server_write_callback cb s = record s { write_cb = cb }

  unfoldable pub set_server_error_callback : Option ErrorCallback → Server A S → Server A S
  set_server_error_callback cb s = record s { error_cb = cb }

  unfoldable pub set_server_new_connection : ℤ → Server A S → Server A S
  unfolding set_new_connection
  set_server_new_connection fd s = record s { tcp_server = set_new_connection fd s.tcp_server }

  unfoldable pub get_server_thread_number : Server A S → ℕ
  get_server_thread_number s = s.tcp_server.thread_pool.thread_num

  unfoldable pub is_started : Server A S → Bool
  is_started s = s.tcp_server.started

  -- The first part of `start`, over the threads of the pool.
  unfoldable pub pass_init_callback : Server A S → Threads S → Threads S
  unfolding add_init_thread_callback
  pass_init_callback s t = elim s.thread_init_cb [
    | none ↦ t
    | some f ↦ add_init_thread_callback (some f) t
  ]

  -- The new object of `newConnection`, with its callbacks set.
  unfoldable pub make_object : ℤ → ℕ → SockAddress → SockAddress → Server A S → Object A
  unfolding construct set_connect_callback set_message_callback set_write_complete_callback
      set_close_callback set_error_callback
  make_object fd size local peer s = set_error_callback s.error_cb (
      set_close_callback (some bound_remove_connection) (
        set_write_complete_callback s.write_cb (
          set_message_callback s.message_cb
            (set_connect_callback s.connect_cb (construct fd size local peer)))))

  -- `newConnection` with the object at a new address; `size` is that of a new buffer, and `ret` and
  -- `stored` are what `::getsockname` returned and stored.
  unfoldable pub new_connection_object :
      ℕ → ℤ → ℕ → ℤ → SockAddress → SockAddress → Server A S → Option (Server A S)
  unfolding new_connection make_object get_addr
  new_connection_object address fd size ret stored peer s = do
    s' ← new_connection address fd s.tcp_server
    some (record s {
      tcp_server = s';
      objects = put_object address (make_object fd size (get_addr ret stored) peer s) s.objects;
    })

  -- A loop runs a function of the connection at an address.
  unfoldable pub run_at_object :
      ℕ → (Callbacks → TcpConnection → Option TcpConnection) → Server A S → Option (Server A S)
  unfolding on_connection
  run_at_object address f s = do
    o ← s.objects address
    o' ← on_connection f o
    some (record s { objects = put_object address o' s.objects })

  -- `handleClose` of a connection, whose callback for closing posts the removal.
  unfoldable pub close_connection : Connection → Server A S → Option (Server A S)
  unfolding run_at_object handle_close remove_connection
  close_connection conn s = do
    s' ← run_at_object conn.address handle_close s
    some (record s' { tcp_server = remove_connection conn s'.tcp_server })

  -- The task of a post; a connector's comes with what `newConnection` needs.
  unfoldable pub perform :
      (ℕ → ℤ → Server A S → Option (Server A S)) → Post → Server A S → Option (Server A S)
  unfolding run_at_object connect_complete destroy_connection remove_connection_in_loop
  perform make (do_connect_complete loop conn) s = run_at_object conn.address connect_complete s
  perform make (do_remove_in_loop loop conn) s =
      some (record s { tcp_server = remove_connection_in_loop conn s.tcp_server })
  perform make (queue_destroy loop conn) s = run_at_object conn.address destroy_connection s
  perform make (queue_new_connection loop fd) s = make loop fd s
