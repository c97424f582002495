-- ===== src/TcpServer/Objects/Settings.antt =====
-- The public functions of a server, called in any order on a new one.
pub mod Kept
mod Tests
use bounce.Prelude.{
  ℕ, ◌≡◌, refl, sym, ap, ◌∙◌, Bool, true, false, Option, none, some, List, [], ◌∷◌, ◌++◌,
  if◌then◌else◌, ◌>>=◌, ◌&&◌, Bool-cases, inl, inr, leb,
}
use bounce.Prelude.Int.{ℤ, pos, eq_int}
use bounce.Prelude.Outcomes.{returned}
use bounce.SockAddress.{SockAddress}
use bounce.Acceptor
use bounce.Acceptor.{Acceptor, start_listen}
use bounce.Channel.{change, enable_reading}
use bounce.Socket.{bind, listen}
use bounce.LoopThreadPool
use bounce.LoopThreadPool.{LoopThreadPool}
use bounce.LoopThreadPool.Calls.{start-kept}
use bounce.TcpConnection.Object.{ConnectionCallback, MessageCallback}
use bounce.TcpServer.{
  TcpServer, Post, queue_new_connection, init, start, set_thread_number, set_new_connection,
}
use bounce.TcpServer.Objects.{
  Server, ThreadInitCallback, WriteCompleteCallback, ErrorCallback, construct_server, start_server,
  set_server_thread_number, set_thread_init_callback, set_connection_callback,
  set_server_message_callback, set_server_write_callback, set_server_error_callback,
  set_server_new_connection, get_server_thread_number, is_started,
}

-- `S` is what the callback for new threads changes. `starts` comes with the addresses of the loops
-- and what `::listen` returns.
pub data Call (S : Type 0) : Type 0 where
  starts : (ℕ → ℕ) → ℤ → Call S
  sets_thread_number : ℕ → Call S
  sets_thread_init_callback : Option (ThreadInitCallback S) → Call S
  sets_connection_callback : Option ConnectionCallback → Call S
  sets_message_callback : Option MessageCallback → Call S
  sets_write_complete_callback : Option WriteCompleteCallback → Call S
  sets_error_callback : Option ErrorCallback → Call S
  sets_new_connection : ℤ → Call S

-- What a program sees of a server: its loop, whether it is started, the number of its threads, its
-- callbacks, and the descriptors that it was handed, each with the loop that was given it.
pub record Settings (S : Type 0) : Type 0 where
  pub loop : ℕ
  pub started : Bool
  pub thread_num : ℕ
  pub thread_init_cb : Option (ThreadInitCallback S)
  pub connect_cb : Option ConnectionCallback
  pub message_cb : Option MessageCallback
  pub write_cb : Option WriteCompleteCallback
  pub error_cb : Option ErrorCallback
  pub handed : List (ℕ × ℤ)

-- What a call promises: the number of threads is fixed by the start, and the callback that is set
-- last counts.
unfoldable pub promise : {S : Type 0} → Call S → Settings S → Settings S
promise (starts address ret) v = record v { started = true }
promise (sets_thread_number num) v = if v.started then v else record v { thread_num = num }
promise (sets_thread_init_callback cb) v = record v { thread_init_cb = cb }
promise (sets_connection_callback cb) v = record v { connect_cb = cb }
promise (sets_message_callback cb) v = record v { message_cb = cb }
promise (sets_write_complete_callback cb) v = record v { write_cb = cb }
promise (sets_error_callback cb) v = record v { error_cb = cb }
promise (sets_new_connection fd) v = record v { handed = v.handed ++ (v.loop, fd) ∷ [] }

unfoldable pub promise_each : {S : Type 0} → List (Call S) → Settings S → Settings S
unfolding promise
promise_each [] v = v
promise_each (call ∷ calls) v = promise_each calls (promise call v)

unfoldable pub new_settings : {S : Type 0} → ℕ → ℕ → Settings S
new_settings loop thread_num = record {
  loop = loop;
  started = false;
  thread_num = thread_num;
  thread_init_cb = none;
  connect_cb = none;
  message_cb = none;
  write_cb = none;
  error_cb = none;
  handed = [];
}

-- The loops and the descriptors of the tasks by which a server is handed connections.
unfoldable pub handed : List Post → List (ℕ × ℤ)
handed [] = []
handed (queue_new_connection loop fd ∷ posts) = (loop, fd) ∷ handed posts
handed (_ ∷ posts) = handed posts

-- Whether every `::listen` succeeds.
unfoldable pub listens : {S : Type 0} → Call S → Bool
listens (starts address ret) = eq_int ret (pos 0)
listens _ = true

unfoldable pub all_listen : {S : Type 0} → List (Call S) → Bool
unfolding listens
all_listen [] = true
all_listen (call ∷ calls) = listens call && all_listen calls

module _ {A S : Type 0} where
  unfoldable pub run_call : Call S → Server A S → Option (Server A S)
  unfolding start_server set_server_thread_number set_thread_init_callback set_connection_callback
      set_server_message_callback set_server_write_callback set_server_error_callback
      set_server_new_connection
  run_call (starts address ret) s = start_server address ret s
  run_call (sets_thread_number num) s = some (set_server_thread_number num s)
  run_call (sets_thread_init_callback cb) s = some (set_thread_init_callback cb s)
  run_call (sets_connection_callback cb) s = some (set_connection_callback cb s)
  run_call (sets_message_callback cb) s = some (set_server_message_callback cb s)
  run_call (sets_write_complete_callback cb) s = some (set_server_write_callback cb s)
  run_call (sets_error_callback cb) s = some (set_server_error_callback cb s)
  run_call (sets_new_connection fd) s = some (set_server_new_connection fd s)

  unfoldable pub run_calls : List (Call S) → Server A S → Option (Server A S)
  unfolding run_call
  run_calls [] s = some s
  run_calls (call ∷ calls) s = run_call call s >>= run_calls calls

  -- The constructor, and then calls.
  unfoldable pub life : ℕ → SockAddress → ℕ → ℤ → ℤ → List (Call S) → Option (Server A S)
  unfolding construct_server run_calls
  life loop addr thread_num fd ret calls =
      construct_server loop addr thread_num fd ret >>= run_calls calls

  unfoldable pub view : Server A S → Settings S
  unfolding is_started get_server_thread_number handed
  view s = record {
    loop = s.tcp_server.loop;
    started = is_started s;
    thread_num = get_server_thread_number s;
    thread_init_cb = s.thread_init_cb;
    connect_cb = s.connect_cb;
    message_cb = s.message_cb;
    write_cb = s.write_cb;
    error_cb = s.error_cb;
    handed = handed s.tcp_server.posts;
  }
