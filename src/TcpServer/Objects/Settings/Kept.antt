-- ===== src/TcpServer/Objects/Settings/Kept.antt =====
-- A server keeps what its public functions promise.
use bounce.Prelude.{
  ℕ, ◌≡◌, refl, ap, ◌∙◌, Bool, true, false, some, List, [], ◌∷◌, ◌++◌, ◌&&◌, Bool-cases, inl, inr,
}
use bounce.Prelude.Int.{ℤ, pos, eq_int}
use bounce.Prelude.Outcomes.{returned}
use bounce.SockAddress.{SockAddress}
use bounce.Acceptor
use bounce.Acceptor.{Acceptor, start_listen}
use bounce.Channel.{change, enable_reading}
use bounce.Socket.{bind, listen}
use bounce.LoopThreadPool
use bounce.LoopThreadPool.{LoopThreadPool}
use bounce.LoopThreadPool.Calls.{start-kept}
use bounce.TcpServer.{Post, queue_new_connection, init, start, set_thread_number}
use bounce.TcpServer.Objects.{
  Server, construct_server, start_server, set_server_thread_number, set_thread_init_callback,
  set_connection_callback, set_server_message_callback, set_server_write_callback,
  set_server_error_callback, set_server_new_connection, get_server_thread_number, is_started,
}
use bounce.TcpServer.Objects.Settings.{
  Call, starts, sets_thread_number, sets_thread_init_callback, sets_connection_callback,
  sets_message_callback, sets_write_complete_callback, sets_error_callback, sets_new_connection,
  promise, promise_each, new_settings, handed, listens, all_listen, run_call, run_calls, life, view,
}

handed-append :
    (posts : List Post) (loop : ℕ) (fd : ℤ)
    → handed (posts ++ queue_new_connection loop fd ∷ []) ≡ handed posts ++ (loop, fd) ∷ []
unfolding handed
handed-append [] loop fd = refl
handed-append (queue_new_connection l d ∷ posts) loop fd =
    ap ((l, d) ∷◌) (handed-append posts loop fd)
handed-append (_ ∷ posts) loop fd = handed-append posts loop fd

listens-some :
    (ret : ℤ) (a : Acceptor)
    → eq_int ret (pos 0) ≡ true
    → (a' : Acceptor) × (returned (start_listen ret a) ≡ some a')
unfolding start_listen listen
listens-some ret a h =
    let reading = change enable_reading a.listen_channel in
    let sock = record a.listen_sock { listening = true } in
    (record a { handles = true; listen_channel = reading; listen_sock = sock }, rw h refl)

&&-left : (a b : Bool) → (a && b) ≡ true → a ≡ true
&&-left true b h = refl
&&-left false b h = h

&&-right : (a b : Bool) → (a && b) ≡ true → b ≡ true
&&-right true b h = h
&&-right false b h = cc

module _ {A S : Type 0} where
  -- The server and its pool are started together, and the pool keeps the number.
  record IsAligned (s : Server A S) : Type 0 where
    started : s.tcp_server.thread_pool.started ≡ s.tcp_server.started

  record Keeps (call : Call S) (s : Server A S) : Type 0 where
    after : Server A S
    runs : run_call call s ≡ some after
    promised : view after ≡ promise call (view s)
    aligned : IsAligned after

  run_call-Keeps :
      (call : Call S) (s : Server A S) → IsAligned s → listens call ≡ true → Keeps call s
  unfolding run_call view promise start_server set_server_thread_number start listens is_started
      get_server_thread_number
  run_call-Keeps (starts address ret) s a h =
      let (listening, found) = listens-some ret s.tcp_server.acceptor h in
      let pool = LoopThreadPool.start address s.tcp_server.thread_pool in
      let (started, number) = start-kept address s.tcp_server.thread_pool in
      record {
        after = record s {
          tcp_server = record s.tcp_server {
            thread_pool = pool;
            acceptor = listening;
            started = true;
          };
        };
        runs = rw found refl;
        promised = ap (λ n. record (view s) { started = true; thread_num = n }) number;
        aligned = record { started = started };
      }
  run_call-Keeps (sets_thread_number num) s a h = elim (Bool-cases s.tcp_server.started) [
    | inl done ↦ record {
      after = s;
      runs = rw (done, set_thread_number) refl;
      promised = rw done refl;
      aligned = a;
    }
    | inr new ↦ record {
      after = record s {
        tcp_server = record s.tcp_server {
          thread_pool = record s.tcp_server.thread_pool { thread_num = num };
        };
      };
      runs = rw (new, a.started ∙ new, set_thread_number, LoopThreadPool.set_thread_number) refl;
      promised = rw new refl;
      aligned = record { started = a.started };
    }
  ]
  run_call-Keeps (sets_thread_init_callback cb) s a h = record {
    after = set_thread_init_callback cb s;
    runs = refl;
    promised = refl;
    aligned = record { started = a.started };
  }
  run_call-Keeps (sets_connection_callback cb) s a h = record {
    after = set_connection_callback cb s;
    runs = refl;
    promised = refl;
    aligned = record { started = a.started };
  }
  run_call-Keeps (sets_message_callback cb) s a h = record {
    after = set_server_message_callback cb s;
    runs = refl;
    promised = refl;
    aligned = record { started = a.started };
  }
  run_call-Keeps (sets_write_complete_callback cb) s a h = record {
    after = set_server_write_callback cb s;
    runs = refl;
    promised = refl;
    aligned = record { started = a.started };
  }
  run_call-Keeps (sets_error_callback cb) s a h = record {
    after = set_server_error_callback cb s;
    runs = refl;
    promised = refl;
    aligned = record { started = a.started };
  }
  run_call-Keeps (sets_new_connection fd) s a h = record {
    after = set_server_new_connection fd s;
    runs = refl;
    promised =
        ap (λ fds. record (view s) { handed = fds })
          (handed-append s.tcp_server.posts s.tcp_server.loop fd);
    aligned = record { started = a.started };
  }

  run_calls-promise :
      (calls : List (Call S)) (s : Server A S)
      → IsAligned s
      → all_listen calls ≡ true
      → (s' : Server A S) × (run_calls calls s ≡ some s') × (view s' ≡ promise_each calls (view s))
  unfolding run_calls promise_each all_listen
  run_calls-promise [] s a h = (s, refl, refl)
  run_calls-promise (call ∷ calls) s a h =
      let k = run_call-Keeps call s a (&&-left (listens call) (all_listen calls) h) in
      let (s', runs, promised) =
        run_calls-promise calls k.after k.aligned (&&-right (listens call) (all_listen calls) h) in
      (s', rw k.runs runs, promised ∙ ap (promise_each calls) k.promised)

  -- When the socket of a new server can be bound, any sequence of its public functions comes back,
  -- where each start can listen. The server is started if one of them was start; its number of threads
  -- is the last that was set before the first start, or the constructor's; each callback is the last that
  -- was set, also after the start, or empty; and the server's loop is given each descriptor of
  -- setNewConnection, in order.
  pub life-promise :
      (loop : ℕ) (addr : SockAddress) (thread_num : ℕ) (fd : ℤ) (calls : List (Call S))
      → all_listen calls ≡ true
      → (s : Server A S) × (life loop addr thread_num fd (pos 0) calls ≡ some s)
        × (view s ≡ promise_each calls (new_settings loop thread_num))
  unfolding life construct_server init Acceptor.init bind view is_started get_server_thread_number
      handed new_settings LoopThreadPool.init
  life-promise loop addr thread_num fd calls h =
      run_calls-promise calls _ (record { started = refl }) h
