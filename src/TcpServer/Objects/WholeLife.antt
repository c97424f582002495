-- ===== src/TcpServer/Objects/WholeLife.antt =====
-- One connection from the accept to its end, through all the posts of its server.
use bounce.Prelude.{ℕ, ◌≡◌, ◌≢◌, refl, sym, ap, ◌∙◌, Option, none, some, List, [], ◌∷◌, ◌++◌, ◌>>=◌}
use bounce.Prelude.Int.{ℤ}
use bounce.SockAddress.{SockAddress}
use bounce.Channel.{read_event}
use bounce.TcpConnection
use bounce.TcpConnection.{
  TcpConnection, Callbacks, connected, disconnected, Request, updates, removes, change_channel,
  request, call_if_set, connect_complete, destroy_connection, handle_close,
}
use bounce.TcpConnection.Object.{
  Object, construct, get_addr, set_connect_callback, set_message_callback,
  set_write_complete_callback, set_close_callback, set_error_callback,
}
use bounce.TcpServer.{
  TcpServer, Connection, Post, do_connect_complete, do_remove_in_loop, queue_destroy,
  remove_connection, remove_connection_in_loop,
}
use bounce.TcpServer.Connections.{
  HasLoops, Connects, new_connection-Connects, Removes, remove_connection_in_loop-once,
}
use bounce.TcpServer.Objects.{
  Server, put_object, make_object, new_connection_object, close_connection, perform,
}
use bounce.TcpServer.Objects.Quiet.{
  Quiet, completed, ended, put_object_self, connect_complete-quiet, handle_close-quiet,
  destroy_connection-ended, run_at_object-runs, append_three,
}

module _ {A S : Type 0} (make : ℕ → ℤ → Server A S → Option (Server A S)) where
  -- What the loops do with the posts of a connection that was made and is then closed, in order.
  unfoldable pub run_life : ℕ → Connection → Server A S → Option (Server A S)
  unfolding perform close_connection
  run_life base conn s = do
    completed_ ← perform make (do_connect_complete conn.loop conn) s
    closed ← close_connection conn completed_
    removed ← perform make (do_remove_in_loop base conn) closed
    perform make (queue_destroy conn.loop conn) removed

  -- The end of the life of a connection: the server is as it was but for its posts, and the object has
  -- been disconnected, with its channel watched, silenced and removed.
  pub record Ended (address : ℕ) (fd : ℤ) (conn : Connection) (s s' : Server A S) : Type 0 where
    pub gone : s'.tcp_server.connection_map fd ≡ none
    pub others : (g : ℤ) → fd ≢ g → s'.tcp_server.connection_map g ≡ s.tcp_server.connection_map g
    pub posts :
        s'.tcp_server.posts
        ≡ s.tcp_server.posts
          ++ do_connect_complete conn.loop conn
            ∷ do_remove_in_loop s.tcp_server.loop conn
            ∷ queue_destroy conn.loop conn
            ∷ []
    pub object :
        (o : Object A) × (s'.objects address ≡ some o)
        × (o.connection.state ≡ disconnected)
        × (o.connection.requests ≡ updates read_event ∷ updates 0 ∷ removes ∷ [])

  module _ (address : ℕ) (fd : ℤ) (size : ℕ) (ret : ℤ) (stored peer : SockAddress) (s : Server A S)
      (t : TcpServer) (conn : Connection) (named : conn.address ≡ address)
      (step : Connects fd s.tcp_server t conn) (quiet : Quiet s.connect_cb) where
    object₀ : Object A
    object₀ = make_object fd size (get_addr ret stored) peer s

    made : Server A S
    made = record s { tcp_server = t; objects = put_object address object₀ s.objects }

    at_address : made.objects conn.address ≡ some object₀
    unfolding made
    at_address = ap made.objects named ∙ put_object_self address object₀ s.objects

    object₀-Quiet : Quiet object₀.callbacks.connect_cb
    unfolding object₀ make_object set_connect_callback set_message_callback
        set_write_complete_callback set_close_callback set_error_callback
    object₀-Quiet = quiet

    -- The object after each of the posts.
    object₁ : Object A
    object₁ = record object₀ { connection = completed object₀.connection }

    object₂ : Object A
    unfolding object₁
    object₂ = record object₁ { connection = ended object₁.connection }

    object₃ : Object A
    unfolding object₂
    object₃ = record object₂ { connection = request removes object₂.connection }

    -- The server after each.
    put_at_conn : Object A → TcpServer → (ℕ → Option (Object A)) → Server A S
    put_at_conn o u objects = record s {
      tcp_server = u;
      objects = put_object conn.address o objects;
    }

    server₁ : Server A S
    unfolding made put_at_conn
    server₁ = put_at_conn object₁ t made.objects

    server₂ : Server A S
    unfolding server₁ put_at_conn
    server₂ = put_at_conn object₂ (remove_connection conn t) server₁.objects

    server₃ : Server A S
    unfolding server₂ put_at_conn
    server₃ = record server₂ {
      tcp_server = remove_connection_in_loop conn (remove_connection conn t);
    }

    server₄ : Server A S
    unfolding server₃ put_at_conn
    server₄ = put_at_conn object₃ server₃.tcp_server server₃.objects

    completes : perform make (do_connect_complete conn.loop conn) made ≡ some server₁
    unfolding perform server₁ put_at_conn made object₁
    completes =
        run_at_object-runs conn.address connect_complete made object₀ (completed object₀.connection)
          at_address (connect_complete-quiet object₀.callbacks object₀-Quiet object₀.connection)

    closes : close_connection conn server₁ ≡ some server₂
    unfolding close_connection server₂ server₁ put_at_conn made object₂ object₁ object₀ make_object
        set_connect_callback set_message_callback set_write_complete_callback set_close_callback
        set_error_callback
    closes =
        ap
          (λ (o : Option (Server A S)). o >>= λ (x : Server A S).
            some (record x { tcp_server = remove_connection conn x.tcp_server }))
          (run_at_object-runs conn.address handle_close server₁ object₁ (ended object₁.connection)
            (put_object_self conn.address object₁ made.objects)
            (handle_close-quiet object₁.callbacks object₀-Quiet object₁.connection refl))

    removes_ : perform make (do_remove_in_loop s.tcp_server.loop conn) server₂ ≡ some server₃
    unfolding perform server₃ server₂ put_at_conn
    removes_ = refl

    destroys : perform make (queue_destroy conn.loop conn) server₃ ≡ some server₄
    unfolding perform server₄ server₃ server₂ put_at_conn object₃ object₂
    destroys =
        run_at_object-runs conn.address destroy_connection server₃ object₂
          (request removes (ended object₁.connection))
          (put_object_self conn.address object₂ server₁.objects)
          (destroy_connection-ended object₂.callbacks object₁.connection)

    run_life-server₄ : run_life s.tcp_server.loop conn made ≡ some server₄
    unfolding run_life
    run_life-server₄ =
        ap
          (λ (o : Option (Server A S)). o >>= λ x. close_connection conn x >>= λ y.
            perform make (do_remove_in_loop s.tcp_server.loop conn) y
            >>= perform make (queue_destroy conn.loop conn))
          completes
        ∙ ap
            (λ (o : Option (Server A S)). o >>= λ y.
              perform make (do_remove_in_loop s.tcp_server.loop conn) y
              >>= perform make (queue_destroy conn.loop conn))
            closes
        ∙ ap (λ (o : Option (Server A S)). o >>= perform make (queue_destroy conn.loop conn))
            removes_
        ∙ destroys

    removed : Removes conn (remove_connection conn t) server₃.tcp_server
    unfolding server₃ server₂ put_at_conn remove_connection
    removed =
        (remove_connection_in_loop-once conn conn (remove_connection conn t)
          (ap t.connection_map step.own ∙ step.known)).0

    server₄-Ended : Ended address fd conn s server₄
    unfolding server₄ server₃ server₂ put_at_conn remove_connection object₃ object₂ object₁ object₀
        completed ended request change_channel make_object set_connect_callback set_message_callback
        set_write_complete_callback set_close_callback set_error_callback construct
        TcpConnection.init
    server₄-Ended = record {
      gone = ap server₄.tcp_server.connection_map (sym step.own) ∙ removed.gone;
      others = λ g ne. removed.others g (λ e. ne (sym step.own ∙ e)) ∙ step.others g ne;
      posts =
          removed.posted
          ∙ ap
              (λ (l : List Post).
                (l ++ do_remove_in_loop t.loop conn ∷ []) ++ queue_destroy conn.loop conn ∷ [])
              step.posted
          ∙ append_three s.tcp_server.posts (do_connect_complete conn.loop conn)
              (do_remove_in_loop t.loop conn) (queue_destroy conn.loop conn)
          ∙ ap
              (λ (base : ℕ).
                s.tcp_server.posts
                ++ do_connect_complete conn.loop conn
                  ∷ do_remove_in_loop base conn
                  ∷ queue_destroy conn.loop conn
                  ∷ [])
              step.base;
      object = (
        object₃,
        ap server₄.objects (sym named) ∙ put_object_self conn.address object₃ server₃.objects,
        refl,
        refl,
      );
    }

  -- A server that has its loops takes a descriptor that is not in its map through the whole life of a
  -- connection, if the callback for connections is set and leaves them as they are: making the
  -- connection at a new address, completing it, closing it, removing it and destroying it all return,
  -- where each task runs that the step before posted. The map is then as before, and the object is
  -- disconnected, and has asked its loop to watch it, to silence it and to remove it, in this order.
  pub run_life-Ended :
      (address : ℕ) (fd : ℤ) (size : ℕ) (ret : ℤ) (stored peer : SockAddress) (s : Server A S)
      → HasLoops s.tcp_server
      → s.tcp_server.connection_map fd ≡ none
      → Quiet s.connect_cb
      → (conn : Connection) × (s' : Server A S) × ((new_connection_object address fd size ret stored
              peer s
            >>= run_life s.tcp_server.loop conn)
          ≡ some s')
        × Ended address fd conn s s'
  unfolding new_connection_object run_life made object₀
  run_life-Ended address fd size ret stored peer s loops free quiet =
      let (t, conn, connects, named, step) =
        new_connection-Connects address fd s.tcp_server loops free in
      (
        conn,
        server₄ address fd size ret stored peer s t conn named step quiet,
        ap
              (λ (o : Option TcpServer).
                (o >>= λ t'. some (record s {
                  tcp_server = t';
                  objects =
                      put_object address (make_object fd size (get_addr ret stored) peer s)
                        s.objects;
                }))
                >>= run_life s.tcp_server.loop conn)
              connects
            ∙ run_life-server₄ address fd size ret stored peer s t conn named step quiet,
        server₄-Ended address fd size ret stored peer s t conn named step quiet,
      )
