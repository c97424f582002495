-- ===== src/Programs/EchoBench/Crashes.antt =====
-- What becomes of the first connection.
use bounce.Prelude.{
  ℕ, ◌≡◌, refl, sym, ap, subst, ◌∙◌, false, Option, none, some, List, [], ◌∷◌, ==_refl, arith,
  if◌then◌else◌, ◌>>=◌,
}
use bounce.Prelude.Int.{ℤ}
use bounce.SockAddress.{SockAddress, from_ip}
use bounce.TcpConnection.{Answer, connect_complete}
use bounce.TcpConnection.Object.{
  no_callbacks, set_error_callback, set_close_callback, set_write_complete_callback,
  set_message_callback, set_connect_callback, construct, Object, get_addr, on_connection,
}
use bounce.TcpServer.{TcpServer, Connection, do_connect_complete, new_connection, start, init}
use bounce.TcpServer.Calls.{makes_connection, run_calls, run_calls-start}
use bounce.TcpServer.Objects.{
  Server, construct_server, start_server, new_connection_object, make_object, put_object, perform,
  run_at_object, set_server_message_callback,
}
use bounce.Programs
use bounce.Programs.Echo.{echo}
use bounce.Programs.EchoBench.{main}

-- What `start` changes of a server.
pub start_server-some :
    {A S : Type 0} (address : ℕ → ℕ) (ret : ℤ) (s s' : Server A S)
    → start_server address ret s ≡ some s'
    → (start address ret s.tcp_server ≡ some s'.tcp_server) × (s'.connect_cb ≡ s.connect_cb)
unfolding start_server
start_server-some {A} {S} address ret s s' = go (start address ret s.tcp_server)
  where
    go :
        (started : Option TcpServer)
        → (started >>= λ t. some (record s { tcp_server = t })) ≡ some s'
        → (started ≡ some s'.tcp_server) × (s'.connect_cb ≡ s.connect_cb)
    go none bad = ground arith
    go (some t) e = (
      ap (λ (o : Option (Server A S)). elim o [ none ↦ some t | some x ↦ some x.tcp_server ]) e,
      sym (
          ap (λ (o : Option (Server A S)). elim o [ none ↦ s.connect_cb | some x ↦ x.connect_cb ])
            e),
    )

connect_complete-unset :
    {A : Type 0} (o : Object A)
    → o.callbacks.connect_cb ≡ none
    → on_connection connect_complete o ≡ none
unfolding on_connection connect_complete
connect_complete-unset o unset = rw unset refl

make_object-connect_cb :
    {A S : Type 0} (s : Server A S) (fd : ℤ) (size : ℕ) (local peer : SockAddress)
    → (make_object fd size local peer s).callbacks.connect_cb ≡ s.connect_cb
unfolding make_object set_error_callback set_close_callback set_write_complete_callback
    set_message_callback set_connect_callback construct
make_object-connect_cb s fd size local peer = refl

-- A started server with no callback for connections takes a connection, and then crashes.
module _ {A S : Type 0} (make : ℕ → ℤ → Server A S → Option (Server A S)) (address : ℕ → ℕ)
    (listens : ℤ) (object : ℕ) (fd : ℤ) (size : ℕ) (ret : ℤ) (stored peer : SockAddress)
    (conn : Connection) (same : conn.address ≡ object) where
  new_connection-some :
      (before after : TcpServer)
      → start address listens before ≡ some after
      → (u : TcpServer) × (new_connection object fd after ≡ some u)
  unfolding run_calls
  new_connection-some before after e =
      let (u, runs, _) =
        run_calls-start address listens (makes_connection object fd ∷ []) before after e in
      (u, by_option (new_connection object fd after) runs)
    where
      by_option : {u : TcpServer} (o : Option TcpServer) → (o >>= λ t. some t) ≡ some u → o ≡ some u
      by_option none e = e
      by_option (some t) e = e

  no_callback-crashes :
      (loop : ℕ) (before : TcpServer) (s : Server A S)
      → start address listens before ≡ some s.tcp_server
      → s.connect_cb ≡ none
      → (s' : Server A S) × (new_connection_object object fd size ret stored peer s ≡ some s')
        × (perform make (do_connect_complete loop conn) s' ≡ none)
  unfolding new_connection_object perform run_at_object
  no_callback-crashes loop before s e unset =
      let (u, made) = new_connection-some before s.tcp_server e in
      let o = make_object fd size (get_addr ret stored) peer s in
      let s' = record s { tcp_server = u; objects = put_object object o s.objects } in
      (
        s',
        ap
            (λ (x : Option TcpServer). x >>= λ t.
              some (record s { tcp_server = t; objects = put_object object o s.objects }))
            made,
        ap
              (λ (x : Option (Object A)). x >>= λ o. on_connection connect_complete o >>= λ o'.
                some (record s' { objects = put_object conn.address o' s'.objects }))
              (there o s.objects)
            ∙ ap
                (λ (x : Option (Object A)).
                  x >>= λ o'. some (record s' { objects = put_object conn.address o' s'.objects }))
                (connect_complete-unset o (made_unset s unset)),
      )
    where
      there :
          (o : Object A) (objects : ℕ → Option (Object A))
          → put_object object o objects conn.address ≡ some o
      there o objects =
          subst (λ p. put_object object o objects p ≡ some o) (sym same)
            (ap (λ b. if b then some o else objects object) (==_refl object))

      made_unset :
          (s : Server A S)
          → s.connect_cb ≡ none
          → (make_object fd size (get_addr ret stored) peer s).callbacks.connect_cb ≡ none
      made_unset s unset = make_object-connect_cb s fd size (get_addr ret stored) peer ∙ unset

main-starts :
    {A S : Type 0} (inet_pton : ℕ → List ℕ → Option (List ℕ)) (inet_ntop : ℕ → List ℕ → List ℕ)
    (a : Answer) (base : ℕ) (address : ℕ → ℕ) (sock bound listens : ℤ) (s : Server A S)
    → main inet_pton inet_ntop a base address sock bound listens ≡ some s
    → (before : TcpServer) × (start address listens before ≡ some s.tcp_server)
      × (s.connect_cb ≡ none)
unfolding main construct_server set_server_message_callback
main-starts {A} {S} inet_pton inet_ntop a base address sock bound listens s =
    go (init base (from_ip inet_pton inet_ntop Programs.localhost 9999 false) 3 sock bound)
  where
    fresh : TcpServer → Server A S
    fresh t = record {
      tcp_server = t;
      thread_init_cb = none;
      connect_cb = none;
      message_cb = none;
      write_cb = none;
      error_cb = none;
      objects = λ _. none;
    }

    with_echo : Server A S → Server A S
    with_echo server = record server { message_cb = some (echo no_callbacks a) }

    go :
        (made : Option TcpServer)
        → ((made >>= λ t. some (fresh t)) >>= λ server.
            start_server address listens (with_echo server))
          ≡ some s
        → (before : TcpServer) × (start address listens before ≡ some s.tcp_server)
          × (s.connect_cb ≡ none)
    go none bad = ground arith
    go (some t) e =
        let (started, kept) = start_server-some address listens (with_echo (fresh t)) s e in
        (t, started, kept)

-- The server that `main` starts takes the first connection, but the loop that comes to complete it
-- calls the empty callback for connections, which ends the program.
pub main-crashes :
    {A S : Type 0} (make : ℕ → ℤ → Server A S → Option (Server A S))
    (inet_pton : ℕ → List ℕ → Option (List ℕ)) (inet_ntop : ℕ → List ℕ → List ℕ) (a : Answer)
    (base : ℕ) (address : ℕ → ℕ) (sock bound listens : ℤ) (s : Server A S) (object : ℕ) (fd : ℤ)
    (size : ℕ) (ret : ℤ) (stored peer : SockAddress) (conn : Connection) (loop : ℕ)
    → main inet_pton inet_ntop a base address sock bound listens ≡ some s
    → conn.address ≡ object
    → (s' : Server A S) × (new_connection_object object fd size ret stored peer s ≡ some s')
      × (perform make (do_connect_complete loop conn) s' ≡ none)
main-crashes {A} {S} make inet_pton inet_ntop a base address sock bound listens s object fd size ret
      stored peer conn loop ran same =
    let (before, started, unset) =
      main-starts inet_pton inet_ntop a base address sock bound listens s ran in
    no_callback-crashes make address listens object fd size ret stored peer conn same loop before s
      started unset
