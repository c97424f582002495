-- ===== src/TcpServer/Connections.antt =====
-- The life of a connection in its server.
use bounce.Prelude.{
  ℕ, ◌+◌, ◌%◌, ◌^◌, ◌<◌, ◌≡◌, ◌≢◌, refl, sym, subst, ap, ◌∙◌, inl, inr, Option, none, some, [], ◌∷◌,
  ◌++◌, arith, ◌==◌, ◌>>=◌, get_elem?, length, get_elem?-some, Bool-cases, ◌⊎◌,
}
use bounce.Prelude.Int.{ℤ, put_at, put_at-same, put_at-other}
use bounce.LoopThreadPool.{LoopThreadPool, get_loop_for_new_connection, wrapped}
use bounce.TcpServer.{
  Connection, do_connect_complete, queue_destroy, TcpServer, choose_loop, insert_connection,
  add_connection, new_connection, remove_connection_in_loop,
}

-- The server has loops for its connections: its own, or one for each thread of a pool that has
-- started.
pub record HasLoops (s : TcpServer) : Type 0 where
  pub loops : length s.thread_pool.loops ≡ s.thread_pool.thread_num

-- A loop of the server.
abbrev pub IsLoop : TcpServer → ℕ → Type 0
IsLoop s l = (l ≡ s.loop) ⊎ ((i : ℕ) × (get_elem? s.thread_pool.loops i ≡ some l))

-- What `newConnection` does with a descriptor that is not in the map.
pub record Connects (fd : ℤ) (s s' : TcpServer) (conn : Connection) : Type 0 where
  pub own : conn.fd ≡ fd
  pub base : s'.loop ≡ s.loop
  pub known : s'.connection_map fd ≡ some conn
  pub others : (g : ℤ) → fd ≢ g → s'.connection_map g ≡ s.connection_map g
  pub loop : IsLoop s conn.loop
  pub posted : s'.posts ≡ s.posts ++ do_connect_complete conn.loop conn ∷ []
  pub loops : HasLoops s'

wrapped-lt : (p : LoopThreadPool) → p.thread_num ≢ 0 → wrapped p < p.thread_num
unfolding wrapped
wrapped-lt p h = ground arith

choose_loop_lem :
    (s : TcpServer)
    → HasLoops s
    → (l : ℕ) × (pool : LoopThreadPool) × (choose_loop s ≡ some (l, pool))
      × IsLoop s l
      × (length pool.loops ≡ pool.thread_num)
unfolding choose_loop get_loop_for_new_connection
choose_loop_lem s h = elim (Bool-cases (s.thread_pool.thread_num == 0)) [
  | inl own ↦ (s.loop, s.thread_pool, rw own refl, inl refl, h.loops)
  | inr pooled ↦
      let i = wrapped s.thread_pool in
      let (l, found) =
        get_elem?-some s.thread_pool.loops i
          (omega (arith, h.loops, wrapped-lt s.thread_pool (ground (arith, pooled)))) in
      (
        l,
        record (s.thread_pool) { next_loop_index = (i + 1) % 2 ^ 32 },
        rw pooled (
            ap
              (λ o. o >>= (λ loop.
                some (loop, record (s.thread_pool) { next_loop_index = (i + 1) % 2 ^ 32 })))
              found),
        inr (i, found),
        h.loops,
      )
]

insert_connection_lem :
    (conn : Connection) (m : ℤ → Option Connection)
    → m conn.fd ≡ none
    → insert_connection conn m ≡ put_at conn.fd (some conn) m
unfolding insert_connection
insert_connection_lem conn m e = rw (e, insert_connection) refl

-- A server that has its loops makes a connection of a descriptor that is not in its map: the map then
-- has the new object under it and is otherwise as before, the connection has a loop of the server, and
-- that loop is given the task to complete it.
pub new_connection-Connects :
    (address : ℕ) (fd : ℤ) (s : TcpServer)
    → HasLoops s
    → s.connection_map fd ≡ none
    → (s' : TcpServer) × (conn : Connection) × (new_connection address fd s ≡ some s')
      × (conn.address ≡ address)
      × Connects fd s s' conn
unfolding new_connection add_connection
new_connection-Connects address fd s h free =
    let (l, pool, chosen, is_loop, sized) = choose_loop_lem s h in
    let conn : Connection = record { address = address; fd = fd; loop = l } in
    let inserted = insert_connection_lem conn s.connection_map free in
    (
      add_connection address fd l pool s,
      conn,
      ap (λ o. o >>= (λ c. some (add_connection address fd c.0 c.1 s))) chosen,
      refl,
      record {
        own = refl;
        base = refl;
        known = ap (λ m. m fd) inserted ∙ put_at-same fd (some conn) s.connection_map;
        others = λ g ne. ap (λ m. m g) inserted ∙ put_at-other fd g (some conn) s.connection_map ne;
        loop = is_loop;
        posted = refl;
        loops = record { loops = sized };
      },
    )

-- What the first removal of a connection does.
pub record Removes (conn : Connection) (s s' : TcpServer) : Type 0 where
  pub gone : s'.connection_map conn.fd ≡ none
  pub others : (g : ℤ) → conn.fd ≢ g → s'.connection_map g ≡ s.connection_map g
  pub posted : s'.posts ≡ s.posts ++ queue_destroy conn.loop conn ∷ []

remove_mapped :
    (conn c : Connection) (s : TcpServer)
    → s.connection_map conn.fd ≡ some c
    → remove_connection_in_loop conn s ≡ record s {
      connection_map = put_at conn.fd none s.connection_map;
      posts = s.posts ++ queue_destroy conn.loop conn ∷ [];
    }
unfolding remove_connection_in_loop
remove_mapped conn c s e = rw (e, remove_connection_in_loop) refl

remove_unknown :
    (conn : Connection) (s : TcpServer)
    → s.connection_map conn.fd ≡ none
    → remove_connection_in_loop conn s ≡ s
unfolding remove_connection_in_loop
remove_unknown conn s e = rw (e, remove_connection_in_loop) refl

-- A connection whose descriptor is in the map is taken out, all others stay, and its own loop is given
-- the task to destroy it; to remove it again changes nothing, so that it is destroyed once.
pub remove_connection_in_loop-once :
    (conn c : Connection) (s : TcpServer)
    → s.connection_map conn.fd ≡ some c
    → Removes conn s (remove_connection_in_loop conn s)
      × (remove_connection_in_loop conn (remove_connection_in_loop conn s)
          ≡ remove_connection_in_loop conn s)
remove_connection_in_loop-once conn c s e =
    (removes, remove_unknown conn (remove_connection_in_loop conn s) removes.gone)
  where
    removes : Removes conn s (remove_connection_in_loop conn s)
    removes = subst (Removes conn s) (sym (remove_mapped conn c s e)) (record {
      gone = put_at-same conn.fd none s.connection_map;
      others = λ g ne. put_at-other conn.fd g none s.connection_map ne;
      posted = refl;
    })
