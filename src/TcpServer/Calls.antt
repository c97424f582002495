-- ===== src/TcpServer/Calls.antt =====
-- The functions of a server, called in any order, by the program and by the loops.
use bounce.Prelude.{
  ℕ, ◌≡◌, refl, sym, ap, ◌∙◌, inl, inr, ◌⊎◌, true, false, Option, none, some, List, [], ◌∷◌, arith,
  ◌==◌, ◌>>=◌, subst,
}
use bounce.Prelude.Int.{ℤ}
use bounce.Prelude.Outcomes.{returned}
use bounce.Acceptor.{Acceptor, start_listen}
use bounce.LoopThreadPool
use bounce.LoopThreadPool.{LoopThreadPool}
use bounce.LoopThreadPool.Calls.{IsReady, start-pool, get_loop-IsReady}
use bounce.TcpServer.{
  TcpServer, Connection, start, set_thread_number, set_new_connection, choose_loop, add_connection,
  new_connection, remove_connection, remove_connection_in_loop,
}

pub data Call : Type 0 where
  sets_thread_number : ℕ → Call
  sets_new_connection : ℤ → Call
  makes_connection : ℕ → ℤ → Call
  removes_connection : Connection → Call
  removes_connection_in_loop : Connection → Call

unfoldable pub run_call : Call → TcpServer → Option TcpServer
unfolding set_thread_number set_new_connection new_connection remove_connection
    remove_connection_in_loop
run_call (sets_thread_number num) s = some (set_thread_number num s)
run_call (sets_new_connection fd) s = some (set_new_connection fd s)
run_call (makes_connection address fd) s = new_connection address fd s
run_call (removes_connection conn) s = some (remove_connection conn s)
run_call (removes_connection_in_loop conn) s = some (remove_connection_in_loop conn s)

unfoldable pub run_calls : List Call → TcpServer → Option TcpServer
unfolding run_call
run_calls [] s = some s
run_calls (call ∷ calls) s = run_call call s >>= run_calls calls

-- A server that has started, and whose pool has no threads or is ready.
pub record IsRunning (s : TcpServer) : Type 0 where
  pub started : s.started ≡ true
  pub pool : (s.thread_pool.thread_num ≡ 0) ⊎ IsReady s.thread_pool

choose_loop-IsRunning :
    (s : TcpServer)
    → IsRunning s
    → (l : ℕ) × (p : LoopThreadPool) × (choose_loop s ≡ some (l, p))
      × ((p.thread_num ≡ 0) ⊎ IsReady p)
unfolding choose_loop
choose_loop-IsRunning s r = elim r.pool [
  | inl none_ ↦ (s.loop, s.thread_pool, rw none_ refl, inl none_)
  | inr ready ↦
      let (l, p, found, ready') = get_loop-IsReady s.thread_pool ready in
      (l, p, rw (pooled ready) found, inr ready')
]
  where
    pooled : IsReady s.thread_pool → (s.thread_pool.thread_num == 0) ≡ false
    pooled ready = ground (arith, ready.threads)

-- The number of threads is fixed when the server has started.
set_thread_number-started :
    (num : ℕ) (s : TcpServer) → s.started ≡ true → set_thread_number num s ≡ s
unfolding set_thread_number
set_thread_number-started num s e = rw (e, set_thread_number) refl

remove_connection_in_loop-thread_pool :
    (conn : Connection) (s : TcpServer)
    → ((remove_connection_in_loop conn s).started ≡ s.started)
      × ((remove_connection_in_loop conn s).thread_pool ≡ s.thread_pool)
unfolding remove_connection_in_loop
remove_connection_in_loop-thread_pool conn s = (ground arith, ground arith)

run_call-IsRunning :
    (call : Call) (s : TcpServer)
    → IsRunning s
    → (s' : TcpServer) × (run_call call s ≡ some s') × IsRunning s'
unfolding run_call set_new_connection new_connection add_connection remove_connection
run_call-IsRunning (sets_thread_number num) s r =
    (s, ap some (set_thread_number-started num s r.started), r)
run_call-IsRunning (sets_new_connection fd) s r =
    (set_new_connection fd s, refl, record { started = r.started; pool = r.pool })
run_call-IsRunning (makes_connection address fd) s r =
    let (l, p, chosen, pool) = choose_loop-IsRunning s r in
    (
      add_connection address fd l p s,
      ap
          (λ (o : Option (ℕ × LoopThreadPool)).
            o >>= λ c. some (add_connection address fd c.0 c.1 s))
          chosen,
      record { started = r.started; pool = pool },
    )
run_call-IsRunning (removes_connection conn) s r =
    (remove_connection conn s, refl, record { started = r.started; pool = r.pool })
run_call-IsRunning (removes_connection_in_loop conn) s r =
    let kept = remove_connection_in_loop-thread_pool conn s in
    (
      remove_connection_in_loop conn s,
      refl,
      record {
        started = kept.0 ∙ r.started;
        pool = subst (λ p. (p.thread_num ≡ 0) ⊎ IsReady p) (sym kept.1) r.pool;
      },
    )

run_calls-IsRunning :
    (calls : List Call) (s : TcpServer)
    → IsRunning s
    → (s' : TcpServer) × (run_calls calls s ≡ some s') × IsRunning s'
unfolding run_calls
run_calls-IsRunning [] s r = (s, refl, r)
run_calls-IsRunning (call ∷ calls) s r =
    let (s', done, r') = run_call-IsRunning call s r in
    let (s'', done', r'') = run_calls-IsRunning calls s' r' in
    (s'', ap (λ (o : Option TcpServer). o >>= run_calls calls) done ∙ done', r'')

start-IsRunning :
    (address : ℕ → ℕ) (ret : ℤ) (s t : TcpServer) → start address ret s ≡ some t → IsRunning t
unfolding start
start-IsRunning address ret s t e = go (returned (start_listen ret s.acceptor)) e
  where
    go :
        (listening : Option Acceptor)
        → (listening >>= λ a. some (record s {
          thread_pool = LoopThreadPool.start address s.thread_pool;
          acceptor = a;
          started = true;
        }))
          ≡ some t
        → IsRunning t
    go none bad = ground arith
    go (some a) same =
        subst IsRunning (ap (λ o. elim o [ none ↦ t | some u ↦ u ]) same)
          (record { started = refl; pool = start-pool address s.thread_pool })

-- When `start` of a server comes back, whatever the number of threads is, no sequence of its other
-- functions, called by the program and by the loops, makes it look for a loop that is not there. It
-- stays started, and its pool has no threads or a loop for each of them.
pub run_calls-start :
    (address : ℕ → ℕ) (ret : ℤ) (calls : List Call) (s t : TcpServer)
    → start address ret s ≡ some t
    → (u : TcpServer) × (run_calls calls t ≡ some u) × IsRunning u
run_calls-start address ret calls s t e =
    run_calls-IsRunning calls t (start-IsRunning address ret s t e)
