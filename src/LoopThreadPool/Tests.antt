-- ===== src/LoopThreadPool/Tests.antt =====
-- Runs of a pool, and its theorem at a concrete one.
use bounce.Prelude.{ℕ, ◌+◌, ◌%◌, ◌<◌, ◌≡◌, refl, some, List, [], ◌∷◌, arith, get_elem?, length}
use bounce.LoopThreadPool.{LoopThreadPool, init, start, set_thread_number}
use bounce.LoopThreadPool.Calls.{
  Call, starts, sets_thread_number, gets_loop, run_calls, IsReady, run_calls-started,
}
use bounce.LoopThreadPool.Turns.{get_loops, get_loops-round_robin}

abbrev address : ℕ → ℕ
address i = 100 + i

-- The number of threads is fixed once they are started.
fixed : set_thread_number 5 (start address (init 2)) ≡ start address (set_thread_number 2 (init 9))
unfolding set_thread_number start init
fixed = refl

get_loops-round_robin_example :
    (ls : List ℕ) × (p : LoopThreadPool) × (get_loops 5 (start address (init 2)) ≡ some (ls, p))
    × (length ls ≡ 5)
    × ((i : ℕ) → i < 5 → get_elem? ls i ≡ some (address (i % 2)))
get_loops-round_robin_example = get_loops-round_robin address 2 5 (omega arith) (omega arith)

abbrev calls : List Call
calls = sets_thread_number 7 ∷ gets_loop ∷ gets_loop ∷ starts address ∷ gets_loop ∷ []

calls_of_started :
    (r : List ℕ × LoopThreadPool) × (run_calls calls (start address (init 2)) ≡ some r)
    × IsReady r.1
unfolding init
calls_of_started = run_calls-started address calls (init 2) (omega arith)
