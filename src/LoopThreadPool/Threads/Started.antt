-- ===== src/LoopThreadPool/Threads/Started.antt =====
-- A pool that has been started: its threads run its loops, and it cannot be destroyed.
use bounce.Prelude.{ℕ, zero, suc, Option, some, List, [], ◌∷◌, ◌++◌}
use bounce.EventLoopThread
use bounce.EventLoopThread.{EventLoopThread}
use bounce.LoopThreadPool.{LoopThreadPool}
use bounce.LoopThreadPool.Threads.{Threads, call_thread_cb}

-- The threads of the first `n` loops, in the order in which they were started.
unfoldable pub threads_of : (ℕ → ℕ) → ℕ → List (EventLoopThread ℕ)
threads_of address zero = []
threads_of address (suc n) =
    threads_of address n ++ record { loop_func = some (address n); thread = some (address n) } ∷ []

-- Those loops, in the same order.
unfoldable pub loops_of : (ℕ → ℕ) → ℕ → List ℕ
loops_of address zero = []
loops_of address (suc n) = loops_of address n ++ address n ∷ []

module _ {S : Type 0} (address : ℕ → ℕ) (cb : Option (ℕ → S → S)) where
  -- The callback has run for the first `n` loops.
  unfoldable pub called : ℕ → S → S
  called zero s = s
  called (suc n) s = call_thread_cb cb (address n) (called n s)
