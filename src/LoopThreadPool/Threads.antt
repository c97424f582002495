-- ===== src/LoopThreadPool/Threads.antt =====
-- The pool with its threads: what `start` and `threadLoop` do for each, and the end of the pool.
pub mod Started
mod Tests
use bounce.Prelude.{ℕ, zero, suc, true, Option, none, some, List, [], ◌∷◌, ◌++◌}
use bounce.Prelude.Outcomes.{Outcome, returns, ◌>>=◌}
use bounce.Logger.{Spdlog}
use bounce.EventLoopThread
use bounce.EventLoopThread.{EventLoopThread, run, destroy}
use bounce.LoopThreadPool
use bounce.LoopThreadPool.{LoopThreadPool, list_loop}

abbrev pub InitThreadCallback : Type 0 → Type 0
InitThreadCallback S = ℕ → S → S

-- `threads` holds the started threads, whose function is `threadLoop`, with the loop that it makes.
-- `state` is what the callback for new threads changes.
pub record Threads (S : Type 0) : Type 0 where
  pub pool : LoopThreadPool
  pub thread_cb : Option (InitThreadCallback S)
  pub threads : List (EventLoopThread ℕ)
  pub state : S

-- The destructor of the pool destroys its threads.
unfoldable pub destroy_threads : List (EventLoopThread ℕ) → Outcome (Unit {0})
unfolding destroy
destroy_threads [] = returns tt
destroy_threads (t ∷ ts) = destroy t >>= λ _. destroy_threads ts

module _ {S : Type 0} where
  unfoldable pub construct : ℕ → S → Threads S
  unfolding LoopThreadPool.init
  construct thread_num s = record {
    pool = LoopThreadPool.init thread_num;
    thread_cb = none;
    threads = [];
    state = s;
  }

  unfoldable pub add_init_thread_callback : Option (InitThreadCallback S) → Threads S → Threads S
  add_init_thread_callback cb t = record t { thread_cb = cb }

  unfoldable pub get_thread_number : Threads S → ℕ
  get_thread_number t = t.pool.thread_num

  unfoldable pub call_thread_cb : Option (InitThreadCallback S) → ℕ → S → S
  call_thread_cb none loop s = s
  call_thread_cb (some f) loop s = f loop s

  -- `threadLoop` as far as its loop's own `loop`: the loop is listed, and the callback runs.
  unfoldable pub thread_loop : ℕ → Threads S → Threads S
  unfolding list_loop call_thread_cb
  thread_loop loop t = record t {
    pool = list_loop loop t.pool;
    state = call_thread_cb t.thread_cb loop t.state;
  }

  unfoldable pub destroy_pool : Threads S → Outcome (Unit {0})
  unfolding destroy_threads
  destroy_pool t = destroy_threads t.threads

-- `address i` is the loop of the i-th thread.
module _ {S R : Type 0} (spdlog : Spdlog R) (r : R) (address : ℕ → ℕ) where
  -- One pass of the loop of `start`: the thread is run, which lists its loop, and kept.
  unfoldable pub start_thread : ℕ → Threads S → Outcome (Threads S)
  unfolding EventLoopThread.init run thread_loop
  start_thread i t = do
    thread ← run spdlog r (EventLoopThread.init (some (address i)))
    let listed = thread_loop (address i) t
    returns (record listed { threads = listed.threads ++ thread ∷ [] })

  unfoldable pub start_each : ℕ → Threads S → Outcome (Threads S)
  unfolding start_thread
  start_each zero t = returns t
  start_each (suc n) t = start_each n t >>= start_thread n

  unfoldable pub start_all : Threads S → Outcome (Threads S)
  unfolding start_each
  start_all t = start_each t.pool.thread_num (record t { pool = record t.pool { started = true } })
