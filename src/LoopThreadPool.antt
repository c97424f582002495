-- ===== src/LoopThreadPool.antt =====
-- bounce/loop_threadpool.h and bounce/loop_threadpool.cc: the threads of a server, each with a loop,
-- that take connections in turn. A loop is known by its address; `address i` is that of the one that
-- the i-th thread makes. `start` waits for each thread until its loop is listed.
pub mod Turns
pub mod Calls
pub mod Threads
mod Tests
use bounce.Prelude.{
  ℕ, zero, suc, ◌+◌, ◌%◌, ◌^◌, Bool, true, false, Option, none, some, List, [], ◌∷◌, ◌++◌,
  get_elem?, leb, if◌then◌else◌, ◌>>=◌,
}

pub record LoopThreadPool : Type 0 where
  pub started : Bool
  pub thread_num : ℕ
  pub next_loop_index : ℕ
  pub loops : List ℕ

unfoldable pub init : ℕ → LoopThreadPool
init thread_num = record {
  started = false;
  thread_num = thread_num;
  next_loop_index = 0;
  loops = [];
}

-- The part of `threadLoop` under the lock.
unfoldable pub list_loop : ℕ → LoopThreadPool → LoopThreadPool
list_loop loop p = record p { loops = p.loops ++ loop ∷ [] }

-- The first `n` threads are started.
unfoldable pub start_threads : (ℕ → ℕ) → ℕ → LoopThreadPool → LoopThreadPool
unfolding list_loop
start_threads address zero p = p
start_threads address (suc n) p = list_loop (address n) (start_threads address n p)

unfoldable pub start : (ℕ → ℕ) → LoopThreadPool → LoopThreadPool
unfolding start_threads
start address p = start_threads address p.thread_num (record p { started = true })

unfoldable pub set_thread_number : ℕ → LoopThreadPool → LoopThreadPool
set_thread_number num p = if p.started then p else record p { thread_num = num }

-- `next_loop_index_` after the test.
unfoldable pub wrapped : LoopThreadPool → ℕ
wrapped p = if leb p.thread_num p.next_loop_index then 0 else p.next_loop_index

-- The loop, and the pool with the next index; `none` where the index is out of range.
unfoldable pub get_loop_for_new_connection : LoopThreadPool → Option (ℕ × LoopThreadPool)
unfolding wrapped
get_loop_for_new_connection p = do
  loop ← get_elem? p.loops (wrapped p)
  some (loop, record p { next_loop_index = (wrapped p + 1) % 2 ^ 32 })
