-- ===== src/EventLoop.antt =====
-- bounce/event_loop.h and bounce/event_loop.cc: the tasks that threads queue for a loop, and how they
-- wake it. A thread other than the loop's takes two steps to queue a task, the `push_back` under the
-- lock and the wake-up, and the loop and other threads may step in between.
pub mod Steps
pub mod Tasks
pub mod WakeUp
pub mod Turn
pub mod Loop
pub mod Context
pub mod Construct
pub mod Timers
pub mod Timed
pub mod Calls
mod Tests
use bounce.Prelude.{
  ℕ, zero, suc, ◌+◌, ◌-◌, ◌^◌, Bool, true, false, not, ◌&&◌, Option, none, some, List, [], ◌∷◌,
  ◌++◌, ltb, ◌==◌, if◌then◌else◌,
}

-- A task, by a number; what it does is seen in the steps that its thread takes.
abbrev pub Functor : Type 0
Functor = ℕ

-- Where the thread of the loop is: in `poll`; at the channels, of which that for wake-ups may still
-- have to be handled; in `doTheTasks` before the swap; or with tasks left to run.
pub data Phase : Type 0 where
  polling : Phase
  handling : Bool → Phase
  swapping : Phase
  running : List Functor → Phase

-- `weakup` is the count of the eventfd, `writers` the number of threads that have pushed a task and
-- not yet come to the wake-up, and `ran` lists the tasks of the queue that have run.
pub record EventLoop : Type 0 where
  pub thread_id : ℕ
  pub phase : Phase
  pub doing_the_tasks : Bool
  pub task_vec : List Functor
  pub weakup : ℕ
  pub writers : ℕ
  pub ran : List Functor

-- The constructor, and the beginning of `loop` in a thread.
unfoldable pub init : ℕ → EventLoop
init thread = record {
  thread_id = thread;
  phase = polling;
  doing_the_tasks = false;
  task_vec = [];
  weakup = 0;
  writers = 0;
  ran = [];
}

-- `task_vec_.push_back(func)`.
unfoldable pub push : Functor → EventLoop → EventLoop
push f e = record e { task_vec = e.task_vec ++ f ∷ [] }

-- `::write` of a one to an eventfd, which fails where its count is at the limit.
abbrev pub write_one : ℕ → ℕ
write_one count = if ltb count (2 ^ 64 - 2) then count + 1 else count

-- The wake-up, by the thread that has queued a task.
unfoldable pub weak_up : ℕ → EventLoop → EventLoop
weak_up thread e =
    if not (thread == e.thread_id) && not e.doing_the_tasks
    then record e { weakup = write_one e.weakup }
    else e

unfoldable pub queue_task_in_thread : ℕ → Functor → EventLoop → EventLoop
unfolding push weak_up
queue_task_in_thread thread f e = weak_up thread (push f e)

-- `doTaskInThread`: the tasks that it runs at once, and the loop.
unfoldable pub do_task_in_thread : ℕ → Functor → EventLoop → List Functor × EventLoop
unfolding queue_task_in_thread
do_task_in_thread thread f e =
    if e.thread_id == thread then (f ∷ [], e) else ([], queue_task_in_thread thread f e)

-- The overload of `doTaskInThread` for a function that can be moved from.
unfoldable pub do_moved_task_in_thread : ℕ → Functor → EventLoop → List Functor × EventLoop
unfolding queue_task_in_thread
do_moved_task_in_thread thread f e =
    if e.thread_id == thread then (f ∷ [], e) else ([], queue_task_in_thread thread f e)

-- `poll` returns, for the eventfd if that is readable.
unfoldable pub poll_returns : EventLoop → EventLoop
poll_returns e = record e { phase = handling (ltb 0 e.weakup) }

-- The `::read` takes the whole count.
unfoldable pub weakup_callback : EventLoop → EventLoop
weakup_callback e = record e { phase = handling false; weakup = 0 }

-- `doTheTasks` in its steps: its beginning, the swap under the lock, one task, and its end.
unfoldable pub start_tasks : EventLoop → EventLoop
start_tasks e = record e { phase = swapping; doing_the_tasks = true }

unfoldable pub swap_tasks : EventLoop → EventLoop
swap_tasks e = record e { phase = running e.task_vec; task_vec = [] }

unfoldable pub run_task : Functor → List Functor → EventLoop → EventLoop
run_task f rest e = record e { phase = running rest; ran = e.ran ++ f ∷ [] }

unfoldable pub end_tasks : EventLoop → EventLoop
end_tasks e = record e { phase = polling; doing_the_tasks = false }

-- The loop over the tasks that were taken, and `doTheTasks` where no other thread steps in.
unfoldable pub run_tasks : List Functor → EventLoop → EventLoop
unfolding run_task
run_tasks [] e = e
run_tasks (f ∷ rest) e = run_tasks rest (run_task f rest e)

unfoldable pub do_the_tasks : EventLoop → EventLoop
unfolding start_tasks swap_tasks run_tasks end_tasks
do_the_tasks e = end_tasks (run_tasks e.task_vec (swap_tasks (start_tasks e)))

-- One turn of `loop` in which no other thread steps in and no channel but that for wake-ups is
-- active.
unfoldable pub turn : EventLoop → EventLoop
unfolding poll_returns weakup_callback do_the_tasks
turn e = do_the_tasks (if ltb 0 e.weakup then weakup_callback (poll_returns e) else poll_returns e)
