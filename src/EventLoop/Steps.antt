-- ===== src/EventLoop/Steps.antt =====
-- The steps of a loop's thread and of the threads that queue tasks for it.
use bounce.Prelude.{ℕ, suc, ◌≡◌, ◌≢◌, Bool, true, false, ◌||◌, List, [], ◌∷◌, ◌++◌}
use bounce.EventLoop.{
  EventLoop, Functor, Phase, polling, handling, swapping, running, init, push, weak_up,
  queue_task_in_thread, poll_returns, weakup_callback, start_tasks, swap_tasks, run_task, end_tasks,
}

abbrev pub is_running : Phase → Bool
is_running (running l) = true
is_running _ = false

-- A step, with the tasks that it queues, and whether it queues one while `doTheTasks` runs those
-- that it has taken.
pub data Step : EventLoop → EventLoop → List Functor → Bool → Type 0 where
  -- Another thread has the lock, and pushes a task.
  pushes :
      {e : EventLoop} (f : Functor)
      → Step e (record (push f e) { writers = suc e.writers }) (f ∷ []) (is_running e.phase)
  -- It comes to the wake-up.
  wakes :
      {e : EventLoop} (thread n : ℕ)
      → thread ≢ e.thread_id
      → e.writers ≡ suc n
      → Step e (weak_up thread (record e { writers = n })) [] false
  -- A callback or a task in the loop's own thread queues a task.
  queues :
      {e : EventLoop} (f : Functor)
      → e.phase ≢ polling
      → Step e (queue_task_in_thread e.thread_id f e) (f ∷ []) (is_running e.phase)
  polls : {e : EventLoop} → e.phase ≡ polling → Step e (poll_returns e) [] false
  reads : {e : EventLoop} → e.phase ≡ handling true → Step e (weakup_callback e) [] false
  starts : {e : EventLoop} → e.phase ≡ handling false → Step e (start_tasks e) [] false
  swaps : {e : EventLoop} → e.phase ≡ swapping → Step e (swap_tasks e) [] false
  runs :
      {e : EventLoop} (f : Functor) (rest : List Functor)
      → e.phase ≡ running (f ∷ rest)
      → Step e (run_task f rest e) [] false
  ends : {e : EventLoop} → e.phase ≡ running [] → Step e (end_tasks e) [] false

-- Sequences of steps from a new loop, with all the tasks that they queue, and whether one is queued
-- while `doTheTasks` runs those that it has taken.
pub data Reach (thread : ℕ) : EventLoop → List Functor → Bool → Type 0 where
  here : Reach thread (init thread) [] false
  step :
      {e e' : EventLoop} {queued more : List Functor} {late now : Bool}
      → Reach thread e queued late
      → Step e e' more now
      → Reach thread e' (queued ++ more) (late || now)
