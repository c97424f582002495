-- ===== src/EventLoop/Calls.antt =====
-- The functions of a loop that threads call, in any order; `loop` itself is EventLoop/Loop.
pub mod Given
pub mod Life
mod Tests
use mathlib.Core.List.{append_assoc, append-nil}
use bounce.Prelude.{
  ℕ, ◌+◌, ◌≡◌, refl, sym, ap, ap₂, ◌∙◌, inl, inr, Bool, true, false, Option, none, some, List, [],
  ◌∷◌, ◌++◌, ◌==◌, if◌then◌else◌, ◌>>=◌, Bool-cases,
}
use bounce.Poller.{Poller, loop_update_channel, loop_remove_channel}
use bounce.TimerQueue.{Timer}
use bounce.EventLoop.{
  EventLoop, Functor, push, weak_up, do_task_in_thread, do_moved_task_in_thread,
  queue_task_in_thread,
}
use bounce.EventLoop.Timers.{
  make_timer, add_timer, loop_run_at, loop_run_after, loop_run_every, loop_delete_timer,
}

-- Timers are made at a new address, and `now` is the clock.
pub data Call : Type 0 where
  updates_channel : ℕ → Call
  removes_channel : ℕ → Call
  runs_at : ℕ → ℕ → Call
  runs_after : ℕ → ℕ → ℕ → Call
  runs_every : ℕ → ℕ → ℕ → Call
  deletes_timer : Timer → Call
  does_task : Functor → Call
  queues_task : Functor → Call
  does_moved_task : Functor → Call
  queues_moved_task : Functor → Call

module _ (bind_add bind_delete : Timer → Functor) where
  -- What a call by a thread does to the tasks: those that run at once, and the loop.
  unfoldable pub on_tasks : ℕ → Call → EventLoop → List Functor × EventLoop
  unfolding loop_run_at loop_run_after loop_run_every loop_delete_timer do_task_in_thread
      do_moved_task_in_thread queue_task_in_thread
  on_tasks thread (updates_channel p) e = ([], e)
  on_tasks thread (removes_channel p) e = ([], e)
  on_tasks thread (runs_at address expiration) e =
      loop_run_at bind_add bind_delete thread address expiration e
  on_tasks thread (runs_after address now delay) e =
      loop_run_after bind_add bind_delete thread address now delay e
  on_tasks thread (runs_every address now interval) e =
      let done = loop_run_every bind_add bind_delete thread address now interval e in
      (done.1, done.2)
  on_tasks thread (deletes_timer t) e = ([], loop_delete_timer bind_add bind_delete thread t e)
  on_tasks thread (does_task f) e = do_task_in_thread thread f e
  on_tasks thread (queues_task f) e = ([], queue_task_in_thread thread f e)
  on_tasks thread (does_moved_task f) e = do_moved_task_in_thread thread f e
  on_tasks thread (queues_moved_task f) e = ([], queue_task_in_thread thread f e)

  -- The tasks that a call gives to `doTaskInThread`, and those that it gives to `queueTaskInThread`.
  unfoldable pub to_do : Call → List Functor
  to_do (runs_at address expiration) = bind_add (make_timer address expiration 0) ∷ []
  to_do (runs_after address now delay) = bind_add (make_timer address (now + delay) 0) ∷ []
  to_do (runs_every address now interval) =
      bind_add (make_timer address (now + interval) interval) ∷ []
  to_do (does_task f) = f ∷ []
  to_do (does_moved_task f) = f ∷ []
  to_do _ = []

  unfoldable pub to_queue : Call → List Functor
  to_queue (deletes_timer t) = bind_delete t ∷ []
  to_queue (queues_task f) = f ∷ []
  to_queue (queues_moved_task f) = f ∷ []
  to_queue _ = []

  -- Of the calls on the loop of a thread, the tasks that run at once and those that are queued.
  unfoldable pub at_once : ℕ → List (ℕ × Call) → List Functor
  unfolding to_do
  at_once loop [] = []
  at_once loop ((thread, call) ∷ calls) =
      (if loop == thread then to_do call else []) ++ at_once loop calls

  unfoldable pub queued : ℕ → List (ℕ × Call) → List Functor
  unfolding to_do to_queue
  queued loop [] = []
  queued loop ((thread, call) ∷ calls) =
      (if loop == thread then to_queue call else to_do call ++ to_queue call) ++ queued loop calls

module _ {W : Type 0} (poller : Poller W) where
  unfoldable pub on_poller : Call → W → Option W
  unfolding loop_update_channel loop_remove_channel
  on_poller (updates_channel p) w = loop_update_channel poller p w
  on_poller (removes_channel p) w = loop_remove_channel poller p w
  on_poller _ w = some w

  unfoldable pub on_poller_each : List (ℕ × Call) → W → Option W
  unfolding on_poller
  on_poller_each [] w = some w
  on_poller_each ((thread, call) ∷ calls) w = on_poller call w >>= on_poller_each calls

  module _ (bind_add bind_delete : Timer → Functor) where
    -- The tasks that run at once, the loop and its poller, after a call.
    unfoldable pub run_call : ℕ → Call → EventLoop → W → Option (List Functor × EventLoop × W)
    unfolding on_tasks on_poller
    run_call thread call e w = do
      w' ← on_poller call w
      let done = on_tasks bind_add bind_delete thread call e
      some (done.0, done.1, w')

    -- Calls, each with the thread that makes it.
    unfoldable pub run_calls :
        List (ℕ × Call) → EventLoop → W → Option (List Functor × EventLoop × W)
    unfolding run_call
    run_calls [] e w = some ([], e, w)
    run_calls ((thread, call) ∷ calls) e w = do
      first ← run_call thread call e w
      rest ← run_calls calls first.1 first.2
      some (first.0 ++ rest.0, rest.1, rest.2)
