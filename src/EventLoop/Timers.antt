-- ===== src/EventLoop/Timers.antt =====
-- The functions of a loop for timers, and those of its timer queue (bounce/timer_queue.cc) that hand
-- them to the loop. `bind_add` and `bind_delete` are the tasks that `std::bind` makes of
-- `addTimerInLoop` and `deleteTimerInLoop` for a timer.
pub mod Deleting
mod Tests
use bounce.Prelude.{ℕ, ◌+◌, List}
use bounce.TimerQueue.{Timer}
use bounce.EventLoop.{EventLoop, Functor, do_moved_task_in_thread, queue_task_in_thread}

-- The constructor of a timer, at a new address.
unfoldable pub make_timer : ℕ → ℕ → ℕ → Timer
make_timer address time duration = record {
  address = address;
  expiration = time;
  duration = duration;
}

module _ (bind_add bind_delete : Timer → Functor) where
  -- The timer, the tasks that run at once, and the loop.
  unfoldable pub add_timer : ℕ → ℕ → ℕ → ℕ → EventLoop → Timer × List Functor × EventLoop
  unfolding make_timer do_moved_task_in_thread
  add_timer thread address expiration duration e =
      let t = make_timer address expiration duration in
      let done = do_moved_task_in_thread thread (bind_add t) e in (t, done.0, done.1)

  unfoldable pub delete_timer : ℕ → Timer → EventLoop → EventLoop
  unfolding queue_task_in_thread
  delete_timer thread t e = queue_task_in_thread thread (bind_delete t) e

  -- `runAt`, the two `runAfter` and `runEvery`, where `now` is the clock.
  unfoldable pub loop_run_at : ℕ → ℕ → ℕ → EventLoop → List Functor × EventLoop
  unfolding add_timer
  loop_run_at thread address expiration e =
      let added = add_timer thread address expiration 0 e in (added.1, added.2)

  unfoldable pub loop_run_after : ℕ → ℕ → ℕ → ℕ → EventLoop → List Functor × EventLoop
  unfolding add_timer
  loop_run_after thread address now delay e =
      let added = add_timer thread address (now + delay) 0 e in (added.1, added.2)

  unfoldable pub loop_run_every : ℕ → ℕ → ℕ → ℕ → EventLoop → Timer × List Functor × EventLoop
  unfolding add_timer
  loop_run_every thread address now interval e =
      add_timer thread address (now + interval) interval e

  unfoldable pub loop_delete_timer : ℕ → Timer → EventLoop → EventLoop
  unfolding delete_timer
  loop_delete_timer thread t e = delete_timer thread t e
