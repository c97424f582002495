-- ===== src/TimerQueue/Calls.antt =====
-- The functions of a timer queue that its loop runs, in any order: the tasks that `addTimer` and
-- `deleteTimer` give it, and `handleRead`.
pub mod Weights
pub mod Silent
pub mod Accounts
pub mod Lives
pub mod Due
mod Tests
use bounce.Prelude.{
  ℕ, zero, suc, ◌+◌, Option, none, some, List, [], ◌∷◌, ◌++◌, length, ◌==◌, if◌then◌else◌, ◌>>=◌,
}
use bounce.TimerQueue.{
  Timer, TimerQueue, init, add_timer_in_loop, delete_timer_in_loop, handle_read,
}
use bounce.EventLoop.Timers.{make_timer}

-- A timer is deleted as it is when the call runs: any timer, for one time or repeating, in a map or not.
-- `now` and `clock` are readings of the clock.
pub data Call : Type 0 where
  adds_timer_in_loop : ℕ → ℕ → ℕ → Call
  deletes_timer_in_loop : Timer → Call
  handles_read : ℕ → ℕ → Call

module _ (adds : List Timer → List (ℕ × Timer)) where
  -- A new timer is at the next address, which the first component is. The fuel is for a pass over the repeat timers that are there.
  unfoldable pub run_call : Call → ℕ × TimerQueue → Option (ℕ × TimerQueue)
  unfolding make_timer add_timer_in_loop delete_timer_in_loop handle_read
  run_call (adds_timer_in_loop now expiration duration) (n, q) =
      some (suc n, add_timer_in_loop now (make_timer n expiration duration) q)
  run_call (deletes_timer_in_loop t) (n, q) = some (n, delete_timer_in_loop t q)
  run_call (handles_read now clock) (n, q) = do
    q' ← handle_read adds (suc (length q.timer_map_repeat)) now clock q
    some (n, q')

  unfoldable pub run_calls : List Call → ℕ × TimerQueue → Option (ℕ × TimerQueue)
  unfolding run_call
  run_calls [] s = some s
  run_calls (call ∷ calls) s = run_call call s >>= run_calls calls

  -- The constructor, and then calls.
  unfoldable pub life : List Call → Option (ℕ × TimerQueue)
  unfolding run_calls
  life calls = run_calls calls (0, init)
