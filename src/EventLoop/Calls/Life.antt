-- ===== src/EventLoop/Calls/Life.antt =====
-- A loop from its constructor on.
use bounce.Prelude.{ℕ, ◌≡◌, refl, some, List}
use bounce.Prelude.Int.{ℤ}
use bounce.Prelude.Outcomes.{Outcome, returns, ◌>>=◌}
use bounce.Poller.{Poller}
use bounce.TimerQueue.{Timer}
use bounce.EventLoop.{EventLoop, Functor, init}
use bounce.EventLoop.Construct.{construct, or_crash}
use bounce.EventLoop.Calls.{Call, at_once, queued, on_poller_each, run_calls}
use bounce.EventLoop.Calls.Given.{run_calls-given}

module _ {W : Type 0} (poller : Poller W) (bind_add bind_delete : Timer → Functor) where
  -- The constructor in the thread `loop`, with the channels at the addresses `t` and `p`, and then
  -- calls: the tasks that run at once, the loop and its poller.
  unfoldable pub life : ℕ → ℕ → ℕ → ℤ → List (ℕ × Call) → W → Outcome (List Functor × EventLoop × W)
  unfolding construct init run_calls
  life loop t p weakup_fd calls w = do
    v ← construct poller t p weakup_fd w
    or_crash (run_calls poller bind_add bind_delete calls (init loop) v)

  -- Whatever threads call the functions of a loop, and in whatever order, once the constructor has
  -- returned: where the poller takes all the channels, the calls come back, and each task that they
  -- give, a timer's too, has run at once if the loop's own thread gave it to doTaskInThread, and waits
  -- in the queue otherwise, both in the order of the calls. A task to delete a timer always waits. The
  -- poller is as after the changes of channels alone.
  pub life-given :
      (loop t p : ℕ) (weakup_fd : ℤ) (calls : List (ℕ × Call)) (w v w' : W)
      → construct poller t p weakup_fd w ≡ returns v
      → on_poller_each poller calls v ≡ some w'
      → (e : EventLoop) × (life loop t p weakup_fd calls w
          ≡ returns (at_once bind_add bind_delete loop calls, e, w'))
        × (e.thread_id ≡ loop)
        × (e.task_vec ≡ queued bind_add bind_delete loop calls)
  unfolding life init
  life-given loop t p weakup_fd calls w v w' made done =
      let (e, ran, same, vec) =
        run_calls-given bind_add bind_delete poller calls (init loop) v w' done in
      (e, rw (made, ran) refl, same, vec)
