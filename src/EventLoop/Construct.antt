-- ===== src/EventLoop/Construct.antt =====
-- The constructor of a loop, with that of its timer queue (bounce/timer_queue.h): both make a channel
-- and watch it for reading. The channels lie at the addresses `t` and `p`.
pub mod Ready
mod Tests
use bounce.Prelude.{ℕ, Option, none, some, if◌then◌else◌}
use bounce.Prelude.Int.{ℤ, negsuc, eq_int}
use bounce.Prelude.Outcomes.{Outcome, returns, exits, crashes, ◌>>=◌}
use bounce.Channel.{enable_reading}
use bounce.Poller.{Poller, change_and_update}

abbrev pub or_crash {ℓ} : {W : Type ℓ} → Option W → Outcome W
or_crash none = crashes
or_crash (some w) = returns w

-- The status of `exit(-1)`, as the parent process sees it.
abbrev pub exit_status : ℕ
exit_status = 255

module _ {W : Type 0} (poller : Poller W) where
  -- The body of the timer queue's constructor. It enables reading whatever `timerfd_create` returned;
  -- a failure is only logged.
  unfoldable pub construct_timer_queue : ℕ → W → Outcome W
  unfolding change_and_update
  construct_timer_queue t w = or_crash (change_and_update poller enable_reading t w)

  -- The body of the loop's own; `weakup_fd` is what `::eventfd` returned.
  unfoldable pub construct_weak_up : ℕ → ℤ → W → Outcome W
  unfolding change_and_update
  construct_weak_up p weakup_fd w =
      if eq_int weakup_fd (negsuc 0)
      then exits exit_status
      else or_crash (change_and_update poller enable_reading p w)

  -- The timer queue is a member, which is made first.
  unfoldable pub construct : ℕ → ℕ → ℤ → W → Outcome W
  unfolding construct_timer_queue construct_weak_up
  construct t p weakup_fd w = construct_timer_queue t w >>= construct_weak_up p weakup_fd
