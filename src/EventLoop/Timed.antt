-- ===== src/EventLoop/Timed.antt =====
-- A loop with its timer queue: threads queue the tasks that `addTimer` and `deleteTimer` make, and the
-- turns of the loop (bounce/event_loop.cc) run them, and `handleRead` where the descriptor of the
-- timers can be read. No other channel of the loop has callbacks, and those of the timers make none.
pub mod Kept
pub mod Handled
pub mod Given
pub mod Due
mod Tests
use bounce.Prelude.{
  ℕ, suc, ◌+◌, ◌≡◌, true, false, Option, none, some, List, [], ◌∷◌, ◌++◌, ◌==◌, if◌then◌else◌,
  ◌>>=◌,
}
use bounce.Channel.{Callbacks, no_callbacks, set_read_callback}
use bounce.Poller.{Poller}
use bounce.TimerQueue.{Timer, TimerQueue, init}
use bounce.TimerQueue.Calls.{
  Call, adds_timer_in_loop, deletes_timer_in_loop, handles_read, run_call,
}
use bounce.TimerQueue.Calls.Silent.{silent}
use bounce.EventLoop.{Functor}
use bounce.EventLoop.Timers.{make_timer}
use bounce.EventLoop.Loop.{Loop, Answer, loop_turn}

-- What `std::bind` makes of `addTimerInLoop` with a timer, and of `deleteTimerInLoop`.
pub data TimerTask : Type 0 where
  bind_add : ℕ → ℕ → TimerTask
  bind_delete : Timer → TimerTask

-- The queue, and how often the clock was read.
pub record Timers : Type 0 where
  pub readings : ℕ
  pub timers : Option (ℕ × TimerQueue)

abbrev pub task_call : TimerTask → ℕ → ℕ → Call
task_call (bind_add expiration duration) now clock = adds_timer_in_loop now expiration duration
task_call (bind_delete t) now clock = deletes_timer_in_loop t

-- `clock` is what the clock shows whenever it is read, and `task` tells what each functor is.
module _ {W : Type 0} (clock : ℕ → ℕ) where
  unfoldable pub call_timers : (ℕ → ℕ → Call) → Loop W Timers → Loop W Timers
  unfolding run_call
  call_timers call l =
      let k = l.state.readings in
      record l {
        state = record {
          readings = k + 2;
          timers = l.state.timers >>= run_call silent (call (clock k) (clock (suc k)));
        };
      }

  -- The channel of the queue has `handleRead` to read, and no other callbacks.
  unfoldable pub timed_handlers : ℕ → ℕ → Callbacks (Loop W Timers)
  unfolding call_timers set_read_callback
  timed_handlers timer_channel p =
      if p == timer_channel
      then set_read_callback (some (λ recv_time. call_timers handles_read)) no_callbacks
      else no_callbacks

  unfoldable pub run_functor : (Functor → TimerTask) → Functor → Loop W Timers → Loop W Timers
  unfolding call_timers
  run_functor task f = call_timers (task_call (task f))

  module _ (poller : Poller W) (timer_channel : ℕ) (task : Functor → TimerTask) where
    unfoldable pub timed_turn : Answer → Loop W Timers → Option (Loop W Timers)
    unfolding loop_turn timed_handlers run_functor
    timed_turn = loop_turn poller (timed_handlers timer_channel) (run_functor task)

    -- A loop that has come up, at which threads queue the functors listed, and that turns.
    pub data Reach (w : W) : List Functor → Loop W Timers → Type 0 where
      comes_up : Reach w [] (record {
        looping = true;
        doing_the_tasks = false;
        poller = w;
        active_channels = [];
        cur_channel = none;
        task_vec = [];
        state = record { readings = 0; timers = some (0, init) };
      })
      queues :
          {queued : List Functor} {l : Loop W Timers} (f : Functor)
          → Reach w queued l
          → Reach w (queued ++ f ∷ []) (record l { task_vec = l.task_vec ++ f ∷ [] })
      turns :
          {queued : List Functor} {l l' : Loop W Timers} (a : Answer)
          → Reach w queued l
          → timed_turn a l ≡ some l'
          → Reach w queued l'

-- The timer that a task adds, at the address `n`, before those of the tasks behind it.
unfoldable pub add_first : TimerTask → ℕ → (ℕ → List Timer) → List Timer
unfolding make_timer
add_first (bind_add expiration duration) n rest = make_timer n expiration duration ∷ rest (suc n)
add_first (bind_delete t) n rest = rest n

-- The timers that functors add, in order, from the address `n` on.
unfoldable pub timers_of : (Functor → TimerTask) → ℕ → List Functor → List Timer
unfolding add_first
timers_of task n [] = []
timers_of task n (f ∷ fs) = add_first (task f) n (λ m. timers_of task m fs)
