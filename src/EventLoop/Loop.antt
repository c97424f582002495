-- ===== src/EventLoop/Loop.antt =====
-- `EventLoop::loop` with its poller and channels: one turn after another, each with what `::poll`
-- answered. `EventLoop/Turn` has the same turns as the threads that queue tasks see them.
pub mod Handling
mod Tests
use bounce.Prelude.{ℕ, Bool, true, false, Option, none, some, List, [], ◌∷◌, ◌>>=◌}
use bounce.Prelude.Int.{ℤ}
use bounce.Channel.{Callbacks, handle_channel}
use bounce.Poller.{Poller}
use bounce.EventLoop.{Functor}

-- `state` is what the handlers of channels and the tasks change apart from the loop.
pub record Loop (W S : Type 0) : Type 0 where
  pub looping : Bool
  pub doing_the_tasks : Bool
  pub poller : W
  pub active_channels : List ℕ
  pub cur_channel : Option ℕ
  pub task_vec : List Functor
  pub state : S

-- What `::poll` returned and stored, and the time that `poll` read after it.
pub record Answer : Type 0 where
  pub ret : ℤ
  pub revents : List ℕ
  pub recv_time : ℕ

-- `handlers` holds the callbacks of the channel at each address, `run` is what a task does.
module _ {W S : Type 0} (poller : Poller W) (handlers : ℕ → Callbacks (Loop W S))
    (run : Functor → Loop W S → Loop W S) where
  -- `for (auto& it : active_channels_)`.
  unfoldable pub handle_channels : ℕ → List ℕ → Loop W S → Loop W S
  unfolding handle_channel
  handle_channels recv_time [] l = l
  handle_channels recv_time (p ∷ ps) l =
      let c = poller.channel_at l.poller p in
      handle_channels recv_time ps
        (handle_channel (handlers p) c.revents recv_time (record l { cur_channel = some p }))

  unfoldable pub run_tmp_vec : List Functor → Loop W S → Loop W S
  run_tmp_vec [] l = l
  run_tmp_vec (f ∷ fs) l = run_tmp_vec fs (run f l)

  unfoldable pub do_tasks : Loop W S → Loop W S
  unfolding run_tmp_vec
  do_tasks l =
      let l' = run_tmp_vec l.task_vec (record l { doing_the_tasks = true; task_vec = [] }) in
      record l' { doing_the_tasks = false }

  unfoldable pub loop_turn : Answer → Loop W S → Option (Loop W S)
  unfolding handle_channels do_tasks
  loop_turn a l = do
    polled ← poller.poll a.ret a.revents l.poller
    let ready = record l { poller = polled.0; active_channels = polled.1 }
    let handled = handle_channels a.recv_time polled.1 ready
    some (do_tasks (record handled { cur_channel = none }))

  unfoldable pub loop_turns : List Answer → Loop W S → Option (Loop W S)
  unfolding loop_turn
  loop_turns [] l = some l
  loop_turns (a ∷ answers) l = loop_turn a l >>= loop_turns answers

  -- `loop`, as far as the answers go; nothing sets `stop_`.
  unfoldable pub loop : List Answer → Loop W S → Option (Loop W S)
  unfolding loop_turns
  loop answers l = loop_turns answers (record l { looping = true })
