-- ===== src/EventLoop/Timed/Tests.antt =====
-- Two timers that another thread asks for, on a loop with a `PollPoller`.
use bounce.Prelude.{ℕ, zero, suc, ◌*◌, ◌≡◌, refl, true, false, none, some, Option, List, [], ◌∷◌}
use bounce.Prelude.Int.{pos}
use bounce.PollPoller.{PollPoller, put_channel, poll, fill_channels, store_revents}
use bounce.PollPoller.Implements.{poll_poller}
use bounce.TimerQueue.{Timer, TimerQueue, init}
use bounce.EventLoop.Timers.{make_timer}
use bounce.TimerQueue.Calls.Weights.{total, single}
use bounce.TimerQueue.Calls.Due.{due_at}
use bounce.EventLoop.{Functor}
use bounce.EventLoop.Loop.{Loop, Answer, loop_turn}
use bounce.EventLoop.Timed.{
  TimerTask, bind_add, bind_delete, Timers, timed_turn, timers_of, Reach, comes_up, queues,
}
use bounce.EventLoop.Timed.Due.{two_turns-due}

abbrev watched : PollPoller
watched = record {
  channels = put_channel (pos 5) (some 0) (λ _. none);
  pollfds = record { fd = pos 5; events = 3; revents = 0 } ∷ [];
  store = λ _. record { fd = pos 5; events = 3; revents = 0; index = 0 };
}

-- The clock shows another ten whenever it is read; a functor is the timer that expires at its number,
-- but for zero.
abbrev clock : ℕ → ℕ
clock k = 10 * k

abbrev task : Functor → TimerTask
task zero = bind_delete (make_timer 0 5 0)
task (suc f) = bind_add (suc f) 0

abbrev nothing : Answer
nothing = record { ret = pos 0; revents = []; recv_time = 1 }

abbrev expires : Answer
expires = record { ret = pos 1; revents = 1 ∷ []; recv_time = 2 }

abbrev up : Loop PollPoller Timers
up = record {
  looping = true;
  doing_the_tasks = false;
  poller = watched;
  active_channels = [];
  cur_channel = none;
  task_vec = [];
  state = record { readings = 0; timers = some (0, init) };
}

abbrev asked : Loop PollPoller Timers
asked = record up { task_vec = 5 ∷ 0 ∷ 90 ∷ [] }

abbrev after_turn : Answer → Loop PollPoller Timers → Loop PollPoller Timers
after_turn a l = elim (timed_turn clock poll_poller 0 task a l) [ some l' ↦ l' | none ↦ l ]

asked-Reach : Reach clock poll_poller 0 task watched (5 ∷ 0 ∷ 90 ∷ []) asked
asked-Reach = queues 90 (queues 0 (queues 5 comes_up))

first-turned : timed_turn clock poll_poller 0 task nothing asked ≡ some (after_turn nothing asked)
unfolding timed_turn loop_turn poll_poller poll
first-turned = refl

-- What `poll` leaves and lists in the second turn.
abbrev found : PollPoller × List ℕ
found =
    let l = after_turn nothing asked in
    elim (poll_poller.poll (pos 1) (1 ∷ []) l.poller) [ some x ↦ x | none ↦ (l.poller, []) ]

two_turns-due_example :
    let l₁ = after_turn nothing asked in
    (l₂ : Loop PollPoller Timers) × (n : ℕ) × (q : TimerQueue) × (timed_turn clock poll_poller 0
        task expires l₁
      ≡ some l₂)
    × (l₂.state.timers ≡ some (n, q))
    × ((k : ℕ)
        → let due = single (due_at k (clock l₁.state.readings)) in
          total due q.ran ≡ total due (timers_of task 0 (5 ∷ 0 ∷ 90 ∷ [])))
unfolding timed_turn loop_turn poll_poller poll fill_channels store_revents
two_turns-due_example =
    two_turns-due clock poll_poller 0 task nothing expires found 0 asked-Reach first-turned refl
      refl refl

-- The first of the timers has run, and no other.
abbrev ran : Option (ℕ × TimerQueue) → List Timer
ran o = elim o [ some s ↦ s.1.ran | _ ↦ [] ]

first_ran : ran (after_turn expires (after_turn nothing asked)).state.timers ≡ make_timer 0 5 0 ∷ []
unfolding timed_turn loop_turn poll_poller poll fill_channels store_revents make_timer
first_ran = refl
