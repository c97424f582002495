-- ===== src/EventLoop/Calls/Tests.antt =====
-- Calls on a new loop over an empty poller.
use bounce.Prelude.{ℕ, ◌≡◌, refl, List, [], ◌∷◌, ◌==◌, if◌then◌else◌}
use bounce.Prelude.Int.{pos}
use bounce.Prelude.Outcomes.{returns}
use bounce.Channel
use bounce.PollPoller
use bounce.PollPoller.{PollPoller}
use bounce.PollPoller.Implements.{poll_poller}
use bounce.TimerQueue.{Timer}
use bounce.EventLoop.{EventLoop, Functor}
use bounce.EventLoop.Construct.{construct}
use bounce.EventLoop.Timers.{make_timer}
use bounce.EventLoop.Calls.{
  Call, updates_channel, runs_at, runs_after, deletes_timer, does_task, queues_task, at_once,
  queued, on_poller, on_poller_each, to_do, to_queue,
}
use bounce.EventLoop.Calls.Life.{life, life-given}

abbrev empty : PollPoller
unfolding PollPoller.init Channel.init
empty = PollPoller.init (λ q. if q == 0 then Channel.init (pos 4) else Channel.init (pos 5))

abbrev made : PollPoller
made = elim (construct poll_poller 0 1 (pos 5) empty) [ returns w ↦ w | _ ↦ empty ]

-- The tasks to add and to delete a timer, by its address.
abbrev bind_add : Timer → Functor
bind_add t = t.address

abbrev bind_delete : Timer → Functor
bind_delete t = t.address

abbrev timer : Timer
timer = record { address = 30; expiration = 5; duration = 5 }

-- The loop is that of thread 1.
abbrev calls : List (ℕ × Call)
calls =
    (1, does_task 10)
    ∷ (2, does_task 11)
    ∷ (1, updates_channel 0)
    ∷ (1, runs_at 20 100)
    ∷ (2, runs_after 21 100 7)
    ∷ (1, deletes_timer timer)
    ∷ (2, queues_task 12)
    ∷ []

given :
    (at_once bind_add bind_delete 1 calls ≡ 10 ∷ 20 ∷ [])
    × (queued bind_add bind_delete 1 calls ≡ 11 ∷ 21 ∷ 30 ∷ 12 ∷ [])
unfolding at_once to_do make_timer queued to_queue
given = (refl, refl)

life-given_example :
    (e : EventLoop) × (life poll_poller bind_add bind_delete 1 0 1 (pos 5) calls empty
      ≡ returns (at_once bind_add bind_delete 1 calls, e, made))
    × (e.thread_id ≡ 1)
    × (e.task_vec ≡ queued bind_add bind_delete 1 calls)
unfolding construct poll_poller PollPoller.update_channel empty Channel.change on_poller_each
    on_poller
life-given_example =
    life-given poll_poller bind_add bind_delete 1 0 1 (pos 5) calls empty made made refl refl
