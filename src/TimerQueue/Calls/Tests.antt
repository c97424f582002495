-- ===== src/TimerQueue/Calls/Tests.antt =====
-- A new queue with timers that are added, deleted and run.
use bounce.Prelude.{ℕ, ◌≡◌, refl, Option, some, List, [], ◌∷◌}
use bounce.TimerQueue.{Timer, TimerQueue}
use bounce.EventLoop.Timers.{make_timer}
use bounce.TimerQueue.Calls.{Call, adds_timer_in_loop, deletes_timer_in_loop, handles_read, life}
use bounce.TimerQueue.Calls.Silent.{silent}
use bounce.TimerQueue.Calls.Accounts.{added, IsAccounted}
use bounce.TimerQueue.Calls.Lives.{life-IsAccounted}

-- A timer for the time 5, two that repeat, and the second of them is deleted.
abbrev calls : List Call
calls =
    adds_timer_in_loop 1 5 0
    ∷ adds_timer_in_loop 2 7 10
    ∷ adds_timer_in_loop 3 7 20
    ∷ handles_read 6 6
    ∷ deletes_timer_in_loop (make_timer 2 7 20)
    ∷ deletes_timer_in_loop (make_timer 0 5 0)
    ∷ adds_timer_in_loop 8 90 0
    ∷ deletes_timer_in_loop (make_timer 3 90 0)
    ∷ handles_read 8 9
    ∷ []

abbrev ran : Option (ℕ × TimerQueue) → List Timer
ran o = elim o [ some s ↦ s.1.ran | _ ↦ [] ]

each_ran : ran (life silent calls) ≡ make_timer 0 5 0 ∷ make_timer 1 7 10 ∷ []
unfolding life make_timer
each_ran = refl

life-IsAccounted_example :
    (s : ℕ × TimerQueue) × (life silent calls ≡ some s) × IsAccounted (added 0 calls) s.0 s.1
life-IsAccounted_example = life-IsAccounted calls
