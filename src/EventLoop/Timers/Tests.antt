-- ===== src/EventLoop/Timers/Tests.antt =====
-- A timer that is made and deleted in the thread of its loop.
use bounce.Prelude.{◌+◌, ◌*◌, ◌≡◌, [], ◌∷◌}
use bounce.TimerQueue.{Timer, run_every}
use bounce.EventLoop
use bounce.EventLoop.{EventLoop, Functor, push, do_the_tasks}
use bounce.EventLoop.Timers.{loop_run_every, loop_delete_timer}
use bounce.EventLoop.Timers.Deleting.{run_every-delete}

-- Tasks by the address of the timer.
abbrev adds : Timer → Functor
adds t = 2 * t.address

abbrev deletes : Timer → Functor
deletes t = 2 * t.address + 1

abbrev busy : EventLoop
unfolding push EventLoop.init
busy = push 8 (EventLoop.init 77)

run_and_delete :
    let t = run_every 5 1000 50 in
    let e' = loop_delete_timer adds deletes 77 t busy in
    (loop_run_every adds deletes 77 5 1000 50 busy ≡ (t, 10 ∷ [], busy))
    × (e'.task_vec ≡ 8 ∷ 11 ∷ [])
    × (e'.weakup ≡ 0)
    × ((do_the_tasks e').ran ≡ 8 ∷ 11 ∷ [])
    × ((do_the_tasks e').task_vec ≡ [])
unfolding push EventLoop.init busy run_every
run_and_delete = run_every-delete adds deletes 5 1000 50 busy
