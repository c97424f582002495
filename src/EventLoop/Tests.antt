-- ===== src/EventLoop/Tests.antt =====
-- Runs of a loop, and its theorems at concrete ones.
use bounce.Prelude.{◌<◌, ◌≡◌, ◌⊎◌, refl, false, [], ◌∷◌, ◌++◌, arith}
use bounce.EventLoop.{EventLoop, init, push, weak_up, do_task_in_thread}
use bounce.EventLoop.Steps.{pushes, wakes, Reach, here, step}
use bounce.EventLoop.Tasks.{taken, Reach-all_tasks}
use bounce.EventLoop.WakeUp.{Reach-woken}

-- In the loop's own thread a task runs at once; from thread 2 it waits, and the eventfd is written.
at_once : do_task_in_thread 1 7 (init 1) ≡ (7 ∷ [], init 1)
unfolding do_task_in_thread init
at_once = refl

from_outside :
    do_task_in_thread 2 7 (init 1) ≡ ([], record (init 1) { task_vec = 7 ∷ []; weakup = 1 })
unfolding do_task_in_thread init
from_outside = refl

-- Thread 2 has queued the task 7.
abbrev told : EventLoop
told = record (init 1) { task_vec = 7 ∷ []; weakup = 1 }

told-Reach : Reach 1 told (7 ∷ []) false
unfolding init push weak_up
told-Reach = step (step here (pushes 7)) (wakes 2 0 (omega arith) refl)

Reach-all_tasks_example : told.ran ++ (taken told.phase ++ told.task_vec) ≡ 7 ∷ []
Reach-all_tasks_example = Reach-all_tasks told-Reach

Reach-woken_example : (told.task_vec ≡ []) ⊎ ((0 < told.weakup) ⊎ (0 < told.writers))
unfolding init
Reach-woken_example = Reach-woken told-Reach refl
