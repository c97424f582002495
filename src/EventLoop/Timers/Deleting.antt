-- ===== src/EventLoop/Timers/Deleting.antt =====
-- A repeat timer that is made and deleted in the loop's own thread.
use mathlib.Core.List.{append_assoc, append-nil}
use bounce.Prelude.{ℕ, ◌≡◌, refl, sym, ap, ◌∙◌, List, [], ◌∷◌, ◌++◌, ==_refl}
use bounce.TimerQueue.{Timer, run_every}
use bounce.EventLoop.{
  EventLoop, Functor, push, weak_up, queue_task_in_thread, do_moved_task_in_thread, start_tasks,
  swap_tasks, run_task, run_tasks, end_tasks, do_the_tasks,
}
use bounce.EventLoop.Timers.{make_timer, add_timer, delete_timer, loop_run_every, loop_delete_timer}

run_tasks-ran :
    (l : List Functor) (e : EventLoop)
    → ((run_tasks l e).ran ≡ e.ran ++ l) × ((run_tasks l e).task_vec ≡ e.task_vec)
unfolding run_tasks run_task
run_tasks-ran [] e = (sym (append-nil e.ran), refl)
run_tasks-ran (f ∷ l) e =
    let rest = run_tasks-ran l (run_task f l e) in (rest.0 ∙ append_assoc e.ran (f ∷ []) l, rest.1)

do_the_tasks-ran :
    (e : EventLoop)
    → ((do_the_tasks e).ran ≡ e.ran ++ e.task_vec) × ((do_the_tasks e).task_vec ≡ [])
unfolding do_the_tasks end_tasks swap_tasks start_tasks
do_the_tasks-ran e = run_tasks-ran e.task_vec (swap_tasks (start_tasks e))

module _ (bind_add bind_delete : Timer → Functor) where
  -- In the loop's own thread `runEvery` makes a timer that expires one interval after now, and adds
  -- it to the queue at once, with the loop as it was. `deleteTimer` there only queues a task, behind
  -- those that are queued and without a wake-up: the next `doTheTasks` runs it, last of all.
  pub run_every-delete :
      (address now interval : ℕ) (e : EventLoop)
      → let t = run_every address now interval in
        let e' = loop_delete_timer bind_add bind_delete e.thread_id t e in
        (loop_run_every bind_add bind_delete e.thread_id address now interval e
          ≡ (t, bind_add t ∷ [], e))
        × (e'.task_vec ≡ e.task_vec ++ bind_delete t ∷ [])
        × (e'.weakup ≡ e.weakup)
        × ((do_the_tasks e').ran ≡ e.ran ++ (e.task_vec ++ bind_delete t ∷ []))
        × ((do_the_tasks e').task_vec ≡ [])
  unfolding loop_run_every add_timer make_timer run_every do_moved_task_in_thread loop_delete_timer
      delete_timer queue_task_in_thread push weak_up
  run_every-delete address now interval e =
      let t = run_every address now interval in
      let later : EventLoop = push (bind_delete t) e in
      let here : weak_up e.thread_id later ≡ later = rw (==_refl e.thread_id) refl in
      (
        rw (==_refl e.thread_id) refl,
        ap (λ (x : EventLoop). x.task_vec) here,
        ap (λ (x : EventLoop). x.weakup) here,
        ap (λ (x : EventLoop). (do_the_tasks x).ran) here ∙ (do_the_tasks-ran later).0,
        ap (λ (x : EventLoop). (do_the_tasks x).task_vec) here ∙ (do_the_tasks-ran later).1,
      )
