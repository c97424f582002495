-- ===== src/EventLoop/Tasks.antt =====
-- The queue of tasks: each runs once, and in order.
use mathlib.Core.List.{append_assoc, append-nil}
use bounce.Prelude.{ℕ, ◌≡◌, refl, sym, ap, ◌∙◌, Bool, List, [], ◌∷◌, ◌++◌, arith}
use bounce.EventLoop.{
  EventLoop, Functor, Phase, running, init, push, weak_up, queue_task_in_thread, poll_returns,
  weakup_callback, start_tasks, swap_tasks, run_task, end_tasks,
}
use bounce.EventLoop.Steps.{
  Step, pushes, wakes, queues, polls, reads, starts, swaps, runs, ends, Reach, here, step,
}

-- The tasks that `doTheTasks` has taken and not yet run.
abbrev pub taken : Phase → List Functor
taken (running l) = l
taken _ = []

-- All tasks in the order in which they were queued.
abbrev pub all_tasks : EventLoop → List Functor
all_tasks e = e.ran ++ (taken e.phase ++ e.task_vec)

weak_up-all_tasks : (thread : ℕ) (e : EventLoop) → all_tasks (weak_up thread e) ≡ all_tasks e
unfolding weak_up
weak_up-all_tasks thread e = ground arith

push-all_tasks : (f : Functor) (e : EventLoop) → all_tasks (push f e) ≡ all_tasks e ++ f ∷ []
unfolding push
push-all_tasks f e =
    ap (λ l. e.ran ++ l) (sym (append_assoc (taken e.phase) e.task_vec (f ∷ [])))
    ∙ sym (append_assoc e.ran (taken e.phase ++ e.task_vec) (f ∷ []))

Step-all_tasks :
    {e e' : EventLoop} {more : List Functor} {now : Bool}
    → Step e e' more now
    → all_tasks e' ≡ all_tasks e ++ more
unfolding queue_task_in_thread poll_returns weakup_callback start_tasks swap_tasks run_task
    end_tasks push
Step-all_tasks {e} (pushes f) = push-all_tasks f e
Step-all_tasks {e} (wakes thread n other w) =
    weak_up-all_tasks thread (record e { writers = n }) ∙ sym (append-nil (all_tasks e))
Step-all_tasks {e} (queues f busy) = weak_up-all_tasks e.thread_id (push f e) ∙ push-all_tasks f e
Step-all_tasks {e} (polls p) = rw p (sym (append-nil (e.ran ++ e.task_vec)))
Step-all_tasks {e} (reads p) = rw p (sym (append-nil (e.ran ++ e.task_vec)))
Step-all_tasks {e} (starts p) = rw p (sym (append-nil (e.ran ++ e.task_vec)))
Step-all_tasks {e} (swaps p) =
    rw p (ap (λ l. e.ran ++ l) (append-nil e.task_vec) ∙ sym (append-nil (e.ran ++ e.task_vec)))
Step-all_tasks {e} (runs f rest p) = rw p (
    append_assoc e.ran (f ∷ []) (rest ++ e.task_vec)
    ∙ sym (append-nil (e.ran ++ f ∷ (rest ++ e.task_vec))))
Step-all_tasks {e} (ends p) = rw p (sym (append-nil (e.ran ++ e.task_vec)))

-- In whatever order the threads take their steps, the tasks that have run, those that are taken and
-- those that wait are all the tasks that were queued, each once and in the order in which they got
-- the lock.
pub Reach-all_tasks :
    {thread : ℕ} {e : EventLoop} {queued : List Functor} {late : Bool}
    → Reach thread e queued late
    → e.ran ++ (taken e.phase ++ e.task_vec) ≡ queued
unfolding init
Reach-all_tasks here = refl
Reach-all_tasks (step {more = m} r s) = Step-all_tasks s ∙ ap (λ l. l ++ m) (Reach-all_tasks r)
