-- ===== src/EventLoop/WakeUp.antt =====
-- Whether a loop that waits in `poll` hears of the tasks that are queued for it.
use bounce.Prelude.{
  ℕ, suc, ◌<◌, ◌≡◌, ◌≢◌, refl, sym, subst, ◌∙◌, ◌⊎◌, inl, inr, Bool, true, false, ◌||◌, List, [],
  arith,
}
use bounce.EventLoop.{
  EventLoop, Functor, Phase, polling, handling, swapping, running, init, push, weak_up,
  queue_task_in_thread, poll_returns, weakup_callback, start_tasks, swap_tasks, run_task, end_tasks,
}
use bounce.EventLoop.Steps.{
  is_running, Step, pushes, wakes, queues, polls, reads, starts, swaps, runs, ends, Reach, here,
  step,
}

-- Somebody sees to the tasks that wait.
abbrev Attended : Phase → EventLoop → Type 0
Attended polling e =
    (e.doing_the_tasks ≡ false) × ((e.task_vec ≡ []) ⊎ ((0 < e.weakup) ⊎ (0 < e.writers)))
Attended (handling b) e = e.doing_the_tasks ≡ false
Attended swapping e = e.doing_the_tasks ≡ true
Attended (running l) e = (e.doing_the_tasks ≡ true) × (e.task_vec ≡ [])

weak_up-fields :
    (thread : ℕ) (e : EventLoop)
    → ((weak_up thread e).phase ≡ e.phase)
      × ((weak_up thread e).doing_the_tasks ≡ e.doing_the_tasks)
      × ((weak_up thread e).task_vec ≡ e.task_vec)
unfolding weak_up
weak_up-fields thread e = ground arith

weak_up-writes :
    (thread : ℕ) (e : EventLoop)
    → thread ≢ e.thread_id
    → e.doing_the_tasks ≡ false
    → 0 < (weak_up thread e).weakup
unfolding weak_up
weak_up-writes thread e other idle = ground arith

weak_up-own : (e : EventLoop) → weak_up e.thread_id e ≡ e
unfolding weak_up
weak_up-own e = ground arith

push-Attended :
    (f : Functor) (e : EventLoop) (p : Phase)
    → is_running p ≡ false
    → Attended p e
    → Attended p (record (push f e) { writers = suc e.writers })
unfolding push
push-Attended f e polling calm a = (a.0, inr (inr (omega arith)))
push-Attended f e (handling b) calm a = a
push-Attended f e swapping calm a = a
push-Attended f e (running l) calm a = cc

wake-Attended :
    (thread n : ℕ) (e : EventLoop) (p : Phase)
    → thread ≢ e.thread_id
    → Attended p e
    → Attended p (weak_up thread (record e { writers = n }))
wake-Attended thread n e p other a = go p a (weak_up-fields thread (record e { writers = n }))
  where
    go :
        (p : Phase)
        → Attended p e
        → let e' = weak_up thread (record e { writers = n }) in
          (e'.phase ≡ e.phase)
            × (e'.doing_the_tasks ≡ e.doing_the_tasks)
            × (e'.task_vec ≡ e.task_vec)
          → Attended p e'
    go polling a same =
        (same.1 ∙ a.0, inr (inl (weak_up-writes thread (record e { writers = n }) other a.0)))
    go (handling b) a same = same.1 ∙ a
    go swapping a same = same.1 ∙ a
    go (running l) a same = (same.1 ∙ a.0, same.2 ∙ a.1)

own-Attended :
    (f : Functor) (e : EventLoop) (p : Phase)
    → p ≢ polling
    → is_running p ≡ false
    → Attended p e
    → Attended p (push f e)
unfolding push
own-Attended f e polling busy calm a = absurd (busy refl)
own-Attended f e (handling b) busy calm a = a
own-Attended f e swapping busy calm a = a
own-Attended f e (running l) busy calm a = cc

Step-Attended :
    {e e' : EventLoop} {more : List Functor} {now : Bool}
    → Step e e' more now
    → now ≡ false
    → Attended e.phase e
    → Attended e'.phase e'
unfolding queue_task_in_thread poll_returns weakup_callback start_tasks swap_tasks run_task
    end_tasks push
Step-Attended {e} (pushes f) calm a = push-Attended f e e.phase calm a
Step-Attended {e} (wakes thread n other w) calm a =
    subst (λ p. Attended p (weak_up thread (record e { writers = n })))
      (sym (weak_up-fields thread (record e { writers = n })).0)
      (wake-Attended thread n e e.phase other a)
Step-Attended {e} (queues f busy) calm a =
    subst (λ (d : EventLoop). Attended d.phase d) (sym (weak_up-own (push f e)))
      (own-Attended f e e.phase busy calm a)
Step-Attended {e} (polls p) calm a = (subst (λ q. Attended q e) p a).0
Step-Attended {e} (reads p) calm a = subst (λ q. Attended q e) p a
Step-Attended {e} (starts p) calm a = refl
Step-Attended {e} (swaps p) calm a = (subst (λ q. Attended q e) p a, refl)
Step-Attended {e} (runs f rest p) calm a = subst (λ q. Attended q e) p a
Step-Attended {e} (ends p) calm a = (refl, inl (subst (λ q. Attended q e) p a).1)

or_false : (a b : Bool) → (a || b) ≡ false → (a ≡ false) × (b ≡ false)
or_false a b h = ground arith

Reach-Attended :
    {thread : ℕ} {e : EventLoop} {queued : List Functor} {late : Bool}
    → Reach thread e queued late
    → late ≡ false
    → Attended e.phase e
unfolding init
Reach-Attended here calm = (refl, inl refl)
Reach-Attended (step {late = before} {now = now} r s) calm =
    let (calm_before, calm_now) = or_false before now calm in
    Step-Attended s calm_now (Reach-Attended r calm_before)

-- If no task is queued while `doTheTasks` runs those that it has taken, the loop never waits in `poll`
-- with a task in the queue, unless the eventfd is readable, or another thread has pushed a task and is
-- about to come to the wake-up.
pub Reach-woken :
    {thread : ℕ} {e : EventLoop} {queued : List Functor}
    → Reach thread e queued false
    → e.phase ≡ polling
    → (e.task_vec ≡ []) ⊎ ((0 < e.weakup) ⊎ (0 < e.writers))
Reach-woken {e = e} r p = (subst (λ q. Attended q e) p (Reach-Attended r refl)).1

-- The loop runs its tasks, of which there are none, and another thread has pushed one.
pushed : ℕ → Functor → EventLoop
unfolding init push poll_returns start_tasks swap_tasks
pushed thread f = record (push f (swap_tasks (start_tasks (poll_returns (init thread))))) {
  writers = 1;
}
