-- ===== src/EventLoop/Turn.antt =====
-- One turn of the loop.
use mathlib.Core.List.{append-nil}
use bounce.Prelude.{
  ℕ, ◌≡◌, refl, sym, subst, ap, ap₂, ◌∙◌, inl, inr, Bool, true, false, ◌||◌, List, [], ◌∷◌, ◌++◌,
  if◌then◌else◌, ltb, Bool-cases,
}
use bounce.EventLoop.{
  EventLoop, Functor, polling, handling, running, poll_returns, weakup_callback, start_tasks,
  swap_tasks, run_task, end_tasks, run_tasks, do_the_tasks, turn,
}
use bounce.EventLoop.Steps.{Step, polls, reads, starts, swaps, runs, ends, Reach, step}
use bounce.EventLoop.Tasks.{taken, Reach-all_tasks}

or-false : (a : Bool) → (a || false) ≡ a
or-false true = refl
or-false false = refl

module _ {thread : ℕ} {queued : List Functor} {late : Bool} where
  -- A step that queues nothing.
  quiet :
      {e e' : EventLoop}
      → Reach thread e queued late
      → Step e e' [] false
      → Reach thread e' queued late
  quiet {e' = e'} r s =
      subst (λ l. Reach thread e' queued l) (or-false late)
        (subst (λ q. Reach thread e' q (late || false)) (append-nil queued) (step r s))

  runs_all :
      (l : List Functor) (e : EventLoop)
      → e.phase ≡ running l
      → Reach thread e queued late
      → Reach thread (run_tasks l e) queued late
        × ((run_tasks l e).phase ≡ running [])
        × ((run_tasks l e).task_vec ≡ e.task_vec)
  unfolding run_tasks run_task
  runs_all [] e p r = (r, p, refl)
  runs_all (f ∷ rest) e p r = runs_all rest (run_task f rest e) refl (quiet r (runs f rest p))

  do_the_tasks-Reach :
      (e : EventLoop)
      → e.phase ≡ handling false
      → Reach thread e queued late
      → Reach thread (do_the_tasks e) queued late
        × ((do_the_tasks e).phase ≡ polling)
        × ((do_the_tasks e).task_vec ≡ [])
  unfolding do_the_tasks start_tasks swap_tasks end_tasks
  do_the_tasks-Reach e p r =
      let (reached, done, left) =
        runs_all e.task_vec (swap_tasks (start_tasks e)) refl
          (quiet (quiet r (starts p)) (swaps refl)) in
      (quiet reached (ends done), refl, left)

  -- The turn as far as `doTheTasks`.
  ready :
      (e : EventLoop)
      → Reach thread e queued late
      → e.phase ≡ polling
      → (d : EventLoop) × (turn e ≡ do_the_tasks d)
        × Reach thread d queued late
        × (d.phase ≡ handling false)
  unfolding turn poll_returns weakup_callback
  ready e r p = elim (Bool-cases (ltb 0 e.weakup)) [
    | inl readable ↦ (
      weakup_callback (poll_returns e),
      ap (λ b. do_the_tasks (if b then weakup_callback (poll_returns e) else poll_returns e))
          readable,
      quiet (quiet r (polls p)) (reads (ap handling readable)),
      refl,
    )
    | inr nothing ↦ (
      poll_returns e,
      ap (λ b. do_the_tasks (if b then weakup_callback (poll_returns e) else poll_returns e))
          nothing,
      quiet r (polls p),
      ap handling nothing,
    )
  ]

  all_ran :
      (e : EventLoop)
      → Reach thread e queued late
      → e.phase ≡ polling
      → e.task_vec ≡ []
      → e.ran ≡ queued
  all_ran e r p empty =
      sym (append-nil e.ran)
      ∙ ap₂ (λ q l. e.ran ++ (taken q ++ l)) (sym p) (sym empty)
      ∙ Reach-all_tasks r

  -- A turn of the loop, which begins when `poll` returns, leads to `poll` again with the queue empty,
  -- and all the tasks that were ever queued have then run, each once and in order.
  pub turn-Reach :
      (e : EventLoop)
      → Reach thread e queued late
      → e.phase ≡ polling
      → Reach thread (turn e) queued late
        × ((turn e).phase ≡ polling)
        × ((turn e).task_vec ≡ [])
        × ((turn e).ran ≡ queued)
  turn-Reach e r p =
      let (d, same, reached, at) = ready e r p in
      let (last, at_poll, empty) = do_the_tasks-Reach d at reached in
      subst
        (λ t.
          Reach thread t queued late × (t.phase ≡ polling) × (t.task_vec ≡ []) × (t.ran ≡ queued))
        (sym same) (last, at_poll, empty, all_ran (do_the_tasks d) last at_poll empty)
