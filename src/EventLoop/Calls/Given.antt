-- ===== src/EventLoop/Calls/Given.antt =====
-- Every task that is given to a loop runs at once or waits in its queue, in the order of the calls.
use mathlib.Core.List.{append_assoc, append-nil}
use bounce.Prelude.{
  ℕ, ◌+◌, ◌≡◌, refl, sym, ap, ◌∙◌, Bool, true, false, Option, some, List, [], ◌∷◌, ◌++◌, ◌==◌,
  if◌then◌else◌, ◌>>=◌, bind-some, arith,
}
use bounce.Poller.{Poller}
use bounce.TimerQueue.{Timer}
use bounce.EventLoop.{
  EventLoop, Functor, push, weak_up, do_task_in_thread, do_moved_task_in_thread,
  queue_task_in_thread,
}
use bounce.EventLoop.Timers.{
  make_timer, add_timer, delete_timer, loop_run_at, loop_run_after, loop_run_every,
  loop_delete_timer,
}
use bounce.EventLoop.Calls.{
  Call, updates_channel, removes_channel, runs_at, runs_after, runs_every, deletes_timer, does_task,
  queues_task, does_moved_task, queues_moved_task, on_tasks, to_do, to_queue, at_once, queued,
  on_poller, on_poller_each, run_calls,
}

-- The tasks `ran` ran at once, and `waiting` were queued.
record Gives (e : EventLoop) (ran waiting : List Functor) (done : List Functor × EventLoop)
    : Type 0 where
  ran_first : done.0 ≡ ran
  thread_id : done.1.thread_id ≡ e.thread_id
  task_vec : done.1.task_vec ≡ e.task_vec ++ waiting

queue-Gives :
    (thread : ℕ) (f : Functor) (e : EventLoop)
    → Gives e [] (f ∷ []) ([], queue_task_in_thread thread f e)
unfolding queue_task_in_thread push weak_up
queue-Gives thread f e = record {
  ran_first = refl;
  thread_id = ground arith;
  task_vec = ground arith;
}

none-Gives :
    (here : Bool) (e : EventLoop)
    → Gives e (if here then [] else []) (if here then [] else []) ([], e)
none-Gives true e = record {
  ran_first = refl;
  thread_id = refl;
  task_vec = sym (append-nil e.task_vec);
}
none-Gives false e = record {
  ran_first = refl;
  thread_id = refl;
  task_vec = sym (append-nil e.task_vec);
}

do-Gives :
    (here : Bool) (thread : ℕ) (f : Functor) (e : EventLoop)
    → Gives e
        (if here then f ∷ [] else [])
        (if here then [] else f ∷ [])
        (if here then (f ∷ [], e) else ([], queue_task_in_thread thread f e))
do-Gives true thread f e = record {
  ran_first = refl;
  thread_id = refl;
  task_vec = sym (append-nil e.task_vec);
}
do-Gives false thread f e = queue-Gives thread f e

queue_always-Gives :
    (here : Bool) (thread : ℕ) (f : Functor) (e : EventLoop)
    → Gives e
        (if here then [] else [])
        (if here then f ∷ [] else f ∷ [])
        ([], queue_task_in_thread thread f e)
queue_always-Gives true thread f e = queue-Gives thread f e
queue_always-Gives false thread f e = queue-Gives thread f e

module _ (bind_add bind_delete : Timer → Functor) where
  on_tasks-Gives :
      (thread : ℕ) (call : Call) (e : EventLoop)
      → let here = e.thread_id == thread in
        Gives e
          (if here then to_do bind_add bind_delete call else [])
          (if here
            then to_queue bind_add bind_delete call
            else to_do bind_add bind_delete call ++ to_queue bind_add bind_delete call)
          (on_tasks bind_add bind_delete thread call e)
  unfolding on_tasks to_do to_queue loop_run_at loop_run_after loop_run_every loop_delete_timer
      add_timer delete_timer do_task_in_thread do_moved_task_in_thread
  on_tasks-Gives thread (updates_channel p) e = none-Gives (e.thread_id == thread) e
  on_tasks-Gives thread (removes_channel p) e = none-Gives (e.thread_id == thread) e
  on_tasks-Gives thread (runs_at address expiration) e =
      do-Gives (e.thread_id == thread) thread (bind_add (make_timer address expiration 0)) e
  on_tasks-Gives thread (runs_after address now delay) e =
      do-Gives (e.thread_id == thread) thread (bind_add (make_timer address (now + delay) 0)) e
  on_tasks-Gives thread (runs_every address now interval) e =
      do-Gives (e.thread_id == thread) thread
        (bind_add (make_timer address (now + interval) interval)) e
  on_tasks-Gives thread (deletes_timer t) e =
      queue_always-Gives (e.thread_id == thread) thread (bind_delete t) e
  on_tasks-Gives thread (does_task f) e = do-Gives (e.thread_id == thread) thread f e
  on_tasks-Gives thread (queues_task f) e = queue_always-Gives (e.thread_id == thread) thread f e
  on_tasks-Gives thread (does_moved_task f) e = do-Gives (e.thread_id == thread) thread f e
  on_tasks-Gives thread (queues_moved_task f) e =
      queue_always-Gives (e.thread_id == thread) thread f e

  module _ {W : Type 0} (poller : Poller W) where
    -- Whatever threads call the functions of a loop, and in whatever order: where the poller takes
    -- all the channels, the calls come back, and each task that they give, a timer's too, has run at
    -- once if the loop's own thread gave it to doTaskInThread, and waits in the queue behind those
    -- that were there otherwise, both in the order of the calls. A deleted timer always waits. The
    -- poller is as after the changes of channels alone.
    pub run_calls-given :
        (calls : List (ℕ × Call)) (e : EventLoop) (w w' : W)
        → on_poller_each poller calls w ≡ some w'
        → (e' : EventLoop) × (run_calls poller bind_add bind_delete calls e w
            ≡ some (at_once bind_add bind_delete e.thread_id calls, e', w'))
          × (e'.thread_id ≡ e.thread_id)
          × (e'.task_vec ≡ e.task_vec ++ queued bind_add bind_delete e.thread_id calls)
    unfolding run_calls on_poller_each at_once queued
    run_calls-given [] e w w' done = (
      e,
      ap (λ (o : Option W). o >>= λ v. some ([], e, v)) done,
      refl,
      sym (append-nil e.task_vec),
    )
    run_calls-given ((thread, call) ∷ calls) e w w' done =
        let (v, first, then_) =
          bind-some (on_poller poller call w) (on_poller_each poller calls) w' done in
        let gives = on_tasks-Gives thread call e in
        let one = on_tasks bind_add bind_delete thread call e in
        let (e', ran, same, vec) = run_calls-given calls one.1 v w' then_ in
        (
          e',
          rw (first, ran, gives.ran_first, gives.thread_id) refl,
          same ∙ gives.thread_id,
          rw (vec, gives.thread_id, gives.task_vec) (append_assoc e.task_vec _ _),
        )
