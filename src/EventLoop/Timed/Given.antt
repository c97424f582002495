-- ===== src/EventLoop/Timed/Given.antt =====
-- The turns of a loop give its timer queue all the tasks that are queued, in order.
use mathlib.Core.List.{append_assoc}
use bounce.Prelude.{
  ℕ, true, ◌≡◌, refl, sym, ap, subst, ◌∙◌, Option, none, some, List, [], ◌∷◌, ◌++◌, some_eq,
  bind-some, ◌>>=◌,
}
use bounce.Poller.{Poller}
use bounce.TimerQueue.{Timer, TimerQueue, init}
use bounce.TimerQueue.Calls.Accounts.{init-IsAccounted}
use bounce.EventLoop.{Functor}
use bounce.EventLoop.Loop.{Loop, Answer, run_tmp_vec, do_tasks, loop_turn}
use bounce.EventLoop.Timed.{
  TimerTask, Timers, call_timers, timed_handlers, run_functor, timed_turn, timers_of, Reach,
  comes_up, queues, turns,
}
use bounce.EventLoop.Timed.Kept.{Holds, call_task-Holds}
use bounce.EventLoop.Timed.Handled.{handle_all, handle_all-Handled}

module _ {W : Type 0} (clock : ℕ → ℕ) (poller : Poller W) (timer_channel : ℕ)
    (task : Functor → TimerTask) where
  abbrev pub tasks_done : Loop W Timers → Loop W Timers
  tasks_done = do_tasks poller (timed_handlers clock timer_channel) (run_functor clock task)

  abbrev run_functors : List Functor → Loop W Timers → Loop W Timers
  run_functors = run_tmp_vec poller (timed_handlers clock timer_channel) (run_functor clock task)

  run_functors-Holds :
      (fs : List Functor) {all : List Timer} {n : ℕ} {q : TimerQueue} (l : Loop W Timers)
      → Holds all n q l
      → (all' : List Timer) × (n' : ℕ) × (q' : TimerQueue) × Holds all' n' q' (run_functors fs l)
        × (q'.ran ≡ q.ran)
        × ((run_functors fs l).task_vec ≡ l.task_vec)
        × ((gs : List Functor) → all' ++ timers_of task n' gs ≡ all ++ timers_of task n (fs ++ gs))
  unfolding run_tmp_vec run_functor call_timers timers_of
  run_functors-Holds [] {all} {n} {q} l h = (all, n, q, h, refl, refl, λ gs. refl)
  run_functors-Holds (f ∷ fs) l h =
      let (all₁, n₁, q₁, h₁, ran₁, more₁) = call_task-Holds clock l h (task f) in
      let (all₂, n₂, q₂, h₂, ran₂, same, more₂) =
        run_functors-Holds fs (run_functor clock task f l) h₁ in
      (
        all₂,
        n₂,
        q₂,
        h₂,
        ran₂ ∙ ran₁,
        same,
        λ gs. more₂ gs ∙ more₁ (λ m. timers_of task m (fs ++ gs)),
      )

  -- `doTheTasks` gives the queue all the tasks, and runs no timer.
  pub tasks_done-Holds :
      {all : List Timer} {n : ℕ} {q : TimerQueue} (l : Loop W Timers)
      → Holds all n q l
      → (all' : List Timer) × (n' : ℕ) × (q' : TimerQueue) × Holds all' n' q' (tasks_done l)
        × (q'.ran ≡ q.ran)
        × ((tasks_done l).task_vec ≡ [])
        × ((gs : List Functor)
            → all' ++ timers_of task n' gs ≡ all ++ timers_of task n (l.task_vec ++ gs))
  unfolding do_tasks
  tasks_done-Holds l h =
      let (all', n', q', h', ran, empty, more) =
        run_functors-Holds l.task_vec (record l { doing_the_tasks = true; task_vec = [] })
          (record { is = h.is; accounted = h.accounted }) in
      (all', n', q', record { is = h'.is; accounted = h'.accounted }, ran, empty, more)

  -- What a turn does when `poll` has returned.
  abbrev pub polled_loop : Loop W Timers → W × List ℕ → Loop W Timers
  polled_loop l polled = record l { poller = polled.0; active_channels = polled.1 }

  abbrev pub handled_loop : ℕ → Loop W Timers → W × List ℕ → Loop W Timers
  handled_loop time l polled =
      record (handle_all clock poller timer_channel time task polled.1 (polled_loop l polled)) {
        cur_channel = none;
      }

  pub turn-polled :
      (a : Answer) (l : Loop W Timers) (polled : W × List ℕ)
      → poller.poll a.ret a.revents l.poller ≡ some polled
      → timed_turn clock poller timer_channel task a l
        ≡ some (tasks_done (handled_loop a.recv_time l polled))
  unfolding timed_turn loop_turn
  turn-polled a l polled e =
      ap (λ (o : Option (W × List ℕ)). o >>= λ x. some (tasks_done (handled_loop a.recv_time l x)))
        e

  -- The queue holds or has run the timers of the functors that have run, and those that are queued
  -- will be next.
  pub record Given (queued : List Functor) (l : Loop W Timers) : Type 0 where
    pub all : List Timer
    pub next : ℕ
    pub queue : TimerQueue
    pub holds : Holds all next queue l
    pub more :
        (gs : List Functor)
        → timers_of task 0 (queued ++ gs) ≡ all ++ timers_of task next (l.task_vec ++ gs)

  pub turn-Given :
      {queued : List Functor} {l l' : Loop W Timers} (a : Answer)
      → Given queued l
      → timed_turn clock poller timer_channel task a l ≡ some l'
      → Given queued l' × (l'.task_vec ≡ [])
  unfolding timed_turn loop_turn
  turn-Given {queued} {l} {l'} a g e =
      let (polled, answered, ended) =
        bind-some (poller.poll a.ret a.revents l.poller)
          (λ x. some (tasks_done (handled_loop a.recv_time l x))) l' e in
      let (q₁, handled) =
        handle_all-Handled clock poller timer_channel a.recv_time task polled.1
          (polled_loop l polled) (record { is = g.holds.is; accounted = g.holds.accounted }) in
      let (all₂, n₂, q₂, held, ran, empty, more) =
        tasks_done-Holds (handled_loop a.recv_time l polled)
          (record { is = handled.holds.is; accounted = handled.holds.accounted }) in
      subst (λ x. Given queued x × (x.task_vec ≡ [])) (some_eq ended)
        (
          record {
            all = all₂;
            next = n₂;
            queue = q₂;
            holds = held;
            more = λ gs.
                g.more gs
                ∙ ap (λ fs. g.all ++ timers_of task g.next (fs ++ gs)) (sym handled.same_tasks)
                ∙ sym (more gs)
                ∙ ap (λ fs. all₂ ++ timers_of task n₂ (fs ++ gs)) (sym empty);
          },
          empty,
        )

  pub Reach-Given :
      {w : W} {queued : List Functor} {l : Loop W Timers}
      → Reach clock poller timer_channel task w queued l
      → Given queued l
  Reach-Given comes_up = record {
    all = [];
    next = 0;
    queue = init;
    holds = record { is = refl; accounted = init-IsAccounted };
    more = λ gs. refl;
  }
  Reach-Given (queues {queued} {l} f r) =
      let g = Reach-Given r in
      record {
        all = g.all;
        next = g.next;
        queue = g.queue;
        holds = record { is = g.holds.is; accounted = g.holds.accounted };
        more = λ gs.
            ap (timers_of task 0) (append_assoc queued (f ∷ []) gs)
            ∙ g.more (f ∷ gs)
            ∙ ap (λ fs. g.all ++ timers_of task g.next fs)
                (sym (append_assoc l.task_vec (f ∷ []) gs));
      }
  Reach-Given (turns a r e) = (turn-Given a (Reach-Given r) e).0
