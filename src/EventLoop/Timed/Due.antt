-- ===== src/EventLoop/Timed/Due.antt =====
-- From the thread that asks for a timer to its callback.
use mathlib.Core.List.{append-nil}
use bounce.Prelude.{ℕ, ◌≡◌, sym, ap, ◌∙◌, true, some, List, [], ◌++◌, get_elem?, arith}
use bounce.Poller.{Poller}
use bounce.TimerQueue.{TimerQueue}
use bounce.TimerQueue.Calls.Weights.{total, single}
use bounce.TimerQueue.Calls.Due.{due_at, none_due}
use bounce.EventLoop.{Functor}
use bounce.EventLoop.Loop.{Loop, Answer}
use bounce.EventLoop.Timed.{TimerTask, Timers, timed_turn, timers_of, Reach}
use bounce.EventLoop.Timed.Handled.{is_readable, handle_all-due}
use bounce.EventLoop.Timed.Given.{
  Given, tasks_done-Holds, polled_loop, handled_loop, tasks_done, turn-polled, turn-Given,
  Reach-Given,
}

module _ {W : Type 0} (clock : ℕ → ℕ) (poller : Poller W) (timer_channel : ℕ)
    (task : Functor → TimerTask) where
  -- Where no task is queued any more, the queue was given the timers of all.
  all-Given :
      {queued : List Functor} {l : Loop W Timers}
      (g : Given clock poller timer_channel task queued l)
      → l.task_vec ≡ []
      → timers_of task 0 queued ≡ g.all
  unfolding timers_of
  all-Given {queued} g empty =
      ap (timers_of task 0) (sym (append-nil queued))
      ∙ g.more []
      ∙ ap (λ fs. g.all ++ timers_of task g.next (fs ++ [])) empty
      ∙ append-nil g.all

  -- Threads queue tasks that add and delete timers, in any order, and the loop takes any turns
  -- meanwhile; no other channel has callbacks, and those of timers add none. If then a turn comes
  -- back, whatever `poll` answered, and in the next turn `poll` finds the channel of the timers
  -- readable, then the next turn comes back too, and after it each timer for one time that was ever
  -- asked for, and has expired by what the clock shows in this turn, has run exactly once.
  pub two_turns-due :
      {w : W} {queued : List Functor} {l l₁ : Loop W Timers} (first second : Answer)
      (polled : W × List ℕ) (i : ℕ)
      → Reach clock poller timer_channel task w queued l
      → timed_turn clock poller timer_channel task first l ≡ some l₁
      → poller.poll second.ret second.revents l₁.poller ≡ some polled
      → get_elem? polled.1 i ≡ some timer_channel
      → is_readable (poller.channel_at polled.0 timer_channel).revents ≡ true
      → (l₂ : Loop W Timers) × (n : ℕ) × (q : TimerQueue) × (timed_turn clock poller timer_channel
            task second l₁
          ≡ some l₂)
        × (l₂.state.timers ≡ some (n, q))
        × ((k : ℕ)
            → let due = single (due_at k (clock l₁.state.readings)) in
              total due q.ran ≡ total due (timers_of task 0 queued))
  unfolding timers_of
  two_turns-due {queued} {l₁} first second polled i r turned answered active flags =
      let (g, empty) =
        turn-Given clock poller timer_channel task first
          (Reach-Given clock poller timer_channel task r) turned in
      let (q₁, handled, waits) =
        handle_all-due clock poller timer_channel second.recv_time task polled.1 i
          (polled_loop clock poller timer_channel task l₁ polled)
          (record { is = g.holds.is; accounted = g.holds.accounted }) active flags in
      let l₂ = handled_loop clock poller timer_channel task second.recv_time l₁ polled in
      let (all, n, q₂, held, ran, left, more) =
        tasks_done-Holds clock poller timer_channel task l₂
          (record { is = handled.holds.is; accounted = handled.holds.accounted }) in
      (
        tasks_done clock poller timer_channel task l₂,
        n,
        q₂,
        turn-polled clock poller timer_channel task second l₁ polled answered,
        held.is,
        λ k.
            let now = clock l₁.state.readings in
            let due = single (due_at k now) in
            omega (
              arith,
              ap (total due) ran,
              ap (total due) (all-Given g empty),
              handled.holds.accounted.account (due_at k now),
              none_due k now q₁.timer_map_once waits,
            ),
      )
