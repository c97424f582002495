-- ===== src/EventLoop/Timed/Kept.antt =====
-- The calls that a loop gives its timer queue keep the account of the timers.
use mathlib.Core.List.{append_assoc}
use bounce.Prelude.{
  ℕ, suc, ◌+◌, ◌≡◌, refl, sym, subst, inl, inr, some, List, [], ◌∷◌, ◌++◌, length, Bool-cases,
}
use bounce.TimerQueue.{Timer, TimerQueue, add_timer_in_loop, delete_timer_in_loop, repeat}
use bounce.TimerQueue.Sorted.{AllFrom, remaining-AllFrom, remaining-keeps_AllFrom}
use bounce.TimerQueue.Calls.{handles_read, run_call}
use bounce.TimerQueue.Calls.Silent.{add-once, add-repeat, handle_read-once}
use bounce.TimerQueue.Calls.Accounts.{IsAccounted, add-IsAccounted, delete-IsAccounted}
use bounce.TimerQueue.Calls.Lives.{read-IsAccounted}
use bounce.EventLoop.Loop.{Loop}
use bounce.EventLoop.Timers.{make_timer}
use bounce.EventLoop.Timed.{
  TimerTask, bind_add, bind_delete, Timers, task_call, call_timers, add_first,
}

-- The queue of a loop holds or has run the timers `all`, and the next has the address `n`.
pub record Holds {W : Type 0} (all : List Timer) (n : ℕ) (q : TimerQueue) (l : Loop W Timers)
    : Type 0 where
  pub is : l.state.timers ≡ some (n, q)
  pub accounted : IsAccounted all n q

add-ran : (now : ℕ) (t : Timer) (q : TimerQueue) → (add_timer_in_loop now t q).ran ≡ q.ran
add-ran now t q = elim (Bool-cases (repeat t)) [
  | inl again ↦ (add-repeat (λ u. 0) now t q again).2
  | inr once ↦ (add-once (λ u. 0) now t q once).2
]

module _ {W : Type 0} (clock : ℕ → ℕ) {all : List Timer} {n : ℕ} {q : TimerQueue}
    (l : Loop W Timers) (h : Holds all n q l) where
  -- A task gives the queue the timer that it adds, and runs none.
  pub call_task-Holds :
      (t : TimerTask)
      → (all' : List Timer) × (n' : ℕ) × (q' : TimerQueue) × Holds all' n' q'
          (call_timers clock (task_call t) l)
        × (q'.ran ≡ q.ran)
        × ((rest : ℕ → List Timer) → all' ++ rest n' ≡ all ++ add_first t n rest)
  unfolding call_timers run_call add_first delete_timer_in_loop
  call_task-Holds (bind_add expiration duration) =
      let now = clock l.state.readings in
      let t = make_timer n expiration duration in
      (
        all ++ t ∷ [],
        suc n,
        add_timer_in_loop now t q,
        record {
          is = rw h.is refl;
          accounted = add-IsAccounted h.accounted now expiration duration;
        },
        add-ran now t q,
        λ rest. append_assoc all (t ∷ []) (rest (suc n)),
      )
  call_task-Holds (bind_delete t) = (
    all,
    n,
    delete_timer_in_loop t q,
    record { is = rw h.is refl; accounted = delete-IsAccounted h.accounted t },
    refl,
    λ rest. refl,
  )

  -- `handleRead` loses no timer, leaves none for one time that has expired, and puts none back.
  pub handle_read-Holds :
      (q' : TimerQueue) × Holds all n q' (call_timers clock handles_read l)
      × AllFrom (clock l.state.readings + 1) q'.timer_map_once
      × ((m : ℕ) → AllFrom m q.timer_map_once → AllFrom m q'.timer_map_once)
  unfolding call_timers run_call
  handle_read-Holds =
      let now = clock l.state.readings in
      let (q', read, i) = read-IsAccounted h.accounted now (clock (suc l.state.readings)) in
      let once =
        handle_read-once (suc (length q.timer_map_repeat)) now (clock (suc l.state.readings)) q q'
          read in
      (
        q',
        record { is = rw (h.is, read) refl; accounted = i },
        subst (AllFrom (now + 1)) (sym once)
            (remaining-AllFrom now q.timer_map_once h.accounted.valid.once),
        λ m a. subst (AllFrom m) (sym once) (remaining-keeps_AllFrom m now q.timer_map_once a),
      )
