-- ===== src/TimerQueue/Tests.antt =====
-- Runs of a timer queue, and its theorems at a concrete one.
use bounce.Prelude.{ℕ, ◌+◌, ◌≤◌, ◌<◌, ◌≡◌, ◌↔◌, ◌⊎◌, refl, none, some, List, [], ◌∷◌, arith}
use bounce.TimerQueue.{
  Timer, Timespec, TimerQueue, nano_seconds_per_second, delete_timer_in_loop, reset_timerfd,
  handle_read, remaining,
}
use bounce.TimerQueue.Walk.{Distinct}
use bounce.TimerQueue.Sorted.{AllFrom}
use bounce.TimerQueue.Inv.{IsValid}
use bounce.TimerQueue.Alarm.{ExpiresAt, total, reset_timerfd_lem}
use bounce.TimerQueue.Run.{AllOnce}
use bounce.TimerQueue.Passes.{due_by, Passes, handle_read-Passes}
use bounce.TimerQueue.Endless.{adds_each, handle_read-endless}
use bounce.TimerQueue.Delete.{delete_timer_in_loop_lem}

abbrev timer : ℕ → ℕ → ℕ → Timer
timer address expiration duration = record {
  address = address;
  expiration = expiration;
  duration = duration;
}

-- One timer for the time 5, and two that repeat, both at 7.
abbrev busy : TimerQueue
busy = record {
  min_expiration = 5;
  timer_map_once = timer 0 5 0 ∷ [];
  timer_map_repeat = timer 1 7 10 ∷ timer 2 7 20 ∷ [];
  value = none;
  ran = [];
}

busy-IsValid : IsValid busy
busy-IsValid = record {
  once = (tt, tt);
  again = ((omega arith, tt), (tt, tt));
  once_from = (omega arith, tt);
  again_from = (omega arith, (omega arith, tt));
}

busy-Distinct : Distinct busy.timer_map_repeat
busy-Distinct = ((omega arith, tt), (tt, tt))

-- No callback adds a timer.
abbrev silent : List Timer → List (ℕ × Timer)
silent ran = []

silent-AllOnce : (ran : List Timer) → AllOnce (silent ran)
silent-AllOnce ran = tt

-- At the time 8 all have run, and the repeat timers are set again.
all_due :
    handle_read silent 3 8 9 busy
    ≡ some (record {
      min_expiration = 17;
      timer_map_once = [];
      timer_map_repeat = timer 1 17 10 ∷ timer 2 27 20 ∷ [];
      value = some (record { tv_sec = 0; tv_nsec = 8 });
      ran = timer 0 5 0 ∷ timer 1 7 10 ∷ timer 2 7 20 ∷ [];
    })
unfolding handle_read
all_due = refl

reset_timerfd_lem_example :
    let least = (reset_timerfd 2 busy).min_expiration in
    (ExpiresAt least busy.timer_map_once ⊎ ExpiresAt least busy.timer_map_repeat)
    × AllFrom least busy.timer_map_once
    × AllFrom least busy.timer_map_repeat
    × (set : Timespec) × ((reset_timerfd 2 busy).value ≡ some set)
    × (set.tv_nsec < nano_seconds_per_second)
    × (least ≤ 2 + total set)
    × ((least < 2) ⊎ (2 + total set ≡ least))
    × ((total set ≡ 0) ↔ (least ≡ 2))
unfolding reset_timerfd
reset_timerfd_lem_example =
    reset_timerfd_lem 2 busy busy-IsValid.once busy-IsValid.again (omega arith)

handle_read-Passes_example :
    (q' : TimerQueue) × (handle_read silent 3 8 9 busy ≡ some q') × Passes 8 busy q'
unfolding due_by
handle_read-Passes_example =
    handle_read-Passes silent silent-AllOnce 3 8 9 busy busy-IsValid busy-Distinct (omega arith)

-- The first callback adds a timer for a time far ahead.
abbrev adds_far : List Timer → List (ℕ × Timer)
adds_far [] = []
adds_far (t ∷ []) = (8, timer 9 1000 1000) ∷ []
adds_far (t ∷ u ∷ l) = []

delete_timer_in_loop_lem_example :
    delete_timer_in_loop (timer 2 7 20) busy ≡ record busy { timer_map_repeat = timer 1 7 10 ∷ [] }
delete_timer_in_loop_lem_example =
    delete_timer_in_loop_lem (timer 1 7 10 ∷ []) (timer 2 7 20) [] busy refl busy-IsValid.again
      busy-Distinct

-- One repeat timer that is due, whose callback adds another one.
abbrev breeding : TimerQueue
breeding = record {
  min_expiration = 7;
  timer_map_once = [];
  timer_map_repeat = timer 1 7 10 ∷ [];
  value = none;
  ran = [];
}

handle_read-endless_example : handle_read (adds_each 8 20 100 9) 1000 8 9 breeding ≡ none
unfolding remaining
handle_read-endless_example =
    handle_read-endless 8 20 100 9 1000 8 9 (timer 1 7 10) [] breeding refl refl refl
      (omega arith, tt)
