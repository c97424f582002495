-- ===== src/TimerQueue/Timers.antt =====
-- The life of one timer: its constructor, and the updates after it has run.
use bounce.Prelude.{ℕ, zero, suc, ◌+◌, ◌*◌, ◌≡◌, refl, ap, ◌∙◌, not, ◌==◌, arith}
use bounce.TimerQueue.{Timer, TimePoint, NanoSeconds, repeat, timer_update}
use bounce.EventLoop.Timers.{make_timer}

unfoldable pub update_times : ℕ → Timer → Timer
unfolding timer_update
update_times zero t = t
update_times (suc n) t = update_times n (timer_update t)

-- A timer at an address, updated a number of times; a copy is the same value.
unfoldable pub life : ℕ → TimePoint → NanoSeconds → ℕ → Timer
unfolding make_timer update_times
life address time duration n = update_times n (make_timer address time duration)

update_once :
    (t : Timer)
    → ((timer_update t).expiration ≡ t.expiration + t.duration)
      × ((timer_update t).duration ≡ t.duration)
      × ((timer_update t).address ≡ t.address)
unfolding timer_update
update_once t = ground arith

update_times_lem :
    (n : ℕ) (t : Timer)
    → ((update_times n t).expiration ≡ t.expiration + n * t.duration)
      × ((update_times n t).duration ≡ t.duration)
      × ((update_times n t).address ≡ t.address)
unfolding update_times
update_times_lem zero t = (omega arith, refl, refl)
update_times_lem (suc n) t =
    let once = update_once t in
    let rest = update_times_lem n (timer_update t) in
    (rest.0 ∙ rw (once.0, once.1) (grind arith), rest.1 ∙ once.1, rest.2 ∙ once.2)

-- A timer that has run a number of times expires as many intervals after its first expiration, so that
-- delays in running it never add up; one for a single time stays at that, and neither kind becomes the
-- other.
pub life_lem :
    (address : ℕ) (time : TimePoint) (duration : NanoSeconds) (n : ℕ)
    → let t = life address time duration n in
      (t.expiration ≡ time + n * duration)
      × (t.duration ≡ duration)
      × (t.address ≡ address)
      × (repeat t ≡ not (duration == 0))
unfolding life make_timer repeat
life_lem address time duration n =
    let t = update_times_lem n (make_timer address time duration) in
    (t.0, t.1, t.2, ap (λ d. not (d == 0)) t.1)
