-- ===== src/TimerQueue/Calls/Silent.antt =====
-- What the calls do to each map, where callbacks add no timers.
use bounce.Prelude.{
  ℕ, zero, suc, ◌+◌, ◌≡◌, refl, sym, ap, ◌∙◌, inl, inr, true, false, Option, none, some, List, [],
  ◌∷◌, ◌++◌, arith, Bool-cases, some_eq, bind-some,
}
use bounce.TimerQueue.{
  Timer, TimerQueue, expired, remaining, add_timer_in_loop, reset_timerfd, repeat, handle_read,
  run_all, exec_callback, add_all, walk, finish, is_at, begin, next,
}
use bounce.TimerQueue.Walk.{walk-stop, walk-go}
use bounce.TimerQueue.Inv.{ran_once}
use bounce.TimerQueue.Calls.{}
use bounce.TimerQueue.Calls.Weights.{total, total-insert}

-- Callbacks that add no timers.
abbrev pub silent : List Timer → List (ℕ × Timer)
silent ran = []

-- What adding a timer does to each sum.
module _ (w : Timer → ℕ) (now : ℕ) (t : Timer) (q : TimerQueue) where
  pub add-once :
      repeat t ≡ false
      → (total w (add_timer_in_loop now t q).timer_map_once ≡ w t + total w q.timer_map_once)
        × ((add_timer_in_loop now t q).timer_map_repeat ≡ q.timer_map_repeat)
        × ((add_timer_in_loop now t q).ran ≡ q.ran)
  unfolding add_timer_in_loop repeat reset_timerfd
  add-once h = ground (arith, total-insert w t q.timer_map_once)

  pub add-repeat :
      repeat t ≡ true
      → (total w (add_timer_in_loop now t q).timer_map_repeat ≡ w t + total w q.timer_map_repeat)
        × ((add_timer_in_loop now t q).timer_map_once ≡ q.timer_map_once)
        × ((add_timer_in_loop now t q).ran ≡ q.ran)
  unfolding add_timer_in_loop repeat reset_timerfd
  add-repeat h = ground (arith, total-insert w t q.timer_map_repeat)

-- Where callbacks add no timers, the map of the one-shot timers only loses those that were due.
run_all-silent :
    (l : List Timer) (q : TimerQueue) → (run_all silent l q).timer_map_once ≡ q.timer_map_once
unfolding run_all exec_callback add_all
run_all-silent [] q = refl
run_all-silent (t ∷ l) q = run_all-silent l (exec_callback silent t q)

walk-silent :
    (fuel : ℕ) (it upper : Option Timer) (us : List Timer) (q : TimerQueue)
    (r : TimerQueue × List Timer)
    → walk silent fuel it upper us q ≡ some r
    → r.0.timer_map_once ≡ q.timer_map_once
unfolding walk exec_callback add_all
walk-silent zero it upper us q r e = cc
walk-silent (suc fuel) none none us q r e =
    ap (λ (p : TimerQueue × List Timer). p.0.timer_map_once) (sym (some_eq e))
walk-silent (suc fuel) none (some u) us q r e = cc
walk-silent (suc fuel) (some t) upper us q r e = elim (Bool-cases (is_at t upper)) [
  | inl stop ↦
      ap (λ (p : TimerQueue × List Timer). p.0.timer_map_once)
        (some_eq (sym e ∙ walk-stop silent fuel t upper us q stop))
  | inr go ↦
      walk-silent fuel (next t q.timer_map_repeat) upper (us ++ t ∷ []) (exec_callback silent t q) r
        (sym (walk-go silent fuel t upper us q go) ∙ e)
]

finish-once :
    (clock : ℕ) (upper : Option Timer) (r : TimerQueue × List Timer)
    → (finish clock upper r).timer_map_once ≡ r.0.timer_map_once
unfolding finish reset_timerfd
finish-once clock upper r = ground arith

pub handle_read-once :
    (fuel now clock : ℕ) (q q' : TimerQueue)
    → handle_read silent fuel now clock q ≡ some q'
    → q'.timer_map_once ≡ remaining now q.timer_map_once
unfolding handle_read
handle_read-once fuel now clock q q' e =
    let q1 = ran_once silent now q in
    let upper = begin (remaining now q1.timer_map_repeat) in
    let (r, walked, finished) =
      bind-some (walk silent fuel (begin q1.timer_map_repeat) upper [] q1)
        (λ r. some (finish clock upper r)) q' e in
    ap (λ (p : TimerQueue). p.timer_map_once) (sym (some_eq finished))
    ∙ finish-once clock upper r
    ∙ walk-silent fuel (begin q1.timer_map_repeat) upper [] q1 r walked
    ∙ run_all-silent (expired now q.timer_map_once)
        (record q { timer_map_once = remaining now q.timer_map_once })
