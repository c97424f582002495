-- ===== src/TimerQueue/Run.antt =====
-- `handleRead`: which callbacks run, and what becomes of their timers.
use mathlib.Core.List.{append_assoc, append-nil}
use bounce.Prelude.{
  ℕ, zero, suc, ◌<◌, ◌≡◌, refl, sym, subst, ap, ap₂, ◌∙◌, Option, some, List, [], ◌∷◌, ◌++◌, arith,
  length, ==_refl, ◌>>=◌,
}
use bounce.TimerQueue.{
  Timer, TimerQueue, walk, exec_callback, is_at, next, begin, from, repeat, add_all,
  add_timer_in_loop, reset_timerfd, run_all, expired, remaining, update_all, finish, handle_read,
}
use bounce.TimerQueue.Sorted.{expired-append-remaining}
use bounce.TimerQueue.Walk.{
  walk-stop, walk-go, walk_end, Distinct, next_lem, is_at-before, from_lem,
}
use bounce.TimerQueue.Inv.{IsValid, ran_once, handle_read-IsValid}

-- All the timers that a callback adds are for one time.
abbrev pub AllOnce : List (ℕ × Timer) → Type 0
AllOnce [] = Unit {0}
AllOnce ((now, t) ∷ l) = (t.duration ≡ 0) × AllOnce l

-- What `handleRead` does where the callbacks add no repeat timers.
pub record Handles (now : ℕ) (q q' : TimerQueue) : Type 0 where
  pub valid : IsValid q'
  pub ran : q'.ran ≡ q.ran ++ (expired now q.timer_map_once ++ expired now q.timer_map_repeat)
  pub again :
      q'.timer_map_repeat
      ≡ update_all (expired now q.timer_map_repeat) (remaining now q.timer_map_repeat)

add-once :
    (now : ℕ) (t : Timer) (q : TimerQueue)
    → t.duration ≡ 0
    → ((add_timer_in_loop now t q).timer_map_repeat ≡ q.timer_map_repeat)
      × ((add_timer_in_loop now t q).ran ≡ q.ran)
unfolding add_timer_in_loop repeat reset_timerfd
add-once now t q h = ground arith

reset_timerfd-again :
    (now : ℕ) (q : TimerQueue)
    → ((reset_timerfd now q).timer_map_repeat ≡ q.timer_map_repeat)
      × ((reset_timerfd now q).ran ≡ q.ran)
unfolding reset_timerfd
reset_timerfd-again now q = ground arith

-- `handleRead` after its loop over the repeat timers.
pub handle_read_run :
    (adds : List Timer → List (ℕ × Timer)) (fuel now clock : ℕ) (q : TimerQueue)
    (r : TimerQueue × List Timer)
    → let q1 = ran_once adds now q in
      let upper = begin (remaining now q1.timer_map_repeat) in
      walk adds fuel (begin q1.timer_map_repeat) upper [] q1 ≡ some r
      → handle_read adds fuel now clock q ≡ some (finish clock upper r)
unfolding handle_read
handle_read_run adds fuel now clock q r e =
    ap
      (λ o. o >>= (λ w.
        some (finish clock (begin (remaining now (ran_once adds now q).timer_map_repeat)) w)))
      e

module _ (adds : List Timer → List (ℕ × Timer))
    (adds_once : (ran : List Timer) → AllOnce (adds ran)) where
  add_all-once :
      (l : List (ℕ × Timer)) (q : TimerQueue)
      → AllOnce l
      → ((add_all adds l q).timer_map_repeat ≡ q.timer_map_repeat)
        × ((add_all adds l q).ran ≡ q.ran)
  unfolding add_all
  add_all-once [] q a = (refl, refl)
  add_all-once ((now, t) ∷ l) q a =
      let rest = add_all-once l (add_timer_in_loop now t q) a.1 in
      let first = add-once now t q a.0 in (rest.0 ∙ first.0, rest.1 ∙ first.1)

  exec_callback-once :
      (t : Timer) (q : TimerQueue)
      → ((exec_callback adds t q).timer_map_repeat ≡ q.timer_map_repeat)
        × ((exec_callback adds t q).ran ≡ q.ran ++ t ∷ [])
  unfolding exec_callback
  exec_callback-once t q = add_all-once (adds (q.ran ++ t ∷ [])) _ (adds_once (q.ran ++ t ∷ []))

  run_all-once :
      (l : List Timer) (q : TimerQueue)
      → ((run_all adds l q).timer_map_repeat ≡ q.timer_map_repeat)
        × ((run_all adds l q).ran ≡ q.ran ++ l)
  unfolding run_all
  run_all-once [] q = (refl, sym (append-nil q.ran))
  run_all-once (t ∷ l) q =
      let rest = run_all-once l (exec_callback adds t q) in
      let first = exec_callback-once t q in
      (rest.0 ∙ first.0, rest.1 ∙ ap (λ r. r ++ l) first.1 ∙ append_assoc q.ran (t ∷ []) l)

  walk-once :
      (fuel : ℕ) (visited due later us : List Timer) (q : TimerQueue)
      → q.timer_map_repeat ≡ visited ++ (due ++ later)
      → Distinct (visited ++ (due ++ later))
      → Distinct (due ++ later)
      → length due < fuel
      → (q' : TimerQueue) × (walk adds fuel (begin (due ++ later)) (begin later) us q
          ≡ some (q', us ++ due))
        × (q'.timer_map_repeat ≡ q.timer_map_repeat)
        × (q'.ran ≡ q.ran ++ due)
  unfolding begin is_at
  walk-once zero visited due later us q e d d' h = absurd (omega arith)
  walk-once (suc fuel) visited [] [] us q e d d' h = (
    q,
    walk_end adds fuel us q ∙ ap (λ l. some (q, l)) (sym (append-nil us)),
    refl,
    sym (append-nil q.ran),
  )
  walk-once (suc fuel) visited [] (u ∷ later) us q e d d' h = (
    q,
    walk-stop adds fuel u (some u) us q (==_refl u.address)
        ∙ ap (λ l. some (q, l)) (sym (append-nil us)),
    refl,
    sym (append-nil q.ran),
  )
  walk-once (suc fuel) visited (t ∷ due) later us q e d d' h =
      let first = exec_callback-once t q in
      let q1 = exec_callback adds t q in
      let shift = append_assoc visited (t ∷ []) (due ++ later) in
      let (q', walked, again, ran) =
        walk-once fuel (visited ++ t ∷ []) due later (us ++ t ∷ []) q1 (first.0 ∙ e ∙ sym shift)
          (subst Distinct (sym shift) d) d'.1 (omega arith) in
      (
        q',
        walk-go adds fuel t (begin later) us q (is_at-before t due later d'.0)
            ∙ ap (λ it. walk adds fuel it (begin later) (us ++ t ∷ []) q1)
                (ap (next t) (first.0 ∙ e) ∙ next_lem visited t (due ++ later) d)
            ∙ walked
            ∙ ap (λ l. some (q', l)) (append_assoc us (t ∷ []) due),
        again ∙ first.0,
        ran ∙ ap (λ r. r ++ due) first.1 ∙ append_assoc q.ran (t ∷ []) due,
      )

  module _ (fuel now clock : ℕ) (q : TimerQueue) (v : IsValid q) (d : Distinct q.timer_map_repeat)
      (enough : length (expired now q.timer_map_repeat) < fuel) where
    due : List Timer
    due = expired now q.timer_map_repeat

    later : List Timer
    later = remaining now q.timer_map_repeat

    q1 : TimerQueue
    q1 = ran_once adds now q

    parts : due ++ later ≡ q.timer_map_repeat
    unfolding due later
    parts = expired-append-remaining now q.timer_map_repeat

    once_first :
        (q1.timer_map_repeat ≡ q.timer_map_repeat)
        × (q1.ran ≡ q.ran ++ expired now q.timer_map_once)
    unfolding q1
    once_first = run_all-once (expired now q.timer_map_once) _

    upper : Option Timer
    upper = begin (remaining now q1.timer_map_repeat)

    upper-later : upper ≡ begin later
    unfolding upper later
    upper-later = ap (λ l. begin (remaining now l)) once_first.0

    walked :
        (q2 : TimerQueue) × (walk adds fuel (begin q1.timer_map_repeat) upper [] q1
          ≡ some (q2, due))
        × (q2.timer_map_repeat ≡ q1.timer_map_repeat)
        × (q2.ran ≡ q1.ran ++ due)
    unfolding due
    walked =
        let apart = subst Distinct (sym parts) d in
        let (q2, w, again, ran) =
          walk-once fuel [] due later [] q1 (once_first.0 ∙ sym parts) apart apart enough in
        (
          q2,
          ap₂ (λ it u. walk adds fuel it u [] q1) (ap begin (once_first.0 ∙ sym parts)) upper-later
              ∙ w,
          again,
          ran,
        )

    finish-fields :
        (r : TimerQueue × List Timer)
        → ((finish clock upper r).timer_map_repeat
            ≡ update_all r.1 (from upper r.0.timer_map_repeat))
          × ((finish clock upper r).ran ≡ r.0.ran)
    unfolding finish
    finish-fields r =
        reset_timerfd-again clock
          (record (r.0) { timer_map_repeat = update_all r.1 (from upper r.0.timer_map_repeat) })

    -- `handleRead` in the code's own terms; TimerQueue/Passes has what they mean.
    pub handle_read_lem :
        (q' : TimerQueue) × (handle_read adds fuel now clock q ≡ some q') × Handles now q q'
    unfolding q1 upper due later
    handle_read_lem =
        let (q2, w, again, ran) = walked in
        let (map, log) = finish-fields (q2, due) in
        (
          finish clock upper (q2, due),
          handle_read_run adds fuel now clock q (q2, due) w,
          record {
            valid = handle_read-IsValid adds fuel now clock (q2, due) v w;
            ran =
                log
                ∙ ran
                ∙ ap (λ l. l ++ due) once_first.1
                ∙ append_assoc q.ran (expired now q.timer_map_once) due;
            again =
                map
                ∙ ap (update_all due) (
                    ap₂ from upper-later (again ∙ once_first.0 ∙ sym parts)
                    ∙ from_lem due later (subst Distinct (sym parts) d));
          },
        )
