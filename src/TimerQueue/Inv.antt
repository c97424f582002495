-- ===== src/TimerQueue/Inv.antt =====
-- The invariant of a timer queue, and the operations that keep it.
use bounce.Prelude.{
  ℕ, ◌≤◌, ◌≡◌, refl, sym, subst, ap, ◌∙◌, inl, inr, true, false, not, Option, none, some, List, [],
  ◌∷◌, ◌++◌, arith, ltb, if◌then◌else◌, Bool-cases, ◌⊎◌, some_eq, zero, suc,
}
use bounce.TimerQueue.{
  Timer, TimerQueue, insert, expired, remaining, earliest, from, update_all, begin, reset_timerfd,
  repeat, add_timer_in_loop, add_all, exec_callback, run_all, walk, finish, delete_timer_in_loop,
  is_at,
}
use bounce.TimerQueue.Walk.{walk-stop, walk-go}
use bounce.TimerQueue.Sorted.{
  AllFrom, Sorted, AllFrom-le, insert-AllFrom, insert-Sorted, update_all-Sorted, remaining-Sorted,
  remaining-keeps_AllFrom, from-Sorted, erase-AllFrom, erase-Sorted,
}

-- Both maps are in order, and no timer expires before `min_expiration`.
pub record IsValid (q : TimerQueue) : Type 0 where
  pub once : Sorted q.timer_map_once
  pub again : Sorted q.timer_map_repeat
  pub once_from : AllFrom q.min_expiration q.timer_map_once
  pub again_from : AllFrom q.min_expiration q.timer_map_repeat

Sorted-earliest : (n : ℕ) (l : List Timer) → Sorted l → n ≤ earliest l → AllFrom n l
unfolding earliest
Sorted-earliest n [] s h = tt
Sorted-earliest n (t ∷ l) s h = (h, AllFrom-le l h s.0)

reset_timerfd-fields :
    (now : ℕ) (q : TimerQueue)
    → let q' = reset_timerfd now q in
      (q'.timer_map_once ≡ q.timer_map_once)
      × (q'.timer_map_repeat ≡ q.timer_map_repeat)
      × (q'.ran ≡ q.ran)
      × (q'.min_expiration ≤ earliest q.timer_map_once)
      × (q'.min_expiration ≤ earliest q.timer_map_repeat)
unfolding reset_timerfd
reset_timerfd-fields now q = ground arith

pub reset_timerfd-AllFrom :
    (now : ℕ) (q : TimerQueue)
    → Sorted q.timer_map_once
    → Sorted q.timer_map_repeat
    → AllFrom (reset_timerfd now q).min_expiration q.timer_map_once
      × AllFrom (reset_timerfd now q).min_expiration q.timer_map_repeat
reset_timerfd-AllFrom now q s r =
    let (_, _, _, least_once, least_again) = reset_timerfd-fields now q in
    (
      Sorted-earliest _ q.timer_map_once s least_once,
      Sorted-earliest _ q.timer_map_repeat r least_again,
    )

-- The maps alone decide whether a queue that has just been reset is valid.
reset_timerfd-IsValid :
    (now : ℕ) (q : TimerQueue)
    → Sorted q.timer_map_once
    → Sorted q.timer_map_repeat
    → IsValid (reset_timerfd now q)
reset_timerfd-IsValid now q s r =
    let (once, again, _, _, _) = reset_timerfd-fields now q in
    let (first, first_again) = reset_timerfd-AllFrom now q s r in
    record {
      once = subst Sorted (sym once) s;
      again = subst Sorted (sym again) r;
      once_from = subst (AllFrom (reset_timerfd now q).min_expiration) (sym once) first;
      again_from = subst (AllFrom (reset_timerfd now q).min_expiration) (sym again) first_again;
    }

-- The queue with a timer in its map.
unfoldable placed : Timer → TimerQueue → TimerQueue
unfolding repeat
placed t q =
    if not (repeat t)
    then record q { timer_map_once = insert t q.timer_map_once }
    else record q { timer_map_repeat = insert t q.timer_map_repeat }

placed-fields :
    (t : Timer) (q : TimerQueue)
    → (placed t q ≡ record q { timer_map_once = insert t q.timer_map_once })
      ⊎ (placed t q ≡ record q { timer_map_repeat = insert t q.timer_map_repeat })
unfolding placed
placed-fields t q = elim (Bool-cases (repeat t)) [
  | inl again ↦ inr (rw again refl)
  | inr once ↦ inl (rw once refl)
]

add-reset :
    (now : ℕ) (t : Timer) (q : TimerQueue)
    → ltb t.expiration (placed t q).min_expiration ≡ true
    → add_timer_in_loop now t q ≡ reset_timerfd now (placed t q)
unfolding add_timer_in_loop placed
add-reset now t q first = rw first refl

add-same :
    (now : ℕ) (t : Timer) (q : TimerQueue)
    → ltb t.expiration (placed t q).min_expiration ≡ false
    → add_timer_in_loop now t q ≡ placed t q
unfolding add_timer_in_loop placed
add-same now t q later = rw later refl

module _ (t : Timer) {q : TimerQueue} (v : IsValid q) where
  placed-Sorted : Sorted (placed t q).timer_map_once × Sorted (placed t q).timer_map_repeat
  placed-Sorted = elim (placed-fields t q) [
    | inl e ↦ rw e (insert-Sorted t q.timer_map_once v.once, v.again)
    | inr e ↦ rw e (v.once, insert-Sorted t q.timer_map_repeat v.again)
  ]

  placed-IsValid : ltb t.expiration (placed t q).min_expiration ≡ false → IsValid (placed t q)
  placed-IsValid later = elim (placed-fields t q) [
    | inl e ↦ subst IsValid (sym e) (record {
      once = insert-Sorted t q.timer_map_once v.once;
      again = v.again;
      once_from =
          insert-AllFrom q.min_expiration t q.timer_map_once
            (ground (arith, ap (λ (p : TimerQueue). p.min_expiration) e)) v.once_from;
      again_from = v.again_from;
    })
    | inr e ↦ subst IsValid (sym e) (record {
      once = v.once;
      again = insert-Sorted t q.timer_map_repeat v.again;
      once_from = v.once_from;
      again_from =
          insert-AllFrom q.min_expiration t q.timer_map_repeat
            (ground (arith, ap (λ (p : TimerQueue). p.min_expiration) e)) v.again_from;
    })
  ]

  -- Adding a timer at whatever time keeps both maps in order, and no timer expires before
  -- `min_expiration`.
  pub add_timer_in_loop-IsValid : (now : ℕ) → IsValid (add_timer_in_loop now t q)
  add_timer_in_loop-IsValid now = elim (Bool-cases (ltb t.expiration (placed t q).min_expiration)) [
    | inl first ↦
        subst IsValid (sym (add-reset now t q first))
          (reset_timerfd-IsValid now (placed t q) placed-Sorted.0 placed-Sorted.1)
    | inr later ↦ subst IsValid (sym (add-same now t q later)) (placed-IsValid later)
  ]

  pub delete_timer_in_loop-IsValid : IsValid (delete_timer_in_loop t q)
  unfolding delete_timer_in_loop
  delete_timer_in_loop-IsValid = record {
    once = v.once;
    again = erase-Sorted t q.timer_map_repeat v.again;
    once_from = v.once_from;
    again_from = erase-AllFrom q.min_expiration t q.timer_map_repeat v.again_from;
  }

module _ (adds : List Timer → List (ℕ × Timer)) where
  add_all-IsValid : (l : List (ℕ × Timer)) {q : TimerQueue} → IsValid q → IsValid (add_all adds l q)
  unfolding add_all
  add_all-IsValid [] v = v
  add_all-IsValid ((now, t) ∷ l) v = add_all-IsValid l (add_timer_in_loop-IsValid t v now)

  exec_callback-IsValid :
      (t : Timer) {q : TimerQueue} → IsValid q → IsValid (exec_callback adds t q)
  unfolding exec_callback
  exec_callback-IsValid t {q} v = add_all-IsValid (adds (q.ran ++ t ∷ [])) (record {
    once = v.once;
    again = v.again;
    once_from = v.once_from;
    again_from = v.again_from;
  })

  run_all-IsValid : (l : List Timer) {q : TimerQueue} → IsValid q → IsValid (run_all adds l q)
  unfolding run_all
  run_all-IsValid [] v = v
  run_all-IsValid (t ∷ l) v = run_all-IsValid l (exec_callback-IsValid t v)

  walk-IsValid :
      (fuel : ℕ) (it upper : Option Timer) (us : List Timer) {q : TimerQueue}
      (r : TimerQueue × List Timer)
      → IsValid q
      → walk adds fuel it upper us q ≡ some r
      → IsValid r.0
  unfolding walk
  walk-IsValid zero it upper us r v e = cc
  walk-IsValid (suc fuel) none none us {q} r v e =
      subst IsValid (ap (λ (p : TimerQueue × List Timer). p.0) (some_eq e)) v
  walk-IsValid (suc fuel) none (some u) us r v e = cc
  walk-IsValid (suc fuel) (some t) upper us {q} r v e = elim (Bool-cases (is_at t upper)) [
    | inl stop ↦
        subst IsValid
          (ap (λ (p : TimerQueue × List Timer). p.0)
            (some_eq (sym (walk-stop adds fuel t upper us q stop) ∙ e)))
          v
    | inr go ↦
        walk-IsValid fuel _ upper (us ++ t ∷ []) r (exec_callback-IsValid t v)
          (sym (walk-go adds fuel t upper us q go) ∙ e)
  ]

  -- The queue when the one-shot timers have run.
  abbrev pub ran_once : ℕ → TimerQueue → TimerQueue
  ran_once now q =
      run_all adds (expired now q.timer_map_once)
        (record q { timer_map_once = remaining now q.timer_map_once })

  pub handle_read-IsValid :
      (fuel now clock : ℕ) {q : TimerQueue} (r : TimerQueue × List Timer)
      → IsValid q
      → walk adds fuel
          (begin (ran_once now q).timer_map_repeat)
          (begin (remaining now (ran_once now q).timer_map_repeat))
          []
          (ran_once now q)
        ≡ some r
      → IsValid (finish clock (begin (remaining now (ran_once now q).timer_map_repeat)) r)
  unfolding finish
  handle_read-IsValid fuel now clock {q} r v e =
      let u = run_all-IsValid (expired now q.timer_map_once) (record {
        once = remaining-Sorted now q.timer_map_once v.once;
        again = v.again;
        once_from = remaining-keeps_AllFrom q.min_expiration now q.timer_map_once v.once_from;
        again_from = v.again_from;
      }) in
      let w = walk-IsValid fuel _ _ [] r u e in
      let upper = begin (remaining now (ran_once now q).timer_map_repeat) in
      reset_timerfd-IsValid clock
        (record (r.0) { timer_map_repeat = update_all r.1 (from upper r.0.timer_map_repeat) })
        w.once (update_all-Sorted r.1 _ (from-Sorted _ r.0.timer_map_repeat w.again))
