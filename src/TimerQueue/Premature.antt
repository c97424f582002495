-- ===== src/TimerQueue/Premature.antt =====
-- A repeat timer that is added while `handleRead` runs over the map.
use bounce.Prelude.{
  ℕ, suc, ◌≤◌, ◌≡◌, ◌≢◌, refl, ap, ◌∙◌, Option, none, some, List, [], ◌∷◌, ◌++◌, arith, ==_refl,
}
use bounce.TimerQueue.{
  Timer, Timespec, TimerQueue, walk, exec_callback, next, begin, repeat, insert, add_all,
  add_timer_in_loop, reset_timerfd, run_all, expired, remaining, finish, handle_read, is_at,
}
use bounce.TimerQueue.Walk.{walk-go, walk_end}
use bounce.TimerQueue.Run.{handle_read_run}

add-repeat :
    (now : ℕ) (u : Timer) (q : TimerQueue)
    → u.duration ≢ 0
    → ((add_timer_in_loop now u q).timer_map_repeat ≡ insert u q.timer_map_repeat)
      × ((add_timer_in_loop now u q).ran ≡ q.ran)
unfolding add_timer_in_loop repeat reset_timerfd
add-repeat now u q h = ground arith

insert-behind : (t u : Timer) → t.expiration ≤ u.expiration → insert u (t ∷ []) ≡ t ∷ u ∷ []
unfolding insert
insert-behind t u h = ground arith

next-two : (t u : Timer) → t.address ≢ u.address → next t (t ∷ u ∷ []) ≡ some u
unfolding next begin
next-two t u h = rw (==_refl t.address) refl

next-last : (t u : Timer) → t.address ≢ u.address → next u (t ∷ u ∷ []) ≡ none
unfolding next begin
next-last t u h = ground (arith, ==_refl u.address)

remaining-none : (now : ℕ) (t : Timer) → t.expiration ≤ now → begin (remaining now (t ∷ [])) ≡ none
unfolding remaining begin
remaining-none now t h = ground arith

module _ (adds : List Timer → List (ℕ × Timer)) (t : Timer) (q : TimerQueue) where
  exec_callback-adds :
      (now : ℕ) (u : Timer)
      → u.duration ≢ 0
      → adds (q.ran ++ t ∷ []) ≡ (now, u) ∷ []
      → ((exec_callback adds t q).timer_map_repeat ≡ insert u q.timer_map_repeat)
        × ((exec_callback adds t q).ran ≡ q.ran ++ t ∷ [])
  unfolding exec_callback add_all
  exec_callback-adds now u repeats e =
      rw (e, add_all) (add-repeat now u (record q { ran = q.ran ++ t ∷ [] }) repeats)

  exec_callback-nothing :
      adds (q.ran ++ t ∷ []) ≡ []
      → ((exec_callback adds t q).timer_map_repeat ≡ q.timer_map_repeat)
        × ((exec_callback adds t q).ran ≡ q.ran ++ t ∷ [])
  unfolding exec_callback add_all
  exec_callback-nothing e = rw (e, add_all) (refl, refl)

finish-ran :
    (clock : ℕ) (upper : Option Timer) (r : TimerQueue × List Timer)
    → (finish clock upper r).ran ≡ r.0.ran
unfolding finish reset_timerfd
finish-ran clock upper r = ground arith

module _ (adds : List Timer → List (ℕ × Timer)) (fuel now clock : ℕ) (t u : Timer) (least : ℕ)
    (value : Option Timespec) (ran : List Timer) where
  -- The timer is the only one in the queue.
  abbrev pub alone : TimerQueue
  alone = record {
    min_expiration = least;
    timer_map_once = [];
    timer_map_repeat = t ∷ [];
    value = value;
    ran = ran;
  }

  module _ (due : t.expiration ≤ now) (later : t.expiration ≤ u.expiration)
      (other : t.address ≢ u.address) (repeats : u.duration ≢ 0)
      (added : adds (ran ++ t ∷ []) ≡ (now, u) ∷ [])
      (done : adds ((ran ++ t ∷ []) ++ u ∷ []) ≡ []) where
    first : TimerQueue
    first = exec_callback adds t alone

    second : TimerQueue
    unfolding first
    second = exec_callback adds u first

    first-fields : (first.timer_map_repeat ≡ t ∷ u ∷ []) × (first.ran ≡ ran ++ t ∷ [])
    unfolding first
    first-fields =
        let (map, log) = exec_callback-adds adds t alone now u repeats added in
        (map ∙ insert-behind t u later, log)

    second-fields :
        (second.timer_map_repeat ≡ first.timer_map_repeat) × (second.ran ≡ first.ran ++ u ∷ [])
    unfolding second
    second-fields =
        exec_callback-nothing adds u first (ap (λ l. adds (l ++ u ∷ [])) first-fields.1 ∙ done)

    walked : walk adds (suc (suc (suc fuel))) (some t) none [] alone ≡ some (second, t ∷ u ∷ [])
    unfolding first second is_at
    walked =
        walk-go adds (suc (suc fuel)) t none [] alone refl
        ∙ ap (λ it. walk adds (suc (suc fuel)) it none (t ∷ []) first)
            (ap (next t) first-fields.0 ∙ next-two t u other)
        ∙ walk-go adds (suc fuel) u none (t ∷ []) first refl
        ∙ ap (λ it. walk adds (suc fuel) it none (t ∷ u ∷ []) second)
            (ap (next u) (second-fields.0 ∙ first-fields.0) ∙ next-last t u other)
        ∙ walk_end adds fuel (t ∷ u ∷ []) second

    -- A repeat timer that the callback of the only timer in the queue adds runs in the same pass,
    -- whenever it expires.
    pub handle_read_premature :
        (q' : TimerQueue) × (handle_read adds (suc (suc (suc fuel))) now clock alone ≡ some q')
        × (q'.ran ≡ (ran ++ t ∷ []) ++ u ∷ [])
    unfolding expired remaining run_all begin
    handle_read_premature =
        let upper = begin (remaining now (t ∷ [])) in
        let r : TimerQueue × List Timer = (second, t ∷ u ∷ []) in
        (
          finish clock upper r,
          handle_read_run adds (suc (suc (suc fuel))) now clock alone r (
              ap (λ up. walk adds (suc (suc (suc fuel))) (some t) up [] alone)
                (remaining-none now t due)
              ∙ walked),
          finish-ran clock upper r ∙ second-fields.1 ∙ ap (λ l. l ++ u ∷ []) first-fields.1,
        )
