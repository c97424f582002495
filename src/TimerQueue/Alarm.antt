-- ===== src/TimerQueue/Alarm.antt =====
-- What the kernel's timer is set to after `resetTimerfd`.
use bounce.Prelude.{
  ℕ, ◌+◌, ◌*◌, ◌≤◌, ◌<◌, ◌≡◌, ◌≢◌, ◌⊎◌, ◌↔◌, refl, sym, subst, ◌∙◌, inl, inr, some, List, [], ◌∷◌,
  arith, get_elem?,
}
use bounce.TimerQueue.{
  Timer, TimerQueue, Timespec, earliest, max_time, nano_seconds_per_second, reset_timerfd, timespec,
  wait_for,
}
use bounce.TimerQueue.Sorted.{AllFrom, Sorted}
use bounce.TimerQueue.Inv.{reset_timerfd-AllFrom}

timespec_lem :
    (diff : ℕ)
    → ((timespec diff).tv_sec * nano_seconds_per_second + (timespec diff).tv_nsec ≡ diff)
      × ((timespec diff).tv_nsec < nano_seconds_per_second)
unfolding timespec
timespec_lem diff = (omega arith, omega arith)

wait_for_lem :
    (now least : ℕ)
    → (least ≤ now + wait_for now least)
      × ((least < now) ⊎ (now + wait_for now least ≡ least))
      × ((wait_for now least ≡ 0) ↔ (least ≡ now))
unfolding wait_for
wait_for_lem now least = ground arith

reset_timerfd-value :
    (now : ℕ) (q : TimerQueue)
    → (reset_timerfd now q).min_expiration ≢ max_time
    → (reset_timerfd now q).value
      ≡ some (timespec (wait_for now (reset_timerfd now q).min_expiration))
unfolding reset_timerfd
reset_timerfd-value now q h = ground arith

abbrev pub total : Timespec → ℕ
total set = set.tv_sec * nano_seconds_per_second + set.tv_nsec

-- A timer of the list expires at a time.
abbrev pub ExpiresAt : ℕ → List Timer → Type 0
ExpiresAt n l = (i : ℕ) × (t : Timer) × (get_elem? l i ≡ some t) × (t.expiration ≡ n)

earliest-ExpiresAt : (l : List Timer) → earliest l ≢ max_time → ExpiresAt (earliest l) l
unfolding earliest
earliest-ExpiresAt [] h = absurd (h refl)
earliest-ExpiresAt (t ∷ l) h = (0, t, refl, refl)

least-is :
    (now : ℕ) (q : TimerQueue)
    → ((reset_timerfd now q).min_expiration ≡ earliest q.timer_map_once)
      ⊎ ((reset_timerfd now q).min_expiration ≡ earliest q.timer_map_repeat)
unfolding reset_timerfd
least-is now q = ground arith

least-ExpiresAt :
    (now : ℕ) (q : TimerQueue)
    → let least = (reset_timerfd now q).min_expiration in
      least ≢ max_time → ExpiresAt least q.timer_map_once ⊎ ExpiresAt least q.timer_map_repeat
least-ExpiresAt now q h = elim (least-is now q) [
  | inl e ↦ inl (
      subst (λ n. ExpiresAt n q.timer_map_once) (sym e)
        (earliest-ExpiresAt q.timer_map_once (λ none_. h (e ∙ none_))))
  | inr e ↦ inr (
      subst (λ n. ExpiresAt n q.timer_map_repeat) (sym e)
        (earliest-ExpiresAt q.timer_map_repeat (λ none_. h (e ∙ none_))))
]

-- After `resetTimerfd` of a queue whose maps are in order, some timer of one of the maps expires at
-- `min_expiration`, and none in either map before, unless there is no timer that will expire. The
-- timer of the kernel is then set, in normal form, to the time that is left until then, or to a moment
-- after a time that is past. The total is zero, with which `::timerfd_settime` disarms the timer,
-- exactly if the earliest timer expires at the very time that the clock shows.
pub reset_timerfd_lem :
    (now : ℕ) (q : TimerQueue)
    → Sorted q.timer_map_once
    → Sorted q.timer_map_repeat
    → let least = (reset_timerfd now q).min_expiration in
      least ≢ max_time
      → (ExpiresAt least q.timer_map_once ⊎ ExpiresAt least q.timer_map_repeat)
        × AllFrom least q.timer_map_once
        × AllFrom least q.timer_map_repeat
        × (set : Timespec) × ((reset_timerfd now q).value ≡ some set)
        × (set.tv_nsec < nano_seconds_per_second)
        × (least ≤ now + total set)
        × ((least < now) ⊎ (now + total set ≡ least))
        × ((total set ≡ 0) ↔ (least ≡ now))
reset_timerfd_lem now q once again h =
    let least = (reset_timerfd now q).min_expiration in
    let (first, first_again) = reset_timerfd-AllFrom now q once again in
    let (exact, normal) = timespec_lem (wait_for now least) in
    let spec = timespec (wait_for now least) in
    let (late, exactly, disarms) =
      subst
        (λ n. (least ≤ now + n) × ((least < now) ⊎ (now + n ≡ least)) × ((n ≡ 0) ↔ (least ≡ now)))
        (sym exact) (wait_for_lem now least) in
    (
      least-ExpiresAt now q h,
      first,
      first_again,
      spec,
      reset_timerfd-value now q h,
      normal,
      late,
      exactly,
      disarms,
    )
