-- ===== src/TimerQueue.antt =====
-- bounce/timer.h, bounce/timer.cc, bounce/timer_queue.h and bounce/timer_queue.cc: the timers of a
-- loop. Time points are nanoseconds since the epoch, not negative; a timer is known by the address
-- of its object, and a multimap is the list of its timers in the order of iteration. The clock is
-- read by the caller.
pub mod Sorted
pub mod Inv
pub mod Alarm
pub mod Walk
pub mod Run
pub mod Passes
pub mod Premature
pub mod Endless
pub mod Delete
pub mod Timers
pub mod Calls
mod Tests
use bounce.Prelude.{
  ℕ, zero, suc, ◌+◌, ◌-◌, ◌/◌, ◌%◌, ◌^◌, Bool, true, false, not, Option, none, some, List, [], ◌∷◌,
  ◌++◌, ltb, ◌==◌, if◌then◌else◌, ◌>>=◌,
}

abbrev pub NanoSeconds : Type 0
NanoSeconds = ℕ

abbrev pub TimePoint : Type 0
TimePoint = ℕ

pub record Timer : Type 0 where
  pub address : ℕ
  pub expiration : TimePoint
  pub duration : NanoSeconds

unfoldable pub repeat : Timer → Bool
repeat t = not (t.duration == 0)

unfoldable pub timer_update : Timer → Timer
timer_update t =
    if not (t.duration == 0) then record t { expiration = t.expiration + t.duration } else t

-- The timers that `runAt`, `runAfter` and `runEvery` of the loop make, at a new address; `now` is the
-- clock.
unfoldable pub run_at : ℕ → ℕ → Timer
run_at address expiration = record { address = address; expiration = expiration; duration = 0 }

unfoldable pub run_after : ℕ → ℕ → ℕ → Timer
run_after address now delay = record { address = address; expiration = now + delay; duration = 0 }

unfoldable pub run_every : ℕ → ℕ → ℕ → Timer
run_every address now interval = record {
  address = address;
  expiration = now + interval;
  duration = interval;
}

-- `TimePoint::max()`.
abbrev pub max_time : ℕ
max_time = 2 ^ 63 - 1

pub record Timespec : Type 0 where
  pub tv_sec : ℕ
  pub tv_nsec : ℕ

abbrev pub nano_seconds_per_second : ℕ
nano_seconds_per_second = 1000000000

-- `value` is what `::timerfd_settime` was last given; `ran` lists the timers whose callbacks have
-- run.
pub record TimerQueue : Type 0 where
  pub min_expiration : ℕ
  pub timer_map_once : List Timer
  pub timer_map_repeat : List Timer
  pub value : Option Timespec
  pub ran : List Timer

abbrev pub init : TimerQueue
init = record {
  min_expiration = max_time;
  timer_map_once = [];
  timer_map_repeat = [];
  value = none;
  ran = [];
}

-- `insert` and `emplace` of a multimap put a new element behind those with an equal key.
unfoldable pub insert : Timer → List Timer → List Timer
insert t [] = t ∷ []
insert t (u ∷ l) =
    let rest = insert t l in if ltb t.expiration u.expiration then t ∷ u ∷ l else u ∷ rest

-- The timers before `upper_bound(now)`, and those from there on.
unfoldable pub expired : ℕ → List Timer → List Timer
expired now [] = []
expired now (t ∷ l) = let rest = expired now l in if ltb now t.expiration then [] else t ∷ rest

unfoldable pub remaining : ℕ → List Timer → List Timer
remaining now [] = []
remaining now (t ∷ l) = let rest = remaining now l in if ltb now t.expiration then t ∷ l else rest

unfoldable pub earliest : List Timer → ℕ
earliest [] = max_time
earliest (t ∷ l) = t.expiration

unfoldable pub timespec : ℕ → Timespec
timespec diff = record {
  tv_sec = diff / nano_seconds_per_second;
  tv_nsec = diff % nano_seconds_per_second;
}

-- How long the timer is set for: a moment if the time is past.
unfoldable pub wait_for : ℕ → ℕ → ℕ
wait_for now expiration = if ltb expiration now then 10 else expiration - now

unfoldable pub reset_timerfd : ℕ → TimerQueue → TimerQueue
unfolding earliest timespec wait_for
reset_timerfd now q =
    let once_expiration = earliest q.timer_map_once in
    let repeat_expiration = earliest q.timer_map_repeat in
    let least =
      if ltb once_expiration repeat_expiration then once_expiration else repeat_expiration in
    let q' = record q { min_expiration = least } in
    if least == max_time then q' else record q' { value = some (timespec (wait_for now least)) }

unfoldable pub add_timer_in_loop : ℕ → Timer → TimerQueue → TimerQueue
unfolding repeat insert reset_timerfd
add_timer_in_loop now t q =
    let q' =
      if not (repeat t)
      then record q { timer_map_once = insert t q.timer_map_once }
      else record q { timer_map_repeat = insert t q.timer_map_repeat } in
    if ltb t.expiration q'.min_expiration then reset_timerfd now q' else q'

-- The loop of `deleteTimerInLoop`, from `lower_bound` on.
unfoldable pub erase_equal : Timer → List Timer → List Timer
erase_equal t [] = []
erase_equal t (u ∷ l) =
    let rest = erase_equal t l in
    if ltb t.expiration u.expiration
    then u ∷ l
    else (if u.address == t.address then l else u ∷ rest)

unfoldable pub erase : Timer → List Timer → List Timer
unfolding erase_equal
erase t [] = []
erase t (u ∷ l) =
    let rest = erase t l in
    if ltb u.expiration t.expiration then u ∷ rest else erase_equal t (u ∷ l)

unfoldable pub delete_timer_in_loop : Timer → TimerQueue → TimerQueue
unfolding erase
delete_timer_in_loop t q = record q { timer_map_repeat = erase t q.timer_map_repeat }

-- An iterator is the element that it stands at, and `end()` is `none`.
unfoldable pub begin : List Timer → Option Timer
begin [] = none
begin (t ∷ l) = some t

-- The iterator behind the one at `t`.
unfoldable pub next : Timer → List Timer → Option Timer
unfolding begin
next t [] = none
next t (u ∷ l) = let rest = next t l in if u.address == t.address then begin l else rest

unfoldable pub is_at : Timer → Option Timer → Bool
is_at t none = false
is_at t (some u) = t.address == u.address

-- `erase(begin(), upper)`.
unfoldable pub from : Option Timer → List Timer → List Timer
unfolding is_at
from upper [] = []
from upper (t ∷ l) = let rest = from upper l in if is_at t upper then t ∷ l else rest

-- `for (auto& it : to_update)`.
unfoldable pub update_all : List Timer → List Timer → List Timer
unfolding insert timer_update
update_all [] l = l
update_all (t ∷ to_update) l = update_all to_update (insert (timer_update t) l)

-- The part of `handleRead` after the loop.
unfoldable pub finish : ℕ → Option Timer → TimerQueue × List Timer → TimerQueue
unfolding from update_all reset_timerfd
finish clock upper (q, to_update) =
    reset_timerfd clock
      (record q { timer_map_repeat = update_all to_update (from upper q.timer_map_repeat) })

-- `adds` tells which timers the callback that ran last adds to the queue, with the time at which it
-- adds each, given all that have run; `deleteTimer` only queues a task for later.
module _ (adds : List Timer → List (ℕ × Timer)) where
  unfoldable pub add_all : List (ℕ × Timer) → TimerQueue → TimerQueue
  unfolding add_timer_in_loop
  add_all [] q = q
  add_all ((now, t) ∷ l) q = add_all l (add_timer_in_loop now t q)

  unfoldable pub exec_callback : Timer → TimerQueue → TimerQueue
  unfolding add_all
  exec_callback t q = add_all (adds (q.ran ++ t ∷ [])) (record q { ran = q.ran ++ t ∷ [] })

  -- `for (auto& it : to_delete)`.
  unfoldable pub run_all : List Timer → TimerQueue → TimerQueue
  unfolding exec_callback
  run_all [] q = q
  run_all (t ∷ l) q = run_all l (exec_callback t q)

  -- The loop over the repeat timers, from an iterator up to `upper`. A callback may add timers to the
  -- map that it runs over. `none`: the fuel is out, or the iterator runs past the end.
  unfoldable pub walk :
      ℕ → Option Timer → Option Timer → List Timer → TimerQueue → Option (TimerQueue × List Timer)
  unfolding exec_callback is_at next
  walk zero it upper to_update q = none
  walk (suc fuel) none none to_update q = some (q, to_update)
  walk (suc fuel) none (some u) to_update q = none
  walk (suc fuel) (some t) upper to_update q = elim (is_at t upper) [
    | true ↦ some (q, to_update)
    | false ↦
        let q' = exec_callback t q in
        walk fuel (next t q'.timer_map_repeat) upper (to_update ++ t ∷ []) q'
  ]

  -- `handleRead`, where `now` and `clock` are its two readings of the clock.
  unfoldable pub handle_read : ℕ → ℕ → ℕ → TimerQueue → Option TimerQueue
  unfolding expired remaining run_all begin walk finish
  handle_read fuel now clock q = do
    let q' =
        run_all (expired now q.timer_map_once)
          (record q { timer_map_once = remaining now q.timer_map_once })
    let upper = begin (remaining now q'.timer_map_repeat)
    walked ← walk fuel (begin q'.timer_map_repeat) upper [] q'
    some (finish clock upper walked)
