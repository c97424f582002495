-- ===== src/TimerQueue/Endless.antt =====
-- A pass over the repeat timers that never ends.
use bounce.Prelude.{
  ℕ, zero, suc, ◌+◌, ◌≤◌, ◌≡◌, refl, sym, ap, ◌∙◌, ◌⊎◌, inl, inr, false, Option, none, some, List,
  [], ◌∷◌, ◌++◌, arith, length, ltb, ◌==◌, if◌then◌else◌, Bool-cases, length-append, subst, ◌>>=◌,
}
use bounce.TimerQueue.{
  Timer, TimerQueue, insert, walk, exec_callback, add_all, add_timer_in_loop, repeat, reset_timerfd,
  is_at, next, begin, expired, remaining, run_all, handle_read, finish,
}

-- The timers of a list expire by a time.
abbrev pub AllBy : ℕ → List Timer → Type 0
AllBy time [] = Unit {0}
AllBy time (t ∷ l) = (t.expiration ≤ time) × AllBy time l

-- A list has a timer with the address of `t`.
abbrev pub Has : Timer → List Timer → Type 0
Has t [] = ⊥
Has t (u ∷ l) = (u.address ≡ t.address) ⊎ Has t l

AllBy-later : (a b : ℕ) (l : List Timer) → a ≤ b → AllBy a l → AllBy b l
AllBy-later a b [] h all = tt
AllBy-later a b (t ∷ l) h (first, rest) = (omega arith, AllBy-later a b l h rest)

insert-last : (n : Timer) (l : List Timer) → AllBy n.expiration l → insert n l ≡ l ++ n ∷ []
unfolding insert
insert-last n [] all = refl
insert-last n (u ∷ l) (first, rest) =
    ap (λ b. if b then n ∷ u ∷ l else u ∷ insert n l) not_before
    ∙ ap (λ m. u ∷ m) (insert-last n l rest)
  where
    not_before : ltb n.expiration u.expiration ≡ false
    not_before = ground (arith, first)

AllBy-append :
    (time : ℕ) (l : List Timer) (n : Timer)
    → AllBy time l
    → n.expiration ≤ time
    → AllBy time (l ++ n ∷ [])
AllBy-append time [] n all h = (h, tt)
AllBy-append time (u ∷ l) n (first, rest) h = (first, AllBy-append time l n rest h)

begin-some :
    (l : List Timer) (n : Timer)
    → (u : Timer) × (begin (l ++ n ∷ []) ≡ some u) × Has u (l ++ n ∷ [])
unfolding begin
begin-some [] n = (n, refl, inl refl)
begin-some (u ∷ l) n = (u, refl, inl refl)

-- Behind a timer of a list comes another one when a timer is put at the end.
next-some :
    (t n : Timer) (l : List Timer)
    → Has t l
    → (u : Timer) × (next t (l ++ n ∷ []) ≡ some u) × Has u (l ++ n ∷ [])
unfolding next
next-some t n [] h = absurd h
next-some t n (v ∷ l) h = elim (Bool-cases (v.address == t.address)) [
  | inl here ↦
      let (u, at, has) = begin-some l n in
      (u, ap (λ b. if b then begin (l ++ n ∷ []) else next t (l ++ n ∷ [])) here ∙ at, inr has)
  | inr other ↦ elim h [
    | inl same ↦ absurd (ground (arith, other, same))
    | inr behind ↦
        let (u, at, has) = next-some t n l behind in
        (u, ap (λ b. if b then begin (l ++ n ∷ []) else next t (l ++ n ∷ [])) other ∙ at, inr has)
  ]
]

-- Callbacks that each add one repeat timer, which expires after all those before it: the callback
-- that is the k-th to run adds, at the time `now`, a timer that expires `k` nanoseconds after `base`.
module _ (now base first_address interval : ℕ) where
  unfoldable pub added : List Timer → Timer
  added ran = record {
    address = first_address + length ran;
    expiration = base + length ran;
    duration = suc interval;
  }

  unfoldable pub adds_each : List Timer → List (ℕ × Timer)
  adds_each ran = (now, added ran) ∷ []

  exec_callback-adds :
      (t : Timer) (q : TimerQueue)
      → ((exec_callback adds_each t q).timer_map_repeat
          ≡ insert (added (q.ran ++ t ∷ [])) q.timer_map_repeat)
        × ((exec_callback adds_each t q).ran ≡ q.ran ++ t ∷ [])
  unfolding exec_callback add_all adds_each add_timer_in_loop repeat reset_timerfd added
  exec_callback-adds t q = ground arith

  walk-endless :
      (fuel : ℕ) (t : Timer) (us : List Timer) (q : TimerQueue)
      → Has t q.timer_map_repeat
      → AllBy (base + length q.ran) q.timer_map_repeat
      → walk adds_each fuel (some t) none us q ≡ none
  unfolding walk is_at added
  walk-endless zero t us q has all = refl
  walk-endless (suc fuel) t us q has all =
      let n : Timer = added (q.ran ++ t ∷ []) in
      let (map, ran) = exec_callback-adds t q in
      let q' : TimerQueue = exec_callback adds_each t q in
      let longer : length (q.ran ++ t ∷ []) ≡ suc (length q.ran) =
        length-append q.ran (t ∷ []) ∙ omega arith in
      let by : AllBy n.expiration q.timer_map_repeat =
        AllBy-later (base + length q.ran) n.expiration q.timer_map_repeat (omega (arith, longer))
          all in
      let at_end : q'.timer_map_repeat ≡ q.timer_map_repeat ++ n ∷ [] =
        map ∙ insert-last n q.timer_map_repeat by in
      let (u, is_next, has') = next-some t n q.timer_map_repeat has in
      ap (λ it. walk adds_each fuel it none (us ++ t ∷ []) q') (ap (next t) at_end ∙ is_next)
      ∙ walk-endless fuel u (us ++ t ∷ []) q' (subst (Has u) (sym at_end) has') (
          subst (AllBy (base + length q'.ran)) (sym at_end) (
            AllBy-append (base + length q'.ran) q.timer_map_repeat n
              (AllBy-later (base + length q.ran) (base + length q'.ran) q.timer_map_repeat
                (omega (arith, longer, ap length ran)) all)
              (omega (arith, longer, ap length ran))))

  -- Where all the repeat timers of a queue are due, and no timers for one time are there, callbacks
  -- that each add one repeat timer, later than all the others, keep `handleRead` from returning: with
  -- whatever fuel its loop has not ended, since each timer that is added is run in the same pass.
  pub handle_read-endless :
      (fuel time clock : ℕ) (t : Timer) (l : List Timer) (q : TimerQueue)
      → q.timer_map_once ≡ []
      → q.timer_map_repeat ≡ t ∷ l
      → remaining time q.timer_map_repeat ≡ []
      → AllBy (base + length q.ran) q.timer_map_repeat
      → handle_read adds_each fuel time clock q ≡ none
  unfolding handle_read run_all expired remaining begin
  handle_read-endless fuel time clock t l q no_once repeats due all =
      ap
        (λ (once : List Timer).
          let q' =
            run_all adds_each (expired time once)
              (record q { timer_map_once = remaining time once }) in
          walk adds_each fuel (begin q'.timer_map_repeat)
            (begin (remaining time q'.timer_map_repeat)) [] q'
          >>= λ walked. some (finish clock (begin (remaining time q'.timer_map_repeat)) walked))
        no_once
      ∙ ap
          (λ (after : List Timer).
            walk adds_each fuel (begin q.timer_map_repeat) (begin after) []
              (record q { timer_map_once = [] })
            >>= λ walked. some (finish clock (begin after) walked))
          due
      ∙ ap
          (λ (it : Option Timer).
            walk adds_each fuel it none [] (record q { timer_map_once = [] }) >>= λ walked.
            some (finish clock none walked))
          (ap begin repeats)
      ∙ ap
          (λ (o : Option (TimerQueue × List Timer)).
            o >>= λ walked. some (finish clock none walked))
          (walk-endless fuel t [] (record q { timer_map_once = [] })
            (subst (Has t) (sym repeats) (inl refl)) all)
