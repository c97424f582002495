-- ===== src/TimerQueue/Passes.antt =====
-- What a pass of `handleRead` does, against what it is meant to do: a timer is due if it expires at
-- the time of the pass or before.
use bounce.Prelude.{
  ℕ, ◌+◌, ◌≤◌, ◌<◌, ◌≡◌, refl, ap, ap₂, ◌∙◌, inl, inr, some, List, [], ◌∷◌, ◌++◌, map, arith,
  length, leb, ltb, if◌then◌else◌, Bool-cases,
}
use bounce.TimerQueue.{
  Timer, TimerQueue, insert, expired, remaining, update_all, timer_update, handle_read,
}
use bounce.TimerQueue.Sorted.{AllFrom, Sorted, AllFrom-le}
use bounce.TimerQueue.Walk.{Distinct}
use bounce.TimerQueue.Inv.{IsValid}
use bounce.TimerQueue.Run.{AllOnce, handle_read_lem}
use bounce.TimerQueue.Calls.Weights.{total, total-insert}

-- The timers of a list that are due, wherever they stand.
unfoldable pub due_by : ℕ → List Timer → List Timer
due_by now [] = []
due_by now (t ∷ l) = let rest = due_by now l in if leb t.expiration now then t ∷ rest else rest

-- A timer that repeats, after a pass.
pub moved : ℕ → Timer → Timer
moved now t =
    if leb t.expiration now then record t { expiration = t.expiration + t.duration } else t

none_by : (now n : ℕ) (l : List Timer) → now < n → AllFrom n l → due_by now l ≡ []
unfolding due_by
none_by now n [] h a = refl
none_by now n (t ∷ l) h a = ground (arith, none_by now n l h a.1)

expired-due_by : (now : ℕ) (l : List Timer) → Sorted l → expired now l ≡ due_by now l
unfolding expired due_by
expired-due_by now [] s = refl
expired-due_by now (t ∷ l) s = elim (Bool-cases (ltb now t.expiration)) [
  | inl later ↦ ground (arith, later, none_by now t.expiration l (ground (arith, later)) s.0)
  | inr due ↦ ground (arith, due, expired-due_by now l s.1)
]

module _ (w : Timer → ℕ) where
  total-update_all_eq :
      (us l : List Timer)
      → total w (update_all us l) ≡ total (λ t. w (timer_update t)) us + total w l
  unfolding total update_all
  total-update_all_eq [] l = omega arith
  total-update_all_eq (u ∷ us) l =
      omega (
        arith,
        total-update_all_eq us (insert (timer_update u) l),
        total-insert w (timer_update u) l,
      )

  timer_update-moved : (now : ℕ) (t : Timer) → t.expiration ≤ now → timer_update t ≡ moved now t
  unfolding timer_update moved
  timer_update-moved now t h = ground arith

  total-later :
      (now : ℕ) (l : List Timer) → AllFrom (now + 1) l → total w (map (moved now) l) ≡ total w l
  unfolding total moved
  total-later now [] a = refl
  total-later now (t ∷ l) a = ground (arith, total-later now l a.1)

  total-parts :
      (now : ℕ) (l : List Timer)
      → Sorted l
      → total (λ t. w (timer_update t)) (expired now l) + total w (remaining now l)
        ≡ total w (map (moved now) l)
  unfolding total expired remaining
  total-parts now [] s = refl
  total-parts now (t ∷ l) s = elim (Bool-cases (ltb now t.expiration)) [
    | inl later ↦ rw later (
        omega (
          arith,
          total-later now (t ∷ l) (ground (arith, later), AllFrom-le l (ground (arith, later)) s.0),
        ))
    | inr due ↦ rw due (
        omega (arith, ap w (timer_update-moved now t (ground (arith, due))), total-parts now l s.1))
  ]

  total-moved :
      (now : ℕ) (l : List Timer)
      → Sorted l
      → total w (update_all (expired now l) (remaining now l)) ≡ total w (map (moved now) l)
  total-moved now l s = total-update_all_eq (expired now l) (remaining now l) ∙ total-parts now l s

-- A pass at the time `now`. Whatever is counted of the repeat timers afterwards, each that was due
-- counts as it is one interval later, and each other as it was.
pub record Passes (now : ℕ) (q q' : TimerQueue) : Type 0 where
  pub valid : IsValid q'
  pub ran : q'.ran ≡ q.ran ++ (due_by now q.timer_map_once ++ due_by now q.timer_map_repeat)
  pub again :
      (w : Timer → ℕ) → total w q'.timer_map_repeat ≡ total w (map (moved now) q.timer_map_repeat)

-- Where the callbacks add only one-shot timers to a valid queue, whose repeat timers are different
-- objects, `handleRead` returns, with fuel for each repeat timer that is due. It has then run exactly
-- the callbacks of the timers that were due, each once: those for one time in the order of their
-- expiration, then those that repeat, in theirs. The latter are back in the map, one interval later,
-- all others are still there, and the invariant holds.
pub handle_read-Passes :
    (adds : List Timer → List (ℕ × Timer))
    → ((ran : List Timer) → AllOnce (adds ran))
    → (fuel now clock : ℕ) (q : TimerQueue) → IsValid q
    → Distinct q.timer_map_repeat
    → length (due_by now q.timer_map_repeat) < fuel
    → (q' : TimerQueue) × (handle_read adds fuel now clock q ≡ some q') × Passes now q q'
handle_read-Passes adds adds_once fuel now clock q v d enough =
    let due = expired-due_by now q.timer_map_repeat v.again in
    let (q', read, h) =
      handle_read_lem adds adds_once fuel now clock q v d (omega (arith, ap length due)) in
    (
      q',
      read,
      record {
        valid = h.valid;
        ran =
            h.ran ∙ ap₂ (λ l m. q.ran ++ (l ++ m)) (expired-due_by now q.timer_map_once v.once) due;
        again = λ w. ap (total w) h.again ∙ total-moved w now q.timer_map_repeat v.again;
      },
    )
