-- ===== src/TimerQueue/Delete.antt =====
-- `deleteTimerInLoop`.
use bounce.Prelude.{
  ◌≤◌, ◌≡◌, ◌≢◌, subst, ap, ◌∙◌, inl, inr, List, [], ◌∷◌, ◌++◌, arith, ltb, ==_refl, Bool-cases,
}
use bounce.TimerQueue.{Timer, TimerQueue, erase, erase_equal, delete_timer_in_loop}
use bounce.TimerQueue.Sorted.{AllFrom, Sorted}
use bounce.TimerQueue.Walk.{Fresh, Distinct}

erase_equal_head : (t : Timer) (l : List Timer) → erase_equal t (t ∷ l) ≡ l
unfolding erase_equal
erase_equal_head t l = ground (arith, ==_refl t.address)

erase_equal_skip :
    (t u : Timer) (l : List Timer)
    → u.expiration ≤ t.expiration
    → u.address ≢ t.address
    → erase_equal t (u ∷ l) ≡ u ∷ erase_equal t l
unfolding erase_equal
erase_equal_skip t u l h other = ground arith

precedes :
    (u : Timer) (before : List Timer) (t : Timer) (after : List Timer)
    → AllFrom u.expiration (before ++ t ∷ after)
    → u.expiration ≤ t.expiration
precedes u [] t after a = a.0
precedes u (w ∷ before) t after a = precedes u before t after a.1

differs :
    (u : Timer) (before : List Timer) (t : Timer) (after : List Timer)
    → Fresh u.address (before ++ t ∷ after)
    → u.address ≢ t.address
differs u [] t after f = f.0
differs u (w ∷ before) t after f = differs u before t after f.1

erase_equal_lem :
    (before : List Timer) (t : Timer) (after : List Timer)
    → Sorted (before ++ t ∷ after)
    → Distinct (before ++ t ∷ after)
    → erase_equal t (before ++ t ∷ after) ≡ before ++ after
erase_equal_lem [] t after s d = erase_equal_head t after
erase_equal_lem (u ∷ before) t after s d =
    erase_equal_skip t u (before ++ t ∷ after) (precedes u before t after s.0)
      (differs u before t after d.0)
    ∙ ap (λ l. u ∷ l) (erase_equal_lem before t after s.1 d.1)

erase_lem :
    (before : List Timer) (t : Timer) (after : List Timer)
    → Sorted (before ++ t ∷ after)
    → Distinct (before ++ t ∷ after)
    → erase t (before ++ t ∷ after) ≡ before ++ after
unfolding erase
erase_lem [] t after s d = ground (arith, erase_equal_head t after)
erase_lem (u ∷ before) t after s d = elim (Bool-cases (ltb u.expiration t.expiration)) [
  | inl early ↦ rw early (ap (λ l. u ∷ l) (erase_lem before t after s.1 d.1))
  | inr equal ↦ rw equal (erase_equal_lem (u ∷ before) t after s d)
]

-- A repeat timer that is in the map, at its current expiration, is found wherever it stands among
-- those with the same expiration, and it alone is taken out; nothing else changes.
pub delete_timer_in_loop_lem :
    (before : List Timer) (t : Timer) (after : List Timer) (q : TimerQueue)
    → q.timer_map_repeat ≡ before ++ t ∷ after
    → Sorted q.timer_map_repeat
    → Distinct q.timer_map_repeat
    → delete_timer_in_loop t q ≡ record q { timer_map_repeat = before ++ after }
unfolding delete_timer_in_loop
delete_timer_in_loop_lem before t after q e s d =
    ap (λ l. record q { timer_map_repeat = l })
      (ap (erase t) e ∙ erase_lem before t after (subst Sorted e s) (subst Distinct e d))
