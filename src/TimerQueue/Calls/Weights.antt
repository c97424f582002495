-- ===== src/TimerQueue/Calls/Weights.antt =====
-- Sums over the timers of a list, which count them.
use bounce.Prelude.{
  ℕ, ◌+◌, ◌≤◌, ◌≡◌, refl, sym, ap, ◌∙◌, List, [], ◌∷◌, ◌++◌, arith, ◌==◌, if◌then◌else◌, length,
}
use bounce.TimerQueue.{
  Timer, timer_update, insert, erase_equal, erase, expired, remaining, update_all,
}
use bounce.TimerQueue.Sorted.{expired-append-remaining}
use bounce.TimerQueue.Walk.{Fresh, Distinct}

unfoldable pub total : (Timer → ℕ) → List Timer → ℕ
total w [] = 0
total w (t ∷ l) = w t + total w l

-- Counts the timers at an address; and a weight for the timers for one time only.
unfoldable pub at : ℕ → Timer → ℕ
at k t = if t.address == k then 1 else 0

unfoldable pub single : (Timer → ℕ) → Timer → ℕ
single w t = if t.duration == 0 then w t else 0

pub at-timer_update : (k : ℕ) (t : Timer) → at k (timer_update t) ≡ at k t
unfolding at timer_update
at-timer_update k t = ground arith

pub single-timer_update : (w : Timer → ℕ) (t : Timer) → single w (timer_update t) ≡ single w t
unfolding single timer_update
single-timer_update w t = ground arith

module _ (w : Timer → ℕ) where
  pub total-append : (l m : List Timer) → total w (l ++ m) ≡ total w l + total w m
  unfolding total
  total-append [] m = omega arith
  total-append (t ∷ l) m = omega (arith, total-append l m)

  pub total-insert : (t : Timer) (l : List Timer) → total w (insert t l) ≡ w t + total w l
  unfolding total insert
  total-insert t [] = refl
  total-insert t (u ∷ l) = ground (arith, total-insert t l)

  total-erase_equal : (t : Timer) (l : List Timer) → total w (erase_equal t l) ≤ total w l
  unfolding total erase_equal
  total-erase_equal t [] = omega arith
  total-erase_equal t (u ∷ l) = ground (arith, total-erase_equal t l)

  pub total-erase : (t : Timer) (l : List Timer) → total w (erase t l) ≤ total w l
  unfolding total erase
  total-erase t [] = omega arith
  total-erase t (u ∷ l) = ground (arith, total-erase t l, total-erase_equal t (u ∷ l))

  pub total-split :
      (now : ℕ) (l : List Timer) → total w (expired now l) + total w (remaining now l) ≡ total w l
  total-split now l =
      sym (total-append (expired now l) (remaining now l))
      ∙ ap (total w) (expired-append-remaining now l)

  pub total-update_all :
      (same : (t : Timer) → w (timer_update t) ≡ w t) (us l : List Timer)
      → total w (update_all us l) ≡ total w us + total w l
  unfolding total update_all
  total-update_all same [] l = omega arith
  total-update_all same (u ∷ us) l = omega (
    arith,
    total-update_all same us (insert (timer_update u) l),
    total-insert (timer_update u) l,
    same u,
  )

pub length-expired : (now : ℕ) (l : List Timer) → length (expired now l) ≤ length l
unfolding expired
length-expired now [] = omega arith
length-expired now (t ∷ l) = ground (arith, length-expired now l)

-- Timers that are counted at most once at each address are different objects.
none-Fresh : (a : ℕ) (l : List Timer) → total (at a) l ≡ 0 → Fresh a l
unfolding total at
none-Fresh a [] h = tt
none-Fresh a (t ∷ l) h = ((λ e. ground arith), none-Fresh a l (omega arith))

pub once-Distinct : (l : List Timer) → ((k : ℕ) → total (at k) l ≤ 1) → Distinct l
unfolding total at
once-Distinct [] h = tt
once-Distinct (t ∷ l) h = (
  none-Fresh t.address l (ground (arith, h t.address)),
  once-Distinct l (λ k. omega (arith, h k)),
)
