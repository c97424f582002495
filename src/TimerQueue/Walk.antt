-- ===== src/TimerQueue/Walk.antt =====
-- The loop of `handleRead` over the repeat timers, step by step.
use bounce.Prelude.{
  ℕ, suc, ◌≡◌, ◌≢◌, refl, true, false, Option, none, some, List, [], ◌∷◌, ◌++◌, arith, ◌==◌,
  ==_refl,
}
use bounce.TimerQueue.{Timer, TimerQueue, walk, exec_callback, is_at, next, begin, from}

module _ (adds : List Timer → List (ℕ × Timer)) (fuel : ℕ) (t : Timer) (upper : Option Timer)
    (us : List Timer) (q : TimerQueue) where
  pub walk-stop : is_at t upper ≡ true → walk adds (suc fuel) (some t) upper us q ≡ some (q, us)
  unfolding walk
  walk-stop stop = rw (stop, walk) refl

  pub walk-go :
      is_at t upper ≡ false
      → walk adds (suc fuel) (some t) upper us q
        ≡ walk adds fuel
            (next t (exec_callback adds t q).timer_map_repeat)
            upper
            (us ++ t ∷ [])
            (exec_callback adds t q)
  unfolding walk
  walk-go go = rw (go, walk) refl

pub walk_end :
    (adds : List Timer → List (ℕ × Timer)) (fuel : ℕ) (us : List Timer) (q : TimerQueue)
    → walk adds (suc fuel) none none us q ≡ some (q, us)
unfolding walk
walk_end adds fuel us q = refl

-- No timer of a list has the address.
abbrev pub Fresh : ℕ → List Timer → Type 0
Fresh a [] = Unit {0}
Fresh a (t ∷ l) = (a ≢ t.address) × Fresh a l

-- The timers of a list are different objects.
abbrev pub Distinct : List Timer → Type 0
Distinct [] = Unit {0}
Distinct (t ∷ l) = Fresh t.address l × Distinct l

==-ne : (a b : ℕ) → a ≢ b → (a == b) ≡ false
==-ne a b h = ground arith

-- Behind a timer comes what follows it in the list.
pub next_lem :
    (visited : List Timer) (t : Timer) (l : List Timer)
    → Distinct (visited ++ t ∷ l)
    → next t (visited ++ t ∷ l) ≡ begin l
unfolding next
next_lem [] t l d = rw (==_refl t.address) refl
next_lem (u ∷ visited) t l d =
    rw (==-ne u.address t.address (fresh visited d.0)) (next_lem visited t l d.1)
  where
    fresh : (visited : List Timer) → Fresh u.address (visited ++ t ∷ l) → u.address ≢ t.address
    fresh [] f = f.0
    fresh (w ∷ visited) f = fresh visited f.1

-- An element before an iterator is not where it stands.
pub is_at-before :
    (t : Timer) (due later : List Timer)
    → Fresh t.address (due ++ later)
    → is_at t (begin later) ≡ false
unfolding begin is_at
is_at-before t due [] f = refl
is_at-before t [] (u ∷ later) f = ==-ne t.address u.address f.0
is_at-before t (w ∷ due) (u ∷ later) f = is_at-before t due (u ∷ later) f.1

-- The elements from an iterator on.
pub from_lem :
    (due later : List Timer) → Distinct (due ++ later) → from (begin later) (due ++ later) ≡ later
unfolding from begin is_at
from_lem [] [] d = refl
from_lem [] (u ∷ later) d = rw (==_refl u.address) refl
from_lem (t ∷ due) later d = rw (is_at-before t due later d.0) (from_lem due later d.1)
