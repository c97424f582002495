-- ===== src/TimerQueue/Sorted.antt =====
-- The multimaps of a timer queue: lists of timers in the order of expiration.
use bounce.Prelude.{
  ℕ, ◌+◌, ◌≤◌, ◌≡◌, refl, ap, inl, inr, Option, List, [], ◌∷◌, ◌++◌, arith, ltb, ◌==◌, Bool-cases,
  ltb→lt,
}
use bounce.TimerQueue.{
  Timer, insert, expired, remaining, from, update_all, timer_update, erase, erase_equal, is_at,
}

-- All the timers expire at a time or later.
abbrev pub AllFrom : ℕ → List Timer → Type 0
AllFrom n [] = Unit {0}
AllFrom n (t ∷ l) = (n ≤ t.expiration) × AllFrom n l

-- All have expired by a time.
abbrev pub AllBy : ℕ → List Timer → Type 0
AllBy now [] = Unit {0}
AllBy now (t ∷ l) = (t.expiration ≤ now) × AllBy now l

abbrev pub Sorted : List Timer → Type 0
Sorted [] = Unit {0}
Sorted (t ∷ l) = AllFrom t.expiration l × Sorted l

pub AllFrom-le : {m n : ℕ} (l : List Timer) → m ≤ n → AllFrom n l → AllFrom m l
AllFrom-le [] h a = a
AllFrom-le (t ∷ l) h a = (omega (arith, a.0), AllFrom-le l h a.1)

pub insert-AllFrom :
    (n : ℕ) (t : Timer) (l : List Timer) → n ≤ t.expiration → AllFrom n l → AllFrom n (insert t l)
unfolding insert
insert-AllFrom n t [] h a = (h, a)
insert-AllFrom n t (u ∷ l) h a = elim (Bool-cases (ltb t.expiration u.expiration)) [
  | inl before ↦ rw before (h, a)
  | inr behind ↦ rw behind (a.0, insert-AllFrom n t l h a.1)
]

pub insert-Sorted : (t : Timer) (l : List Timer) → Sorted l → Sorted (insert t l)
unfolding insert
insert-Sorted t [] s = (s, s)
insert-Sorted t (u ∷ l) s = elim (Bool-cases (ltb t.expiration u.expiration)) [
  | inl before ↦ rw before (
    (
      omega (arith, ltb→lt t.expiration u.expiration before),
      AllFrom-le l (omega (arith, ltb→lt t.expiration u.expiration before)) s.0,
    ),
    s,
  )
  | inr behind ↦
      rw behind (insert-AllFrom u.expiration t l (ground arith) s.0, insert-Sorted t l s.1)
]

pub update_all-Sorted : (us l : List Timer) → Sorted l → Sorted (update_all us l)
unfolding update_all
update_all-Sorted [] l s = s
update_all-Sorted (u ∷ us) l s =
    update_all-Sorted us (insert (timer_update u) l) (insert-Sorted (timer_update u) l s)

pub expired-append-remaining : (now : ℕ) (l : List Timer) → expired now l ++ remaining now l ≡ l
unfolding expired remaining
expired-append-remaining now [] = refl
expired-append-remaining now (t ∷ l) = elim (Bool-cases (ltb now t.expiration)) [
  | inl later ↦ rw later refl
  | inr due ↦ rw due (ap (λ k. t ∷ k) (expired-append-remaining now l))
]

pub expired-AllBy : (now : ℕ) (l : List Timer) → AllBy now (expired now l)
unfolding expired
expired-AllBy now [] = tt
expired-AllBy now (t ∷ l) = elim (Bool-cases (ltb now t.expiration)) [
  | inl later ↦ rw later tt
  | inr due ↦ rw due (ground arith, expired-AllBy now l)
]

pub remaining-AllFrom : (now : ℕ) (l : List Timer) → Sorted l → AllFrom (now + 1) (remaining now l)
unfolding remaining
remaining-AllFrom now [] s = tt
remaining-AllFrom now (t ∷ l) s = elim (Bool-cases (ltb now t.expiration)) [
  | inl later ↦ rw later (
    omega (arith, ltb→lt now t.expiration later),
    AllFrom-le l (omega (arith, ltb→lt now t.expiration later)) s.0,
  )
  | inr due ↦ rw due (remaining-AllFrom now l s.1)
]

pub remaining-keeps_AllFrom :
    (n now : ℕ) (l : List Timer) → AllFrom n l → AllFrom n (remaining now l)
unfolding remaining
remaining-keeps_AllFrom n now [] a = a
remaining-keeps_AllFrom n now (t ∷ l) a = elim (Bool-cases (ltb now t.expiration)) [
  | inl later ↦ rw later a
  | inr due ↦ rw due (remaining-keeps_AllFrom n now l a.1)
]

pub remaining-Sorted : (now : ℕ) (l : List Timer) → Sorted l → Sorted (remaining now l)
unfolding remaining
remaining-Sorted now [] s = s
remaining-Sorted now (t ∷ l) s = elim (Bool-cases (ltb now t.expiration)) [
  | inl later ↦ rw later s
  | inr due ↦ rw due (remaining-Sorted now l s.1)
]

pub from-Sorted : (upper : Option Timer) (l : List Timer) → Sorted l → Sorted (from upper l)
unfolding from
from-Sorted upper [] s = s
from-Sorted upper (t ∷ l) s = elim (Bool-cases (is_at t upper)) [
  | inl here ↦ rw here s
  | inr there ↦ rw there (from-Sorted upper l s.1)
]

pub erase_equal-AllFrom :
    (n : ℕ) (t : Timer) (l : List Timer) → AllFrom n l → AllFrom n (erase_equal t l)
unfolding erase_equal
erase_equal-AllFrom n t [] a = a
erase_equal-AllFrom n t (u ∷ l) a = elim (Bool-cases (ltb t.expiration u.expiration)) [
  | inl later ↦ rw later a
  | inr equal ↦ elim (Bool-cases (u.address == t.address)) [
    | inl found ↦ rw (equal, found) a.1
    | inr other ↦ rw (equal, other) (a.0, erase_equal-AllFrom n t l a.1)
  ]
]

pub erase_equal-Sorted : (t : Timer) (l : List Timer) → Sorted l → Sorted (erase_equal t l)
unfolding erase_equal
erase_equal-Sorted t [] s = s
erase_equal-Sorted t (u ∷ l) s = elim (Bool-cases (ltb t.expiration u.expiration)) [
  | inl later ↦ rw later s
  | inr equal ↦ elim (Bool-cases (u.address == t.address)) [
    | inl found ↦ rw (equal, found) s.1
    | inr other ↦
        rw (equal, other) (erase_equal-AllFrom u.expiration t l s.0, erase_equal-Sorted t l s.1)
  ]
]

pub erase-AllFrom : (n : ℕ) (t : Timer) (l : List Timer) → AllFrom n l → AllFrom n (erase t l)
unfolding erase
erase-AllFrom n t [] a = a
erase-AllFrom n t (u ∷ l) a = elim (Bool-cases (ltb u.expiration t.expiration)) [
  | inl before ↦ rw before (a.0, erase-AllFrom n t l a.1)
  | inr reached ↦ rw reached (erase_equal-AllFrom n t (u ∷ l) a)
]

pub erase-Sorted : (t : Timer) (l : List Timer) → Sorted l → Sorted (erase t l)
unfolding erase
erase-Sorted t [] s = s
erase-Sorted t (u ∷ l) s = elim (Bool-cases (ltb u.expiration t.expiration)) [
  | inl before ↦ rw before (erase-AllFrom u.expiration t l s.0, erase-Sorted t l s.1)
  | inr reached ↦ rw reached (erase_equal-Sorted t (u ∷ l) s)
]

-- The timers before `upper_bound(now)` are exactly those that have expired by now, in a map in order.
pub due_split :
    (now : ℕ) (l : List Timer)
    → Sorted l
    → (expired now l ++ remaining now l ≡ l)
      × AllBy now (expired now l)
      × AllFrom (now + 1) (remaining now l)
due_split now l s = (expired-append-remaining now l, expired-AllBy now l, remaining-AllFrom now l s)
