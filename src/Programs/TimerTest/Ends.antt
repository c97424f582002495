-- ===== src/Programs/TimerTest/Ends.antt =====
-- The timers of a connection come to an end.
use bounce.Prelude.{
  ℕ, ◌+◌, ◌-◌, ◌≤◌, ◌<◌, ◌≡◌, refl, ap, ◌∙◌, ◌⊎◌, inl, inr, none, some, List, [], ◌∷◌, ◌++◌, length,
  length-append, arith, ltb, Bool-cases,
}
use bounce.TcpConnection.{TcpConnection, connected}
use bounce.TimerQueue.{Timer, run_at, run_after, run_every}
use bounce.Programs.TimerTest.{micro_sec, milli_sec, count_up, conn_cb, run_once}

-- As long as the count is below 100, a timer that runs makes another.
count_up-length :
    (address now count : ℕ)
    → length (count_up address now count).0 + (100 - (count + 1)) ≡ 100 - count
unfolding count_up
count_up-length address now count = ground arith

count_up-waits :
    (address now count : ℕ) → (0 < length (count_up address now count).0) ⊎ (100 ≤ count + 1)
unfolding count_up
count_up-waits address now count = elim (Bool-cases (ltb count 100)) [
  | inl below ↦ inl (ground arith)
  | inr up ↦ inr (ground arith)
]

-- Where a timer waits, or the count is up, the runs that are left are those of the timers and those up
-- to the count of 100.
run_once-left :
    (ats : List (ℕ × ℕ)) (pending : List Timer) (count : ℕ)
    → (0 < length pending) ⊎ (100 ≤ count)
    → length pending + (100 - count) ≤ length ats
    → run_once ats pending count ≡ ([], count + (length pending + (100 - count)))
unfolding run_once
run_once-left [] [] count waits enough = ap (λ n. ([], n)) (ground arith)
run_once-left [] (t ∷ pending) count waits enough = absurd (omega arith)
run_once-left (at ∷ ats) [] count waits enough = ap (λ n. ([], n)) (ground arith)
run_once-left (at ∷ ats) (t ∷ pending) count waits enough =
    let made = (count_up at.1 at.0 count).0 in
    let longer = length-append pending made in
    let size = count_up-length at.1 at.0 count in
    run_once-left ats (pending ++ made) (count + 1)
      (elim (count_up-waits at.1 at.0 count) [
        | inl one ↦ inl (omega (arith, longer, one))
        | inr up ↦ inr up
      ])
      (omega (arith, longer, size, enough))
    ∙ ap (λ n. ([], n)) (omega (arith, longer, size))

-- After a connection is made, the three timers for one time and those that their callbacks make run 103
-- times in all, and none is left then, whatever the times.
pub run_once-conn_cb :
    (address now : ℕ) (timers : List Timer) (conn : TcpConnection) (ats : List (ℕ × ℕ))
    → conn.state ≡ connected
    → 103 ≤ length ats
    → (timers' once : List Timer) × (conn_cb address now timers conn ≡ some (timers', once, none))
      × (run_once ats once 0 ≡ ([], 103))
unfolding conn_cb
run_once-conn_cb address now timers conn ats is enough =
    let once =
      run_after (address + 1) now milli_sec
      ∷ run_at (address + 2) (now + milli_sec)
      ∷ run_after (address + 3) now 1000000
      ∷ [] in
    (
      timers ++ run_every address now micro_sec ∷ [],
      once,
      rw (is, conn_cb) refl,
      run_once-left ats once 0 (inl (omega arith)) enough,
    )
