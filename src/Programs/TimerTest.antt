-- ===== src/Programs/TimerTest.antt =====
-- bounce/test/timer_test.cc: a server that sends at the times of timers. A callback gives the timers that
-- it makes, each at a new address, in order; `now` is the clock.
pub mod Ends
pub mod Main
use bounce.Prelude.{
  ℕ, zero, suc, ◌+◌, Bool, true, Option, none, some, List, [], ◌∷◌, ◌++◌, length, get_elem?, take,
  ◌-◌, ltb, if◌then◌else◌, ◌>>=◌,
}
use bounce.TcpConnection.{TcpConnection, Callbacks, Answer, send, is_connected, is_disconnected}
use bounce.TimerQueue.{Timer, run_at, run_after, run_every}

-- "Hello! Timer!" and a line feed, and "Timer Every!".
abbrev pub hello_timer : List ℕ
hello_timer = 72 ∷ 101 ∷ 108 ∷ 108 ∷ 111 ∷ 33 ∷ 32 ∷ 84 ∷ 105 ∷ 109 ∷ 101 ∷ 114 ∷ 33 ∷ 10 ∷ []

abbrev pub timer_every : List ℕ
timer_every = 84 ∷ 105 ∷ 109 ∷ 101 ∷ 114 ∷ 32 ∷ 69 ∷ 118 ∷ 101 ∷ 114 ∷ 121 ∷ 33 ∷ []

-- 150 milliseconds and a second, in nanoseconds.
abbrev pub milli_sec : ℕ
milli_sec = 150000000

abbrev pub micro_sec : ℕ
micro_sec = 1000000000

-- `if (count++ < 100)`: the timer that is made, and the count.
unfoldable pub count_up : ℕ → ℕ → ℕ → List Timer × ℕ
unfolding run_after
count_up address now count =
    (if ltb count 100 then run_after address now milli_sec ∷ [] else [], count + 1)

module _ (cbs : Callbacks) where
  -- In the thread of the connection's loop.
  unfoldable pub time_to_send : Answer → ℕ → ℕ → ℕ → TcpConnection → TcpConnection × List Timer × ℕ
  unfolding send count_up
  time_to_send a address now count conn =
      let (made, count') = count_up address now count in
      (send cbs true hello_timer a conn, made, count')

  -- With the timer that the loop is asked to delete; `none` reads beyond the end of `timers`.
  unfoldable pub time_to_send_every :
      Answer → List Timer → TcpConnection → Option (TcpConnection × Timer)
  unfolding send
  time_to_send_every a timers conn = do
    first ← get_elem? timers 0
    some (send cbs true timer_every a conn, first)

-- `timers.pop_back()`.
unfoldable pub pop_timer : List Timer → List Timer
pop_timer timers = take (length timers - 1) timers

-- What `conn_cb` makes of `timers`, the timers that it makes for one time, and the one that it asks the
-- loop to delete. The new timers are at `address` and behind it.
unfoldable pub conn_cb :
    ℕ → ℕ → List Timer → TcpConnection → Option (List Timer × List Timer × Option Timer)
unfolding run_every run_after run_at pop_timer
conn_cb address now timers conn =
    let timer = run_every address now micro_sec in
    let once =
      run_after (address + 1) now milli_sec
      ∷ run_at (address + 2) (now + milli_sec)
      ∷ run_after (address + 3) now 1000000
      ∷ [] in
    if is_connected conn.state
    then some (timers ++ timer ∷ [], once, none)
    else (if is_disconnected conn.state
        then (get_elem? timers 0 >>= λ first. some (pop_timer timers, [], some first))
        else some (timers, [], none))

-- The timers of a connection run one after another, each at a clock and with an address for the timer
-- that it makes, and are then gone. Gives those that are left, and the count.
unfoldable pub run_once : List (ℕ × ℕ) → List Timer → ℕ → List Timer × ℕ
unfolding count_up
run_once [] pending count = (pending, count)
run_once (at ∷ ats) [] count = ([], count)
run_once (at ∷ ats) (t ∷ pending) count =
    let made = count_up at.1 at.0 count in run_once ats (pending ++ made.0) made.1
