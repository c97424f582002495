-- ===== src/EventLoopThread.antt =====
-- bounce/event_loop_thread.h and bounce/event_loop_thread.cc: a thread that runs the function of a
-- loop. `F` is the type of such functions. Nothing joins or detaches a thread, so that it stays
-- joinable, also after its function has returned.
pub mod Life
mod Tests
use bounce.Prelude.{ℕ, zero, suc, Option, none, some, List, [], ◌∷◌, ◌++◌}
use bounce.Prelude.Outcomes.{Outcome, returns, exits, crashes, terminates, ◌>>=◌}
use bounce.Logger.{Spdlog, bounce_file_log}

-- `thread` is the function that the thread runs, if one was started; `none` is an empty
-- `std::function` and a null `thread_`.
pub record EventLoopThread {ℓ} (F : Type ℓ) : Type ℓ where
  pub loop_func : Option F
  pub thread : Option F

module _ {ℓ} {F : Type ℓ} where
  unfoldable pub init : Option F → EventLoopThread F
  init func = record { loop_func = func; thread = none }

  -- The destructor of a `std::unique_ptr` of a thread that is joinable.
  unfoldable pub drop_thread {κ} : {A : Type κ} → Option F → A → Outcome A
  drop_thread none a = returns a
  drop_thread (some _) a = terminates

  -- The destructor, which is the default one.
  unfoldable pub destroy : EventLoopThread F → Outcome (Unit {ℓ})
  unfolding drop_thread
  destroy t = drop_thread t.thread tt

  -- `run`, over the registry of spdlog: the new thread is started, and then takes the place of the
  -- one that was there.
  unfoldable pub run : {R : Type 0} → Spdlog R → R → EventLoopThread F → Outcome (EventLoopThread F)
  unfolding drop_thread
  run spdlog r t = elim t.loop_func [
    | none ↦ elim (spdlog.get bounce_file_log r) [ none ↦ crashes | some _ ↦ exits 1 ]
    | some f ↦ drop_thread t.thread (record t { thread = some f })
  ]

  -- `run` a number of times.
  unfoldable pub run_times :
      {R : Type 0} → Spdlog R → R → ℕ → EventLoopThread F → Outcome (EventLoopThread F)
  unfolding run
  run_times spdlog r zero t = returns t
  run_times spdlog r (suc n) t = run spdlog r t >>= run_times spdlog r n

  -- The constructor, calls of `run`, and the destructor.
  unfoldable pub life : {R : Type 0} → Spdlog R → R → Option F → ℕ → Outcome (Unit {ℓ})
  unfolding init run_times destroy
  life spdlog r func n = run_times spdlog r n (init func) >>= destroy
