-- ===== src/EventLoopThread/Life.antt =====
-- The life of a thread object: it can be run once, and cannot end.
use bounce.Prelude.{ℕ, zero, suc, ◌≡◌, refl, Option, none, some}
use bounce.Prelude.Outcomes.{returns, exits, crashes, terminates}
use bounce.Logger.{Sink, Spdlog, bounce_file_log}
use bounce.EventLoopThread.{EventLoopThread, init, drop_thread, destroy, run, run_times, life}

module _ {ℓ} {F : Type ℓ} {R : Type 0} (spdlog : Spdlog R) (r : R) where
  -- A new object that has a function starts a thread with it at the first `run`. After that, a second
  -- `run` and the destructor both end the program, by `std::terminate`, since the thread is joinable.
  pub run-terminates :
      (f : F)
      → (t : EventLoopThread F) × (run spdlog r (init (some f)) ≡ returns t)
        × (t.thread ≡ some f)
        × (run spdlog r t ≡ terminates)
        × (destroy t ≡ terminates)
  unfolding run init destroy drop_thread
  run-terminates f = (record { loop_func = some f; thread = some f }, refl, refl, refl, refl)

  -- If the loggers have not been made, `run` of an object with an empty function uses a null pointer
  -- instead of reporting that and exiting.
  pub run-crashes :
      spdlog.get bounce_file_log r ≡ none
      → (t : EventLoopThread F) → t.loop_func ≡ none
      → run spdlog r t ≡ crashes
  unfolding run
  run-crashes unmade t empty = rw (empty, unmade, run) refl

  -- What becomes of an object that is run a number of times and then destroyed. Never run, it goes. With
  -- a function it always ends the program by std::terminate, at the second run or in the destructor.
  -- With an empty one the first run exits with 1, or crashes if the loggers have not been made.
  pub life_lem :
      (n : ℕ)
      → ((func : Option F) → life {F = F} spdlog r func 0 ≡ returns tt)
        × ((f : F) → life spdlog r (some f) (suc n) ≡ terminates)
        × ((s : Sink)
            → spdlog.get bounce_file_log r ≡ some s
            → life {F = F} spdlog r none (suc n) ≡ exits 1)
        × (spdlog.get bounce_file_log r ≡ none → life {F = F} spdlog r none (suc n) ≡ crashes)
  unfolding life run run_times init destroy drop_thread
  life_lem zero =
      (λ func. refl, λ f. refl, λ s made. rw (made, run) refl, λ unmade. rw (unmade, run) refl)
  life_lem (suc n) =
      (λ func. refl, λ f. refl, λ s made. rw (made, run) refl, λ unmade. rw (unmade, run) refl)
