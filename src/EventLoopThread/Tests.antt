-- ===== src/EventLoopThread/Tests.antt =====
-- The theorems at concrete thread objects.
use bounce.Prelude.{ℕ, ◌≡◌, refl, sym, Option, none, some, some_eq}
use bounce.Prelude.Outcomes.{returns, exits, crashes, terminates}
use bounce.Logger.{Sink, console, file, Spdlog, bounce_file_log}
use bounce.EventLoopThread.{EventLoopThread, init, run, life}
use bounce.EventLoopThread.Life.{life_lem}

-- A registry of one logger.
abbrev spdlog : Spdlog (Option Sink)
spdlog = record {
  get = λ name r. r;
  stdout_color_mt = λ name r. some (some console);
  basic_logger_mt = λ name path r. some (some (file path));
  registers = λ name path r r' e. sym (some_eq e);
}

abbrev empty : EventLoopThread ℕ
unfolding init
empty = init none

-- With the loggers made, an empty function is reported, and the program exits.
reports : run spdlog (some console) empty ≡ exits 1
unfolding run empty init
reports = refl

life_lem_example :
    ((func : Option ℕ) → life spdlog none func 0 ≡ returns tt)
    × ((f : ℕ) → life spdlog none (some f) 2 ≡ terminates)
    × ((s : Sink)
        → spdlog.get bounce_file_log none ≡ some s
        → life {F = ℕ} spdlog none none 2 ≡ exits 1)
    × (spdlog.get bounce_file_log none ≡ none → life {F = ℕ} spdlog none none 2 ≡ crashes)
life_lem_example = life_lem {F = ℕ} spdlog none 1
