-- ===== src/LoopThreadPool/Threads/Tests.antt =====
-- A pool of two threads, whose callback sums the loops up.
use bounce.Prelude.{ℕ, ◌+◌, Option, some, sym, some_eq}
use bounce.Logger.{Sink, file, Spdlog}
use bounce.LoopThreadPool.Threads.{Threads, construct}

-- A registry of one logger.
abbrev spdlog : Spdlog (Option Sink)
spdlog = record {
  get = λ name r. r;
  stdout_color_mt = λ name r. some r;
  basic_logger_mt = λ name path r. some (some (file path));
  registers = λ name path r r' e. sym (some_eq e);
}

abbrev address : ℕ → ℕ
address i = 100 + i

abbrev two : Threads ℕ
unfolding construct
two = record (construct 2 0) { thread_cb = some (λ loop s. s + loop) }
