-- ===== src/Logger.antt =====
-- bounce/logger.h and bounce/logger.cc: the loggers of the library, which are made once, at the first
-- use of one. spdlog and the calls of the system for directories are parameters. A text is the list
-- of its bytes.
pub mod Once
mod Tests
use bounce.Prelude.{
  ℕ, Bool, true, false, ◌||◌, Option, none, some, List, [], ◌∷◌, ◌++◌, ◌≡◌, ◌≢◌, if◌then◌else◌,
}
use bounce.Prelude.Outcomes.{Outcome, returns, exits, ◌>>=◌}

-- Where a logger of spdlog writes: to the terminal or to a file.
pub data Sink : Type 0 where
  console : Sink
  file : List ℕ → Sink

-- What the library uses of spdlog, over the registry `R` of its loggers. `stdout_color_mt` and
-- `basic_logger_mt` register a new logger under a name, or throw a `spdlog_ex`, which is `none`.
pub record Spdlog (R : Type 0) : Type 0 where
  pub get : List ℕ → R → Option Sink
  pub stdout_color_mt : List ℕ → R → Option R
  pub basic_logger_mt : List ℕ → List ℕ → R → Option R
  pub registers :
      (name path : List ℕ) (r r' : R)
      → basic_logger_mt name path r ≡ some r'
      → get name r' ≡ some (file path)

-- "./logs" and "/bounce_log.txt".
abbrev pub default_dir : List ℕ
default_dir = 46 ∷ 47 ∷ 108 ∷ 111 ∷ 103 ∷ 115 ∷ []

abbrev pub log_file : List ℕ
log_file = 47 ∷ 98 ∷ 111 ∷ 117 ∷ 110 ∷ 99 ∷ 101 ∷ 95 ∷ 108 ∷ 111 ∷ 103 ∷ 46 ∷ 116 ∷ 120 ∷ 116 ∷ []

-- "bounce_console" and "bounce_file_log".
abbrev pub bounce_console : List ℕ
bounce_console = 98 ∷ 111 ∷ 117 ∷ 110 ∷ 99 ∷ 101 ∷ 95 ∷ 99 ∷ 111 ∷ 110 ∷ 115 ∷ 111 ∷ 108 ∷ 101 ∷ []

abbrev pub bounce_file_log : List ℕ
bounce_file_log =
    98 ∷ 111 ∷ 117 ∷ 110 ∷ 99 ∷ 101 ∷ 95 ∷ 102 ∷ 105 ∷ 108 ∷ 101 ∷ 95 ∷ 108 ∷ 111 ∷ 103 ∷ []

-- `once_`, `g_bounce_log_path` and the registry.
pub record Logger (R : Type 0) : Type 0 where
  pub once : Bool
  pub g_bounce_log_path : List ℕ
  pub registry : R

unfoldable pub log_path : List ℕ → List ℕ
log_path [] = default_dir
log_path (c ∷ path) = c ∷ path

module _ {R : Type 0} where
  abbrev pub init : R → Logger R
  init r = record { once = false; g_bounce_log_path = []; registry = r }

  unfoldable pub set_bounce_log_path : List ℕ → Logger R → Logger R
  set_bounce_log_path path s = record s { g_bounce_log_path = path }

-- `opendir` tells which directories can be opened, `mkdir` which can be made.
module _ {R : Type 0} (spdlog : Spdlog R) (opendir mkdir : List ℕ → Bool) where
  unfoldable pub log_sys_init : Logger R → Outcome (Logger R)
  unfolding log_path
  log_sys_init s = elim (spdlog.stdout_color_mt bounce_console s.registry) [
    | none ↦ exits 1
    | some r ↦
        let path = log_path s.g_bounce_log_path in
        if opendir path || mkdir path
        then elim (spdlog.basic_logger_mt bounce_file_log (path ++ log_file) r) [
          | none ↦ exits 1
          | some r' ↦ returns (record s { registry = r' })
        ]
        else exits 1
  ]

  -- `pthread_once(&once_, logSysInit)`.
  unfoldable pub init_once : Logger R → Outcome (Logger R)
  unfolding log_sys_init
  init_once s = if s.once then returns s else log_sys_init (record s { once = true })

  unfoldable pub get : List ℕ → Logger R → Outcome (Option Sink × Logger R)
  unfolding init_once
  get name s = do s' ← init_once s; returns (spdlog.get name s'.registry, s')
