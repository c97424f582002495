-- ===== src/Logger/Once.antt =====
-- The loggers are made once, with the path that is set at the first use.
use bounce.Prelude.{
  ℕ, ◌≡◌, ◌≢◌, ◌⊎◌, inl, inr, refl, sym, ap, ◌∙◌, Bool, true, false, ◌||◌, Option, some, List, [],
  ◌∷◌, ◌++◌, if◌then◌else◌,
}
use bounce.Prelude.Outcomes.{Outcome, returns, ◌>>=◌}
use bounce.Logger.{
  Sink, file, Spdlog, Logger, log_file, log_path, bounce_console, bounce_file_log,
  set_bounce_log_path, log_sys_init, init_once, get,
}

-- A use of a logger, or a change of the path.
pub data Call : Type 0 where
  gets : List ℕ → Call
  sets : List ℕ → Call

-- The directory for the log: the one that was set, or "./logs" if none was.
abbrev pub IsLogDir : List ℕ → List ℕ → Type 0
IsLogDir set dir =
    ((set ≢ []) × (dir ≡ set)) ⊎ ((set ≡ []) × (dir ≡ 46 ∷ 47 ∷ 108 ∷ 111 ∷ 103 ∷ 115 ∷ []))

log_path-is : (set dir : List ℕ) → IsLogDir set dir → log_path set ≡ dir
unfolding log_path
log_path-is [] dir (inl (some_dir, e)) = absurd (some_dir refl)
log_path-is [] dir (inr (none_set, e)) = sym e
log_path-is (c ∷ set) dir (inl (some_dir, e)) = sym e
log_path-is (c ∷ set) dir (inr (none_set, e)) = cc

module _ {R : Type 0} (spdlog : Spdlog R) (opendir mkdir : List ℕ → Bool) where
  unfoldable pub run : List Call → Logger R → Outcome (Logger R)
  unfolding get set_bounce_log_path
  run [] s = returns s
  run (gets name ∷ calls) s = get spdlog opendir mkdir name s >>= λ r. run calls r.1
  run (sets path ∷ calls) s = run calls (set_bounce_log_path path s)

  -- spdlog can make both loggers: the directory can be opened or made, and neither name is taken.
  pub record CanInit (dir : List ℕ) (s : Logger R) (r r' : R) : Type 0 where
    pub console : spdlog.stdout_color_mt bounce_console s.registry ≡ some r
    pub directory : (opendir dir || mkdir dir) ≡ true
    pub log : spdlog.basic_logger_mt bounce_file_log (dir ++ log_file) r ≡ some r'

  by_once :
      (b : Bool) (s : Logger R)
      → s.once ≡ b
      → init_once spdlog opendir mkdir s
        ≡ (if b then returns s else log_sys_init spdlog opendir mkdir (record s { once = true }))
  unfolding init_once
  by_once b s e =
      ap
        (λ c. if c then returns s else log_sys_init spdlog opendir mkdir (record s { once = true }))
        e

  log_sys_init-made :
      (dir : List ℕ) (s : Logger R) (r r' : R)
      → IsLogDir s.g_bounce_log_path dir
      → CanInit dir s r r'
      → log_sys_init spdlog opendir mkdir s ≡ returns (record s { registry = r' })
  unfolding log_sys_init
  log_sys_init-made dir s r r' is can =
      rw (can.console, log_path-is s.g_bounce_log_path dir is, can.directory, can.log, log_sys_init)
        refl

  -- Once the loggers are made, no call changes the registry.
  run-once :
      (calls : List Call) (s : Logger R)
      → s.once ≡ true
      → (s' : Logger R) × (run calls s ≡ returns s') × (s'.registry ≡ s.registry)
  unfolding run get init_once set_bounce_log_path
  run-once [] s made = (s, refl, refl)
  run-once (gets name ∷ calls) s made =
      let rest = run-once calls s made in
      (
        rest.0,
        ap
              (λ o.
                (o >>= λ t. returns (spdlog.get name t.registry, t))
                >>= λ (x : Option Sink × Logger R). run calls x.1)
              (by_once true s made)
            ∙ rest.1,
        rest.2,
      )
  run-once (sets path ∷ calls) s made = run-once calls (record s { g_bounce_log_path = path }) made

  init_once-made :
      (dir : List ℕ) (s : Logger R) (r r' : R)
      → s.once ≡ false
      → IsLogDir s.g_bounce_log_path dir
      → CanInit dir s r r'
      → init_once spdlog opendir mkdir s ≡ returns (record s { once = true; registry = r' })
  init_once-made dir s r r' fresh is can =
      by_once false s fresh
      ∙ log_sys_init-made dir (record s { once = true }) r r' is
          (record { console = can.console; directory = can.directory; log = can.log })

  -- If spdlog can make the loggers, then a first use of any logger and any calls after it, also those
  -- that set another path, return, and the file of the library's logger is in the directory that was
  -- set before the first use, or in "./logs" if none was.
  pub run-file :
      (name : List ℕ) (calls : List Call) (dir : List ℕ) (s : Logger R) (r r' : R)
      → s.once ≡ false
      → IsLogDir s.g_bounce_log_path dir
      → CanInit dir s r r'
      → (s' : Logger R) × (run (gets name ∷ calls) s ≡ returns s')
        × (spdlog.get bounce_file_log s'.registry ≡ some (file (dir ++ log_file)))
  unfolding run get
  run-file name calls dir s r r' fresh is can =
      let rest = run-once calls (record s { once = true; registry = r' }) refl in
      (
        rest.0,
        rw (init_once-made dir s r r' fresh is can) rest.1,
        ap (spdlog.get bounce_file_log) rest.2 ∙ spdlog.registers bounce_file_log _ r r' can.log,
      )
