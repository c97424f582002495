-- ===== src/Logger/Tests.antt =====
-- Runs of the loggers, with a registry that is a list and throws where a name is taken.
use bounce.Prelude.{
  inl, ℕ, ◌≡◌, refl, ap, ◌∙◌, sym, Bool, true, false, Option, none, some, List, [], ◌∷◌, ◌++◌, ◌==◌,
  ==_refl, if◌then◌else◌, some_eq,
}
use bounce.Prelude.Outcomes.{returns, exits}
use bounce.Logger.{
  Sink, console, file, Spdlog, Logger, init, default_dir, log_file, bounce_console, bounce_file_log,
  log_path, log_sys_init, init_once, get,
}
use bounce.Logger.Once.{gets, sets, run, CanInit, run-file}

abbrev Registry : Type 0
Registry = List (List ℕ × Sink)

abbrev same : List ℕ → List ℕ → Bool
same [] [] = true
same [] (b ∷ m) = false
same (a ∷ l) [] = false
same (a ∷ l) (b ∷ m) = let rest = same l m in if a == b then rest else false

same_refl : (l : List ℕ) → same l l ≡ true
same_refl [] = refl
same_refl (a ∷ l) = rw (==_refl a) (same_refl l)

abbrev find : List ℕ → Registry → Option Sink
find name [] = none
find name ((n, s) ∷ r) = let rest = find name r in if same n name then some s else rest

abbrev register : List ℕ → Sink → Registry → Option Registry
register name s r = elim (find name r) [ none ↦ some ((name, s) ∷ r) | some _ ↦ none ]

find-register :
    (name : List ℕ) (s : Sink) (r r' : Registry)
    → register name s r ≡ some r'
    → find name r' ≡ some s
find-register name s r r' e = by_find (find name r) e
  where
    by_find :
        (o : Option Sink)
        → elim o [ none ↦ some ((name, s) ∷ r) | some _ ↦ none ] ≡ some r'
        → find name r' ≡ some s
    by_find none h =
        ap (find name) (sym (some_eq h))
        ∙ ap (λ b. if b then some s else find name r) (same_refl name)
    by_find (some _) h = cc

abbrev spdlog : Spdlog Registry
spdlog = record {
  get = find;
  stdout_color_mt = λ name r. register name console r;
  basic_logger_mt = λ name path r. register name (file path) r;
  registers = λ name path r r' e. find-register name (file path) r r' e;
}

-- "/var", which can be opened; nothing can be made.
abbrev var : List ℕ
var = 47 ∷ 118 ∷ 97 ∷ 114 ∷ []

abbrev opens : List ℕ → Bool
opens path = same path var

abbrev makes : List ℕ → Bool
makes path = false

abbrev start : Logger Registry
start = record { once = false; g_bounce_log_path = var; registry = [] }

start-CanInit :
    CanInit spdlog opens makes var start
      ((bounce_console, console) ∷ [])
      ((bounce_file_log, file (var ++ log_file)) ∷ (bounce_console, console) ∷ [])
start-CanInit = record { console = refl; directory = refl; log = refl }

-- The default directory cannot be opened or made here.
exits_without_dir : get spdlog opens makes bounce_file_log (init []) ≡ exits 1
unfolding get init_once log_sys_init log_path
exits_without_dir = refl

run-file_example :
    (s' : Logger Registry) × (run spdlog opens makes
        (gets bounce_console ∷ sets default_dir ∷ gets bounce_file_log ∷ [])
        start
      ≡ returns s')
    × (find bounce_file_log s'.registry ≡ some (file (var ++ log_file)))
run-file_example =
    run-file spdlog opens makes bounce_console (sets default_dir ∷ gets bounce_file_log ∷ []) var
      start ((bounce_console, console) ∷ [])
      ((bounce_file_log, file (var ++ log_file)) ∷ (bounce_console, console) ∷ []) refl
      (inl ((λ e. cc), refl)) start-CanInit
