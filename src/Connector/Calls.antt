-- ===== src/Connector/Calls.antt =====
-- The functions of a connector, called in any order on a new one in its loop's thread, and what its
-- channels report.
use mathlib.Core.List.{append_assoc, append-nil}
use bounce.Prelude.{
  ℕ, ◌≡◌, refl, sym, inl, inr, Bool, true, false, ◌==◌, Option, none, some, List, [], ◌∷◌, ◌++◌,
  arith, if◌then◌else◌, subst, Bool-cases,
}
use bounce.Prelude.Int.{ℤ}
use bounce.Channel.{Channel}
use bounce.Connector.{
  Connector, init, set_error_callback, einprogress, connect, connect_in_loop, handle_write,
}
use bounce.Connector.Accounts.{
  Reach, here, sets, attempts, fails, reports, Accounted, Reach-Accounted,
}

-- An attempt comes with whether the server has started, for `connect`, with the descriptor of the new
-- socket, and with what `::connect` answers.
pub data Call : Type 0 where
  connects : Bool → ℤ → Bool → ℕ → Call
  connects_in_loop : ℤ → Bool → ℕ → Call
  sets_error_callback : Bool → Call
  hears : ℤ → ℤ → ℕ → Call

-- In the loop's thread the task of `connect` runs at once. Only a channel that is there reports.
unfoldable pub run_call : Call → Connector → Connector
unfolding connect connect_in_loop set_error_callback handle_write
run_call (connects started fd connected errno) c = elim (connect started fd) [
  | none ↦ c
  | some d ↦ connect_in_loop d connected errno c
]
run_call (connects_in_loop fd connected errno) c = connect_in_loop fd connected errno c
run_call (sets_error_callback tells) c = set_error_callback tells c
run_call (hears fd ret error) c = elim (c.conn_map fd) [
  | none ↦ c
  | some _ ↦ handle_write fd ret error c
]

unfoldable pub run_calls : List Call → Connector → Connector
unfolding run_call
run_calls [] c = c
run_calls (call ∷ calls) c = run_calls calls (run_call call c)

-- The constructor, and then calls.
unfoldable pub life : List Call → Connector
unfolding init run_calls
life calls = run_calls calls init

-- The descriptors of the attempts, and of those that `::connect` refused with another errno.
unfoldable pub opened : List Call → List ℤ
opened [] = []
opened (connects started fd connected errno ∷ calls) =
    (if started then fd ∷ [] else []) ++ opened calls
opened (connects_in_loop fd connected errno ∷ calls) = fd ∷ opened calls
opened (_ ∷ calls) = opened calls

abbrev pub refused : ℤ → Bool → ℕ → List ℤ
refused fd connected errno =
    if connected then [] else (if errno == einprogress then [] else fd ∷ [])

unfoldable pub failed : List Call → List ℤ
failed [] = []
failed (connects started fd connected errno ∷ calls) =
    (if started then refused fd connected errno else []) ++ failed calls
failed (connects_in_loop fd connected errno ∷ calls) = refused fd connected errno ++ failed calls
failed (_ ∷ calls) = failed calls

-- The socket of an attempt is new: no channel waits for its descriptor.
abbrev pub IsNew : Call → Connector → Type 0
IsNew (connects started fd connected errno) c = c.conn_map fd ≡ none
IsNew (connects_in_loop fd connected errno) c = c.conn_map fd ≡ none
IsNew (sets_error_callback tells) c = Unit {0}
IsNew (hears fd ret error) c = Unit {0}

abbrev pub AllNew : List Call → Connector → Type 0
AllNew [] c = Unit {0}
AllNew (call ∷ calls) c = IsNew call c × AllNew calls (run_call call c)

attempt-Reach :
    {c : Connector} {os fs : List ℤ} (fd : ℤ) (connected : Bool) (errno : ℕ)
    → Reach c os fs
    → c.conn_map fd ≡ none
    → Reach
        (connect_in_loop fd connected errno c)
        (os ++ fd ∷ [])
        (fs ++ refused fd connected errno)
attempt-Reach {c} {os} {fs} fd true errno r free =
    subst (λ l. Reach (connect_in_loop fd true errno c) (os ++ fd ∷ []) l) (sym (append-nil fs))
      (attempts fd true errno r free (inl refl))
attempt-Reach {c} {os} {fs} fd false errno r free = elim (Bool-cases (errno == einprogress)) [
  | inl waiting ↦ rw waiting (
      subst (λ l. Reach (connect_in_loop fd false errno c) (os ++ fd ∷ []) l) (sym (append-nil fs))
        (attempts fd false errno r free (inr (ground (arith, waiting)))))
  | inr other ↦ rw other (fails fd errno r other)
]

hears-Reach :
    {c : Connector} {os fs : List ℤ} (fd ret : ℤ) (error : ℕ)
    → Reach c os fs
    → Reach (run_call (hears fd ret error) c) os fs
unfolding run_call
hears-Reach {c} {os} {fs} fd ret error r = go (c.conn_map fd) refl
  where
    go :
        (o : Option Channel)
        → c.conn_map fd ≡ o
        → Reach (elim o [ none ↦ c | some _ ↦ handle_write fd ret error c ]) os fs
    go none e = r
    go (some ch) e = reports fd ret error ch r e

run_calls-Accounted :
    (calls : List Call) {c : Connector} {os fs : List ℤ}
    → Reach c os fs
    → AllNew calls c
    → Accounted (run_calls calls c) (os ++ opened calls) (fs ++ failed calls)
unfolding run_calls run_call opened failed connect
run_calls-Accounted [] {c} {os} {fs} r new =
    subst (λ l. Accounted c l (fs ++ [])) (sym (append-nil os))
      (subst (λ l. Accounted c os l) (sym (append-nil fs)) (Reach-Accounted r))
run_calls-Accounted (connects true fd connected errno ∷ calls) {c} {os} {fs} r new =
    rw
      (
        sym (append_assoc os (fd ∷ []) (opened calls)),
        sym (append_assoc fs (refused fd connected errno) (failed calls)),
      )
      (run_calls-Accounted calls (attempt-Reach fd connected errno r new.0) new.1)
run_calls-Accounted (connects false fd connected errno ∷ calls) r new =
    run_calls-Accounted calls r new.1
run_calls-Accounted (connects_in_loop fd connected errno ∷ calls) {c} {os} {fs} r new =
    rw
      (
        sym (append_assoc os (fd ∷ []) (opened calls)),
        sym (append_assoc fs (refused fd connected errno) (failed calls)),
      )
      (run_calls-Accounted calls (attempt-Reach fd connected errno r new.0) new.1)
run_calls-Accounted (sets_error_callback tells ∷ calls) r new =
    run_calls-Accounted calls (sets tells r) new.1
run_calls-Accounted (hears fd ret error ∷ calls) r new =
    run_calls-Accounted calls (hears-Reach fd ret error r) new.1

-- After any calls on a new connector and any reports of its channels, in any order, where the socket
-- of each attempt is new, each descriptor was handed over, closed, refused or still waits exactly as
-- often as an attempt opened it.
pub life-Accounted :
    (calls : List Call) → AllNew calls init → Accounted (life calls) (opened calls) (failed calls)
unfolding life
life-Accounted calls new = run_calls-Accounted calls here new
