-- ===== src/TimerQueue/Calls/Due.antt =====
-- The timers that are due run in the next pass.
use bounce.Prelude.{
  ℕ, suc, ◌+◌, ◌≡◌, refl, sym, ap, ◌∙◌, Option, some, List, [], ◌∷◌, ◌++◌, arith, ltb,
  if◌then◌else◌, length, subst, ◌>>=◌, none, some_eq, bind-some,
}
use bounce.TimerQueue.{Timer, TimerQueue, init}
use bounce.TimerQueue.Sorted.{AllFrom, remaining-AllFrom}
use bounce.TimerQueue.Calls.{Call, handles_read, run_call, run_calls, life}
use bounce.TimerQueue.Calls.Weights.{total, at, single}
use bounce.TimerQueue.Calls.Silent.{silent, handle_read-once}
use bounce.TimerQueue.Calls.Accounts.{added}
use bounce.TimerQueue.Calls.Lives.{read-IsAccounted, life-IsAccounted}

-- Counts the timers at an address that have expired by a time.
unfoldable pub due_at : ℕ → ℕ → Timer → ℕ
unfolding at
due_at k now t = if ltb now t.expiration then 0 else at k t

pub none_due :
    (k now : ℕ) (l : List Timer) → AllFrom (now + 1) l → total (single (due_at k now)) l ≡ 0
unfolding total single due_at
none_due k now [] a = refl
none_due k now (t ∷ l) a = ground (arith, none_due k now l a.1)

bind_pure {ℓ} : {A : Type ℓ} (o : Option A) → (o >>= λ a. some a) ≡ o
bind_pure none = refl
bind_pure (some a) = refl

run_calls-last :
    (calls : List Call) (call : Call) (x y : ℕ × TimerQueue)
    → run_calls silent calls x ≡ some y
    → run_calls silent (calls ++ call ∷ []) x ≡ run_call silent call y
unfolding run_calls
run_calls-last [] call x y e =
    bind_pure (run_call silent call x) ∙ ap (run_call silent call) (some_eq e)
run_calls-last (c ∷ calls) call x y e =
    let (z, first, rest) = bind-some (run_call silent c x) (run_calls silent calls) y e in
    rw first (run_calls-last calls call z y rest)

-- Whatever was called on a new queue before, and where callbacks add no timers: after a pass of
-- handleRead at whatever time, no timer for one time waits that has expired by then, and each that has
-- expired has run exactly as often as it was added.
pub life-due :
    (calls : List Call) (now clock : ℕ)
    → (s : ℕ × TimerQueue) × (life silent (calls ++ handles_read now clock ∷ []) ≡ some s)
      × AllFrom (now + 1) s.1.timer_map_once
      × ((k : ℕ)
          → total (single (due_at k now)) s.1.ran ≡ total (single (due_at k now)) (added 0 calls))
unfolding life run_call
life-due calls now clock =
    let (s, runs, i) = life-IsAccounted calls in
    let (q', read, i') = read-IsAccounted i now clock in
    let fuel = suc (length s.1.timer_map_repeat) in
    let waits : AllFrom (now + 1) q'.timer_map_once =
      subst (AllFrom (now + 1)) (sym (handle_read-once fuel now clock s.1 q' read))
        (remaining-AllFrom now s.1.timer_map_once i.valid.once) in
    (
      (s.0, q'),
      run_calls-last calls (handles_read now clock) (0, init) s runs
          ∙ ap (λ (o : Option TimerQueue). o >>= λ q. some (s.0, q)) read,
      waits,
      λ k. omega (arith, i'.account (due_at k now), none_due k now q'.timer_map_once waits),
    )
