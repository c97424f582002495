-- ===== src/TimerQueue/Calls/Lives.antt =====
-- A queue over any calls.
use mathlib.Core.List.{append_assoc, append-nil}
use bounce.Prelude.{
  ℕ, suc, ◌≡◌, refl, sym, ap, ◌∙◌, some, List, [], ◌∷◌, ◌++◌, arith, length, subst,
}
use bounce.TimerQueue.{Timer, TimerQueue, timer_update, expired, remaining, update_all, handle_read}
use bounce.TimerQueue.Run.{handle_read_lem}
use bounce.EventLoop.Timers.{make_timer}
use bounce.TimerQueue.Calls.{
  Call, adds_timer_in_loop, deletes_timer_in_loop, handles_read, run_call, run_calls, life,
}
use bounce.TimerQueue.Calls.Weights.{
  total, at, single, at-timer_update, single-timer_update, total-append, total-split,
  total-update_all, length-expired, once-Distinct,
}
use bounce.TimerQueue.Calls.Silent.{silent, handle_read-once}
use bounce.TimerQueue.Calls.Accounts.{
  added, IsAccounted, init-IsAccounted, add-IsAccounted, delete-IsAccounted,
}

module _ {all : List Timer} {n : ℕ} {q : TimerQueue} (i : IsAccounted all n q) where
  pub read-IsAccounted :
      (now clock : ℕ)
      → (q' : TimerQueue) × (handle_read silent (suc (length q.timer_map_repeat)) now clock q
          ≡ some q')
        × IsAccounted all n q'
  read-IsAccounted now clock =
      let due = expired now q.timer_map_repeat in
      let (q', read, h) =
        handle_read_lem silent (λ ran. tt) (suc (length q.timer_map_repeat)) now clock q i.valid
          (once-Distinct q.timer_map_repeat i.apart)
          (omega (arith, length-expired now q.timer_map_repeat)) in
      let once = handle_read-once (suc (length q.timer_map_repeat)) now clock q q' read in
      (
        q',
        read,
        record {
          valid = h.valid;
          apart = λ k. omega (arith, again (at k) (at-timer_update k) h.again, i.apart k);
          fresh = λ k l. omega (arith, again (at k) (at-timer_update k) h.again, i.fresh k l);
          repeats =
              λ k. omega (arith, again (single k) (single-timer_update k) h.again, i.repeats k);
          account = λ k. omega (
            arith,
            ap (total (single k)) once,
            ap (total (single k)) h.ran,
            total-append (single k) q.ran (expired now q.timer_map_once ++ due),
            total-append (single k) (expired now q.timer_map_once) due,
            total-split (single k) now q.timer_map_once,
            total-split (single k) now q.timer_map_repeat,
            i.repeats k,
            i.account k,
          );
        },
      )
    where
      again :
          (w : Timer → ℕ)
          → ((t : Timer) → w (timer_update t) ≡ w t)
          → {m : List Timer}
          → m ≡ update_all (expired now q.timer_map_repeat) (remaining now q.timer_map_repeat)
          → total w m ≡ total w q.timer_map_repeat
      again w same e =
          ap (total w) e
          ∙ total-update_all w same (expired now q.timer_map_repeat)
              (remaining now q.timer_map_repeat)
          ∙ total-split w now q.timer_map_repeat

run_calls-IsAccounted :
    (calls : List Call) {all : List Timer} {n : ℕ} {q : TimerQueue}
    → IsAccounted all n q
    → (s : ℕ × TimerQueue) × (run_calls silent calls (n, q) ≡ some s)
      × IsAccounted (all ++ added n calls) s.0 s.1
unfolding run_calls run_call added
run_calls-IsAccounted [] {all} {n} {q} i =
    ((n, q), refl, subst (λ l. IsAccounted l n q) (sym (append-nil all)) i)
run_calls-IsAccounted (adds_timer_in_loop now expiration duration ∷ calls) {all} {n} i =
    let (s, runs, i') = run_calls-IsAccounted calls (add-IsAccounted i now expiration duration) in
    (
      s,
      runs,
      subst (λ l. IsAccounted l s.0 s.1)
          (append_assoc all (make_timer n expiration duration ∷ []) (added (suc n) calls)) i',
    )
run_calls-IsAccounted (deletes_timer_in_loop t ∷ calls) {all} {n} {q} i =
    run_calls-IsAccounted calls (delete-IsAccounted i t)
run_calls-IsAccounted (handles_read now clock ∷ calls) {all} {n} {q} i =
    let (q', read, i₁) = read-IsAccounted i now clock in
    let (s, runs, i') = run_calls-IsAccounted calls i₁ in (s, rw (run_call, read) runs, i')

-- Whatever timers are added to a new queue, deleted and run, in whatever order and at whatever times,
-- where the callbacks add none: every call comes back, both maps stay in order, none of the timers
-- expires before `min_expiration`, and the repeat timers in the map are different objects. Each timer
-- for one time waits in its map or has run, exactly once; deleting any timer changes neither.
pub life-IsAccounted :
    (calls : List Call)
    → (s : ℕ × TimerQueue) × (life silent calls ≡ some s) × IsAccounted (added 0 calls) s.0 s.1
unfolding life
life-IsAccounted calls = run_calls-IsAccounted calls init-IsAccounted
