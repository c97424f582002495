-- ===== src/TimerQueue/Calls/Accounts.antt =====
-- No timer of a queue is lost, and none runs twice for one time.
use bounce.Prelude.{
  ℕ, suc, ◌+◌, ◌≤◌, ◌≡◌, refl, ap, inl, inr, true, false, List, [], ◌∷◌, ◌++◌, arith, ◌==◌,
  Bool-cases,
}
use bounce.TimerQueue.{Timer, TimerQueue, init, add_timer_in_loop, repeat, delete_timer_in_loop}
use bounce.TimerQueue.Inv.{IsValid, add_timer_in_loop-IsValid, delete_timer_in_loop-IsValid}
use bounce.EventLoop.Timers.{make_timer}
use bounce.TimerQueue.Calls.{Call, adds_timer_in_loop, deletes_timer_in_loop, handles_read}
use bounce.TimerQueue.Calls.Weights.{total, at, single, total-append, total-erase}
use bounce.TimerQueue.Calls.Silent.{add-once, add-repeat}

-- The timers that calls add, in order, from the address `n` on.
unfoldable pub added : ℕ → List Call → List Timer
unfolding make_timer
added n [] = []
added n (adds_timer_in_loop now expiration duration ∷ calls) =
    make_timer n expiration duration ∷ added (suc n) calls
added n (deletes_timer_in_loop t ∷ calls) = added n calls
added n (handles_read now clock ∷ calls) = added n calls

-- A queue whose next timer has the address `n`, and to which the timers `all` were added. Whatever is
-- counted of the timers for one time, those that wait and those that have run add up to `all`.
pub record IsAccounted (all : List Timer) (n : ℕ) (q : TimerQueue) : Type 0 where
  pub valid : IsValid q
  pub apart : (k : ℕ) → total (at k) q.timer_map_repeat ≤ 1
  pub fresh : (k : ℕ) → n ≤ k → total (at k) q.timer_map_repeat ≡ 0
  pub repeats : (w : Timer → ℕ) → total (single w) q.timer_map_repeat ≡ 0
  pub account :
      (w : Timer → ℕ)
      → total (single w) q.timer_map_once + total (single w) q.ran ≡ total (single w) all

pub init-IsAccounted : IsAccounted [] 0 init
unfolding total
init-IsAccounted = record {
  valid = record { once = tt; again = tt; once_from = tt; again_from = tt };
  apart = λ k. omega arith;
  fresh = λ k h. refl;
  repeats = λ k. refl;
  account = λ k. refl;
}

at-other :
    (k n expiration duration : ℕ) → (n == k) ≡ false → at k (make_timer n expiration duration) ≡ 0
unfolding at make_timer
at-other k n expiration duration h = ground arith

at-le : (k : ℕ) (t : Timer) → at k t ≤ 1
unfolding at
at-le k t = ground arith

single-repeat : (w : Timer → ℕ) (t : Timer) → repeat t ≡ true → single w t ≡ 0
unfolding single repeat
single-repeat w t h = ground arith

module _ {all : List Timer} {n : ℕ} {q : TimerQueue} (i : IsAccounted all n q) where
  -- A new timer is not there yet.
  new_apart :
      (k expiration duration : ℕ)
      → at k (make_timer n expiration duration) + total (at k) q.timer_map_repeat ≤ 1
  new_apart k expiration duration = elim (Bool-cases (n == k)) [
    | inl same ↦
        omega (arith, at-le k (make_timer n expiration duration), i.fresh k (ground (arith, same)))
    | inr other ↦ omega (arith, at-other k n expiration duration other, i.apart k)
  ]

  add-account :
      (w : Timer → ℕ) (t : Timer)
      → total (single w) (all ++ t ∷ []) ≡ single w t + total (single w) all
  unfolding total
  add-account w t = omega (arith, total-append (single w) all (t ∷ []))

  later : (k : ℕ) → suc n ≤ k → (n == k) ≡ false
  later k h = ground arith

  pub add-IsAccounted :
      (now expiration duration : ℕ)
      → let t = make_timer n expiration duration in
        IsAccounted (all ++ t ∷ []) (suc n) (add_timer_in_loop now t q)
  add-IsAccounted now expiration duration =
      let t = make_timer n expiration duration in
      elim (Bool-cases (repeat t)) [
        | inl again ↦
            let does = λ (w : Timer → ℕ). add-repeat w now t q again in
            record {
              valid = add_timer_in_loop-IsValid t i.valid now;
              apart = λ k. omega (arith, (does (at k)).0, new_apart k expiration duration);
              fresh = λ k h. omega (
                arith,
                (does (at k)).0,
                at-other k n expiration duration (later k h),
                i.fresh k (omega arith),
              );
              repeats =
                  λ k. omega (arith, (does (single k)).0, single-repeat k t again, i.repeats k);
              account = λ k. omega (
                arith,
                add-account k t,
                ap (total (single k)) (does (single k)).1,
                ap (total (single k)) (does (single k)).2,
                single-repeat k t again,
                i.account k,
              );
            }
        | inr once ↦
            let does = λ (w : Timer → ℕ). add-once w now t q once in
            record {
              valid = add_timer_in_loop-IsValid t i.valid now;
              apart = λ k. omega (arith, ap (total (at k)) (does (at k)).1, i.apart k);
              fresh =
                  λ k h. omega (arith, ap (total (at k)) (does (at k)).1, i.fresh k (omega arith));
              repeats = λ k. omega (arith, ap (total (single k)) (does (single k)).1, i.repeats k);
              account = λ k. omega (
                arith,
                add-account k t,
                (does (single k)).0,
                ap (total (single k)) (does (single k)).2,
                i.account k,
              );
            }
      ]

  pub delete-IsAccounted : (t : Timer) → IsAccounted all n (delete_timer_in_loop t q)
  unfolding delete_timer_in_loop
  delete-IsAccounted t =
      let fewer = λ (w : Timer → ℕ). total-erase w t q.timer_map_repeat in
      record {
        valid = delete_timer_in_loop-IsValid t i.valid;
        apart = λ k. omega (arith, fewer (at k), i.apart k);
        fresh = λ k h. omega (arith, fewer (at k), i.fresh k h);
        repeats = λ k. omega (arith, fewer (single k), i.repeats k);
        account = i.account;
      }
