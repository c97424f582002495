-- ===== src/LoopThreadPool/Calls.antt =====
-- The public functions of a pool, called in any order.
use bounce.Prelude.{
  ℕ, zero, suc, ◌+◌, ◌%◌, ◌^◌, ◌≤◌, ◌<◌, ◌≡◌, refl, ap, ◌∙◌, inl, inr, true, Option, some, List, [],
  ◌∷◌, ◌++◌, arith, length, ◌>>=◌, get_elem?-some, length-append, Bool-cases, ◌==◌, ◌⊎◌,
}
use bounce.LoopThreadPool.{
  LoopThreadPool, init, list_loop, start_threads, start, set_thread_number, wrapped,
  get_loop_for_new_connection,
}

pub data Call : Type 0 where
  starts : (ℕ → ℕ) → Call
  sets_thread_number : ℕ → Call
  gets_loop : Call

-- The loops that the call gives out, and the pool.
unfoldable pub run_call : Call → LoopThreadPool → Option (List ℕ × LoopThreadPool)
unfolding start set_thread_number get_loop_for_new_connection
run_call (starts address) p = some ([], start address p)
run_call (sets_thread_number num) p = some ([], set_thread_number num p)
run_call gets_loop p = do given ← get_loop_for_new_connection p; some (given.0 ∷ [], given.1)

unfoldable pub run_calls : List Call → LoopThreadPool → Option (List ℕ × LoopThreadPool)
unfolding run_call
run_calls [] p = some ([], p)
run_calls (call ∷ calls) p = do
  first ← run_call call p
  rest ← run_calls calls first.1
  some (first.0 ++ rest.0, rest.1)

-- A pool that has been started with threads has a loop for each of them.
pub record IsReady (p : LoopThreadPool) : Type 0 where
  pub started : p.started ≡ true
  pub threads : 0 < p.thread_num
  pub loops : p.thread_num ≤ length p.loops

start_threads-more :
    (address : ℕ → ℕ) (n : ℕ) (p : LoopThreadPool)
    → (length (start_threads address n p).loops ≡ length p.loops + n)
      × ((start_threads address n p).thread_num ≡ p.thread_num)
      × ((start_threads address n p).started ≡ p.started)
unfolding start_threads list_loop
start_threads-more address zero p = (omega arith, refl, refl)
start_threads-more address (suc n) p =
    let (size, number, started) = start_threads-more address n p in
    (
      length-append (start_threads address n p).loops (address n ∷ []) ∙ omega (arith, size),
      number,
      started,
    )

pub start-kept :
    (address : ℕ → ℕ) (p : LoopThreadPool)
    → ((start address p).started ≡ true) × ((start address p).thread_num ≡ p.thread_num)
unfolding start
start-kept address p =
    let (size, number, started) =
      start_threads-more address p.thread_num (record p { started = true }) in
    (started, number)

pub start-IsReady :
    (address : ℕ → ℕ) (p : LoopThreadPool) → 0 < p.thread_num → IsReady (start address p)
unfolding start
start-IsReady address p some_threads =
    let (size, number, started) =
      start_threads-more address p.thread_num (record p { started = true }) in
    record {
      started = started;
      threads = omega (arith, number);
      loops = omega (arith, size, number);
    }

pub start-pool :
    (address : ℕ → ℕ) (p : LoopThreadPool)
    → ((start address p).thread_num ≡ 0) ⊎ IsReady (start address p)
unfolding start
start-pool address p = elim (Bool-cases (p.thread_num == 0)) [
  | inl none_ ↦ inl (
      (start_threads-more address p.thread_num (record p { started = true })).1
      ∙ ground (arith, none_))
  | inr some_ ↦ inr (start-IsReady address p (ground (arith, some_)))
]

wrapped-lt : (p : LoopThreadPool) → 0 < p.thread_num → wrapped p < p.thread_num
unfolding wrapped
wrapped-lt p h = ground arith

pub get_loop-IsReady :
    (p : LoopThreadPool)
    → IsReady p
    → (l : ℕ) × (p' : LoopThreadPool) × (get_loop_for_new_connection p ≡ some (l, p')) × IsReady p'
unfolding get_loop_for_new_connection
get_loop-IsReady p r =
    let (l, found) =
      get_elem?-some p.loops (wrapped p) (omega (arith, wrapped-lt p r.threads, r.loops)) in
    (
      l,
      record p { next_loop_index = (wrapped p + 1) % 2 ^ 32 },
      ap
          (λ (o : Option ℕ).
            o >>= λ loop. some (loop, record p { next_loop_index = (wrapped p + 1) % 2 ^ 32 }))
          found,
      record { started = r.started; threads = r.threads; loops = r.loops },
    )

-- The number of threads is fixed when the pool has started.
set_thread_number-started :
    (num : ℕ) (p : LoopThreadPool) → p.started ≡ true → set_thread_number num p ≡ p
unfolding set_thread_number
set_thread_number-started num p e = rw (e, set_thread_number) refl

run_call-IsReady :
    (call : Call) (p : LoopThreadPool)
    → IsReady p
    → (r : List ℕ × LoopThreadPool) × (run_call call p ≡ some r) × IsReady r.1
unfolding run_call
run_call-IsReady (starts address) p r =
    (([], start address p), refl, start-IsReady address p r.threads)
run_call-IsReady (sets_thread_number num) p r =
    (([], p), ap (λ q. some ([], q)) (set_thread_number-started num p r.started), r)
run_call-IsReady gets_loop p r =
    let (l, p', found, ready) = get_loop-IsReady p r in
    (
      (l ∷ [], p'),
      ap (λ (o : Option (ℕ × LoopThreadPool)). o >>= λ given. some (given.0 ∷ [], given.1)) found,
      ready,
    )

run_calls-IsReady :
    (calls : List Call) (p : LoopThreadPool)
    → IsReady p
    → (r : List ℕ × LoopThreadPool) × (run_calls calls p ≡ some r) × IsReady r.1
unfolding run_calls
run_calls-IsReady [] p r = (([], p), refl, r)
run_calls-IsReady (call ∷ calls) p r =
    let (first, done, ready) = run_call-IsReady call p r in
    let (rest, done', ready') = run_calls-IsReady calls first.1 ready in
    (
      (first.0 ++ rest.0, rest.1),
      ap
            (λ (o : Option (List ℕ × LoopThreadPool)).
              o >>= λ x. run_calls calls x.1 >>= λ y. some (x.0 ++ y.0, y.1))
            done
          ∙ ap (λ (o : Option (List ℕ × LoopThreadPool)). o >>= λ y. some (first.0 ++ y.0, y.1))
              done',
      ready',
    )

-- When a pool has been started with at least one thread, no sequence of calls makes it look for a
-- loop that is not there, whatever number of threads is asked for later and also if it is started
-- again, and it still has a loop for each of its threads.
pub run_calls-started :
    (address : ℕ → ℕ) (calls : List Call) (p : LoopThreadPool)
    → 0 < p.thread_num
    → (r : List ℕ × LoopThreadPool) × (run_calls calls (start address p) ≡ some r) × IsReady r.1
run_calls-started address calls p some_threads =
    run_calls-IsReady calls (start address p) (start-IsReady address p some_threads)

-- The constructor, and then calls.
unfoldable pub life : ℕ → List Call → Option (List ℕ × LoopThreadPool)
unfolding init run_calls
life thread_num calls = run_calls calls (init thread_num)

-- Numbers of threads that are set, and the last of them.
pub sets_each : List ℕ → List Call → List Call
sets_each [] calls = calls
sets_each (num ∷ nums) calls = sets_thread_number num ∷ sets_each nums calls

pub last_of : List ℕ → ℕ → ℕ
last_of [] n = n
last_of (m ∷ l) n = last_of l m

-- A new pool that is given some numbers of threads, of which the last is not zero, and is then
-- started, gives out a loop at every later call, whatever else is called, and has a loop for each of
-- its threads.
pub life-IsReady :
    (address : ℕ → ℕ) (nums : List ℕ) (calls : List Call) (thread_num : ℕ)
    → 0 < last_of nums thread_num
    → (r : List ℕ × LoopThreadPool) × (life thread_num (sets_each nums (starts address ∷ calls))
        ≡ some r)
      × IsReady r.1
unfolding life init run_calls run_call set_thread_number sets_each last_of
life-IsReady address [] calls thread_num h =
    let (r, runs, ready) = run_calls-started address calls (init thread_num) h in
    (r, rw runs refl, ready)
life-IsReady address (num ∷ nums) calls thread_num h =
    let (r, runs, ready) = life-IsReady address nums calls num h in (r, rw runs refl, ready)
