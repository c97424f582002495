-- ===== src/LoopThreadPool/Turns.antt =====
-- The threads take connections in turn.
use native.Mathlib.Nat.{suc-mod, mod-lt, mod-eq_of_lt, mod_self, zero-mod}
use bounce.Prelude.{
  ℕ, zero, suc, ◌+◌, ◌%◌, ◌^◌, ◌<◌, ◌≡◌, refl, sym, ap, ap₂, ◌∙◌, inl, inr, true, false, Option,
  some, List, [], ◌∷◌, ◌++◌, arith, get_elem?, leb, if◌then◌else◌, length, Bool-cases, ◌>>=◌,
  length-append, leb→le, ◌⊎◌, get_elem?-append_lt, get_elem?-append_length,
}
use bounce.LoopThreadPool.{
  LoopThreadPool, init, list_loop, start_threads, start, wrapped, get_loop_for_new_connection,
}

-- The loops that `k` calls in a row return, and the pool after them.
unfoldable pub get_loops : ℕ → LoopThreadPool → Option (List ℕ × LoopThreadPool)
get_loops zero p = some ([], p)
get_loops (suc k) p = do
  earlier ← get_loops k p
  last ← get_loop_for_new_connection earlier.1
  some (earlier.0 ++ last.0 ∷ [], last.1)

-- The pool has started `n` threads, and the `k`-th connection is due.
record Turn (address : ℕ → ℕ) (n k : ℕ) (p : LoopThreadPool) : Type 0 where
  number : p.thread_num ≡ n
  small : n < 2 ^ 32
  loop : (i : ℕ) → i < n → get_elem? p.loops i ≡ some (address i)
  due : wrapped p ≡ k % n

start_threads-fields :
    (address : ℕ → ℕ) (n : ℕ) (p : LoopThreadPool)
    → p.loops ≡ []
    → (length (start_threads address n p).loops ≡ n)
      × ((start_threads address n p).thread_num ≡ p.thread_num)
      × ((start_threads address n p).next_loop_index ≡ p.next_loop_index)
      × ((start_threads address n p).started ≡ p.started)
unfolding start_threads list_loop
start_threads-fields address zero p e = (ap length e, refl, refl, refl)
start_threads-fields address (suc n) p e =
    let (size, number, index, started) = start_threads-fields address n p e in
    (
      length-append (start_threads address n p).loops (address n ∷ []) ∙ omega (arith, size),
      number,
      index,
      started,
    )

lt-cases : (i n : ℕ) → i < suc n → (i < n) ⊎ (i ≡ n)
lt-cases i n h = ground arith

start_threads-loop :
    (address : ℕ → ℕ) (n : ℕ) (p : LoopThreadPool) (i : ℕ)
    → p.loops ≡ []
    → i < n
    → get_elem? (start_threads address n p).loops i ≡ some (address i)
unfolding start_threads list_loop
start_threads-loop address zero p i e h = absurd (omega arith)
start_threads-loop address (suc n) p i e h = elim (lt-cases i n h) [
  | inl before ↦
      get_elem?-append_lt (start_threads address n p).loops (address n ∷ []) i
        (omega (arith, (start_threads-fields address n p e).0))
      ∙ start_threads-loop address n p i e before
  | inr last ↦
      ap (get_elem? ((start_threads address n p).loops ++ address n ∷ []))
        (last ∙ sym (start_threads-fields address n p e).0)
      ∙ get_elem?-append_length (start_threads address n p).loops (address n)
      ∙ ap (λ j. some (address j)) (sym last)
]

next_turn : (n k : ℕ) → 0 < n → (if leb n (k % n + 1) then 0 else k % n + 1) ≡ suc k % n
next_turn n k h = elim (Bool-cases (leb n (k % n + 1))) [
  | inl wraps ↦ rw wraps (
      sym (mod_self n)
      ∙ ap (λ m. m % n) (omega (arith, leb→le n (k % n + 1) wraps, mod-lt k h))
      ∙ sym (suc-mod k n))
  | inr on ↦ rw on (
      omega (arith, suc-mod k n, mod-eq_of_lt (lt_of_not_leb n (suc (k % n)) (ground (arith, on)))))
]
  where
    lt_of_not_leb : (a b : ℕ) → leb a b ≡ false → b < a
    lt_of_not_leb a b h = ground arith

incremented : (a b : ℕ) → a ≡ b → b + 1 < 2 ^ 32 → (a + 1) % 2 ^ 32 ≡ b + 1
incremented a b e h = omega (arith, e)

module _ (address : ℕ → ℕ) (n : ℕ) (some_threads : 0 < n) where
  Turn-next :
      (k : ℕ) {p : LoopThreadPool}
      → Turn address n k p
      → (p' : LoopThreadPool) × (get_loop_for_new_connection p ≡ some (address (k % n), p'))
        × Turn address n (suc k) p'
  unfolding get_loop_for_new_connection wrapped
  Turn-next k {p} t =
      let after = record p { next_loop_index = (wrapped p + 1) % 2 ^ 32 } in
      let found = ap (get_elem? p.loops) t.due ∙ t.loop (k % n) (mod-lt k some_threads) in
      (
        after,
        ap (λ o. o >>= (λ loop. some (loop, after))) found,
        record {
          number = t.number;
          small = t.small;
          loop = t.loop;
          due =
              ap₂ (λ m i. if leb m i then 0 else i) t.number
                (incremented (wrapped p) (k % n) t.due
                  (omega (arith, t.small, mod-lt k some_threads)))
              ∙ next_turn n k some_threads;
        },
      )

  first_turn : (if leb n 0 then 0 else 0) ≡ 0 % n
  first_turn = ground (arith, zero-mod n)

  started-Turn : n < 2 ^ 32 → Turn address n 0 (start address (init n))
  unfolding start init wrapped
  started-Turn small =
      let (size, number, index, started) =
        start_threads-fields address n (record (init n) { started = true }) refl in
      record {
        number = number;
        small = small;
        loop = λ i h. start_threads-loop address n (record (init n) { started = true }) i refl h;
        due = ap₂ (λ m i. if leb m i then 0 else i) number index ∙ first_turn;
      }

  -- What `k` calls return.
  gets :
      (k : ℕ) {p : LoopThreadPool}
      → Turn address n 0 p
      → (ls : List ℕ) × (p' : LoopThreadPool) × (get_loops k p ≡ some (ls, p'))
        × (length ls ≡ k)
        × ((i : ℕ) → i < k → get_elem? ls i ≡ some (address (i % n)))
        × Turn address n k p'
  unfolding get_loops
  gets zero {p} t = ([], p, refl, refl, λ i h. absurd (omega arith), t)
  gets (suc k) {p} t =
      let (ls, q, earlier, size, each, turn) = gets k t in
      let (q', last, turn') = Turn-next k turn in
      (
        ls ++ address (k % n) ∷ [],
        q',
        ap
              (λ o.
                o >>= (λ e. get_loop_for_new_connection e.1 >>= (λ l. some (e.0 ++ l.0 ∷ [], l.1))))
              earlier
            ∙ ap (λ o. o >>= (λ l. some (ls ++ l.0 ∷ [], l.1))) last,
        length-append ls (address (k % n) ∷ []) ∙ omega (arith, size),
        λ i h. extended ls i (omega (arith, size)) each size (lt-cases i k h),
        turn',
      )
    where
      extended :
          (ls : List ℕ) (i : ℕ)
          → i < suc k
          → ((i : ℕ) → i < k → get_elem? ls i ≡ some (address (i % n)))
          → length ls ≡ k
          → (i < k) ⊎ (i ≡ k)
          → get_elem? (ls ++ address (k % n) ∷ []) i ≡ some (address (i % n))
      extended ls i h each size (inl before) =
          get_elem?-append_lt ls (address (k % n) ∷ []) i (omega (arith, size)) ∙ each i before
      extended ls i h each size (inr last) =
          ap (get_elem? (ls ++ address (k % n) ∷ [])) (last ∙ sym size)
          ∙ get_elem?-append_length ls (address (k % n))
          ∙ ap (λ j. some (address (j % n))) (sym last)

-- A pool that has been started with `n` threads, at least one, gives out as many
-- loops as are asked for: the first `n` connections go to the loops in the order in which they were
-- started, and then again from the first.
pub get_loops-round_robin :
    (address : ℕ → ℕ) (n k : ℕ)
    → 0 < n
    → n < 2 ^ 32
    → (ls : List ℕ) × (p : LoopThreadPool) × (get_loops k (start address (init n)) ≡ some (ls, p))
      × (length ls ≡ k)
      × ((i : ℕ) → i < k → get_elem? ls i ≡ some (address (i % n)))
get_loops-round_robin address n k some_threads small =
    let (ls, p, e, size, each, t) =
      gets address n some_threads k (started-Turn address n some_threads small) in
    (ls, p, e, size, each)
