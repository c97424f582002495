-- ===== src/Socket/Calls/Known.antt =====
-- What the kernel knows of a socket at the end of its life.
use bounce.Prelude.{
  ◌≡◌, refl, inl, inr, ◌∙◌, Bool, true, false, ◌||◌, List, [], ◌∷◌, if◌then◌else◌, Bool-cases,
  arith,
}
use bounce.Prelude.Int.{ℤ, pos, eq_int}
use bounce.Prelude.Outcomes.{returns, exits}
use bounce.Socket.{Socket, init, destroy, bind, listen, shutdown_write, shutdown_read}
use bounce.Socket.Calls.{
  Call, binds, listens, accepts, shuts_down_write, shuts_down_read, run_call, run_calls, life,
}

-- Whether the kernel refuses to bind or to listen in one of the calls.
unfoldable pub refused : List Call → Bool
refused [] = false
refused (binds ret ∷ calls) = if eq_int ret (pos 0) then refused calls else true
refused (listens ret ∷ calls) = if eq_int ret (pos 0) then refused calls else true
refused (_ ∷ calls) = refused calls

abbrev pub is_bind : Call → Bool
is_bind (binds ret) = true
is_bind _ = false

abbrev pub is_listen : Call → Bool
is_listen (listens ret) = true
is_listen _ = false

abbrev pub is_shutdown_write : Call → Bool
is_shutdown_write shuts_down_write = true
is_shutdown_write _ = false

abbrev pub is_shutdown_read : Call → Bool
is_shutdown_read shuts_down_read = true
is_shutdown_read _ = false

abbrev pub any : (Call → Bool) → List Call → Bool
any test [] = false
any test (call ∷ calls) = test call || any test calls

-- What the kernel knows of the descriptor after calls that it did not refuse.
pub record Knows (calls : List Call) (s s' : Socket) : Type 0 where
  pub fd : s'.fd ≡ s.fd
  pub bound : s'.bound ≡ (s.bound || any is_bind calls)
  pub listening : s'.listening ≡ (s.listening || any is_listen calls)
  pub write_shut : s'.write_shut ≡ (s.write_shut || any is_shutdown_write calls)
  pub read_shut : s'.read_shut ≡ (s.read_shut || any is_shutdown_read calls)

or_false : (b : Bool) → b ≡ (b || false)
or_false true = refl
or_false false = refl

or_true : (a b : Bool) → true ≡ (a || (true || b))
or_true true b = refl
or_true false b = refl

not_refused : (ok rest : Bool) → (if ok then rest else true) ≡ false → (ok ≡ true) × (rest ≡ false)
not_refused true rest h = (refl, h)
not_refused false rest h = cc

run_calls-Knows :
    (calls : List Call) (s : Socket)
    → refused calls ≡ false
    → (s' : Socket) × (run_calls calls s ≡ returns s') × Knows calls s s'
unfolding run_calls run_call refused shutdown_write shutdown_read
run_calls-Knows [] s h = (
  s,
  refl,
  record {
    fd = refl;
    bound = or_false s.bound;
    listening = or_false s.listening;
    write_shut = or_false s.write_shut;
    read_shut = or_false s.read_shut;
  },
)
run_calls-Knows (binds ret ∷ calls) s h =
    let (ok, rest) = not_refused (eq_int ret (pos 0)) (refused calls) h in
    let (s', runs, k) = run_calls-Knows calls (record s { bound = true }) rest in
    (
      s',
      rw (ok, bind) runs,
      record {
        fd = k.fd;
        bound = k.bound ∙ or_true s.bound (any is_bind calls);
        listening = k.listening;
        write_shut = k.write_shut;
        read_shut = k.read_shut;
      },
    )
run_calls-Knows (listens ret ∷ calls) s h =
    let (ok, rest) = not_refused (eq_int ret (pos 0)) (refused calls) h in
    let (s', runs, k) = run_calls-Knows calls (record s { listening = true }) rest in
    (
      s',
      rw (ok, listen) runs,
      record {
        fd = k.fd;
        bound = k.bound;
        listening = k.listening ∙ or_true s.listening (any is_listen calls);
        write_shut = k.write_shut;
        read_shut = k.read_shut;
      },
    )
run_calls-Knows (accepts ret ∷ calls) s h =
    let (s', runs, k) = run_calls-Knows calls s h in
    (
      s',
      runs,
      record {
        fd = k.fd;
        bound = k.bound;
        listening = k.listening;
        write_shut = k.write_shut;
        read_shut = k.read_shut;
      },
    )
run_calls-Knows (shuts_down_write ∷ calls) s h =
    let (s', runs, k) = run_calls-Knows calls (record s { write_shut = true }) h in
    (
      s',
      runs,
      record {
        fd = k.fd;
        bound = k.bound;
        listening = k.listening;
        write_shut = k.write_shut ∙ or_true s.write_shut (any is_shutdown_write calls);
        read_shut = k.read_shut;
      },
    )
run_calls-Knows (shuts_down_read ∷ calls) s h =
    let (s', runs, k) = run_calls-Knows calls (record s { read_shut = true }) h in
    (
      s',
      runs,
      record {
        fd = k.fd;
        bound = k.bound;
        listening = k.listening;
        write_shut = k.write_shut;
        read_shut = k.read_shut ∙ or_true s.read_shut (any is_shutdown_read calls);
      },
    )

run_calls-exits :
    (calls : List Call) (s : Socket) → refused calls ≡ true → run_calls calls s ≡ exits 1
unfolding run_calls run_call refused
run_calls-exits [] s h = cc
run_calls-exits (binds ret ∷ calls) s h = elim (Bool-cases (eq_int ret (pos 0))) [
  | inl ok ↦
      rw (ok, bind) (run_calls-exits calls (record s { bound = true }) (ground (arith, h, ok)))
  | inr bad ↦ rw (bad, bind) refl
]
run_calls-exits (listens ret ∷ calls) s h = elim (Bool-cases (eq_int ret (pos 0))) [
  | inl ok ↦
      rw (ok, listen)
        (run_calls-exits calls (record s { listening = true }) (ground (arith, h, ok)))
  | inr bad ↦ rw (bad, listen) refl
]
run_calls-exits (accepts ret ∷ calls) s h = run_calls-exits calls s h
run_calls-exits (shuts_down_write ∷ calls) s h = run_calls-exits calls (shutdown_write s) h
run_calls-exits (shuts_down_read ∷ calls) s h = run_calls-exits calls (shutdown_read s) h

-- Any calls on a new socket, in any order, exit with 1 where the kernel refuses to bind it or to
-- listen. Otherwise the descriptor stays the same and is closed at the end; it is bound, listens, or is
-- shut down for writing or for reading exactly if one of the calls did that, and what `accept` returns
-- changes nothing.
pub life_lem :
    (fd : ℤ) (calls : List Call)
    → (refused calls ≡ true → life fd calls ≡ exits 1)
      × (refused calls ≡ false
          → (s : Socket) × (life fd calls ≡ returns s)
            × Knows calls (init fd) s
            × (s.closed ≡ true))
unfolding life destroy
life_lem fd calls = (
  λ h. rw (run_calls-exits calls (init fd) h) refl,
  λ h.
      let (s, runs, k) = run_calls-Knows calls (init fd) h in
      (
        destroy s,
        rw runs refl,
        record {
          fd = k.fd;
          bound = k.bound;
          listening = k.listening;
          write_shut = k.write_shut;
          read_shut = k.read_shut;
        },
        refl,
      ),
)
