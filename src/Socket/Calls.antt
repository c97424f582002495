-- ===== src/Socket/Calls.antt =====
-- The life of a socket: its constructor, any calls, and its destructor.
pub mod Known
use bounce.Prelude.{
  ◌≡◌, refl, inl, inr, ◌∙◌, Bool, true, false, ◌||◌, List, [], ◌∷◌, if◌then◌else◌, Bool-cases,
  arith,
}
use bounce.Prelude.Int.{ℤ, pos, eq_int}
use bounce.Prelude.Outcomes.{Outcome, returns, exits, ◌>>=◌}
use bounce.Socket.{Socket, init, destroy, bind, listen, shutdown_write, shutdown_read}

-- Each comes with what the kernel returns; what `accepts` gives its caller leaves the socket as it is.
pub data Call : Type 0 where
  binds : ℤ → Call
  listens : ℤ → Call
  accepts : ℤ → Call
  shuts_down_write : Call
  shuts_down_read : Call

unfoldable pub run_call : Call → Socket → Outcome Socket
unfolding bind listen shutdown_write shutdown_read
run_call (binds ret) s = bind ret s
run_call (listens ret) s = listen ret s
run_call (accepts ret) s = returns s
run_call shuts_down_write s = returns (shutdown_write s)
run_call shuts_down_read s = returns (shutdown_read s)

unfoldable pub run_calls : List Call → Socket → Outcome Socket
unfolding run_call
run_calls [] s = returns s
run_calls (call ∷ calls) s = run_call call s >>= run_calls calls

unfoldable pub life : ℤ → List Call → Outcome Socket
unfolding init run_calls destroy
life fd calls = run_calls calls (init fd) >>= λ s. returns (destroy s)
