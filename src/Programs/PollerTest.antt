-- ===== src/Programs/PollerTest.antt =====
-- bounce/test/poller_test.cc: a loop that only watches a socket that listens.
pub mod Watches
use bounce.Prelude.{ℕ, Option, none, some}
use bounce.Prelude.Int.{ℤ, pos}
use bounce.Prelude.Outcomes.{Outcome, returns, ◌>>=◌}
use bounce.Channel.{enable_reading}
use bounce.Socket
use bounce.Socket.{Socket, bind, listen}
use bounce.Poller.{Poller, change_and_update, loop_update_channel}
use bounce.EventLoop.Construct.{construct, or_crash}

module _ {W : Type 0} (poller : Poller W) where
  -- `enableReading` of the channel at `c`, and `updateChannel` of the loop.
  unfoldable pub watch : ℕ → W → Option W
  unfolding change_and_update loop_update_channel
  watch c w = elim (change_and_update poller enable_reading c w) [
    | none ↦ none
    | some w' ↦ loop_update_channel poller c w'
  ]

  -- `main` before `loop.loop()`, for the socket's descriptor and what `::bind`, `::listen` and
  -- `::eventfd` return. The channels of the loop lie at `t` and `p`, and the one of `main` at `c`.
  unfoldable pub main : ℕ → ℕ → ℕ → ℤ → ℤ → ℤ → ℤ → W → Outcome (Socket × W)
  unfolding Socket.init bind listen construct watch
  main t p c listen_fd bound listens weakup_fd w = do
    bound_sock ← bind bound (Socket.init listen_fd)
    listen_sock ← listen listens bound_sock
    w' ← construct poller t p weakup_fd w
    w'' ← or_crash (watch c w')
    returns (listen_sock, w'')
