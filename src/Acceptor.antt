-- ===== src/Acceptor.antt =====
-- bounce/acceptor.h and bounce/acceptor.cc: the socket on which a server listens. What `::bind`,
-- `::listen` and `::accept4` return is an argument.
pub mod Accepting
pub mod Calls
use bounce.Prelude.{ℕ, Bool, true, false, Option, none, some}
use bounce.Prelude.Int.{ℤ}
use bounce.Prelude.Outcomes.{Outcome, returns, crashes, ◌>>=◌}
use bounce.Channel
use bounce.Channel.{Channel, change, enable_reading}
use bounce.Socket
use bounce.Socket.{Socket, bind, listen, accept}
use bounce.SockAddress.{SockAddress, from_port, default_address}

-- The members but for the callback. `handles` tells whether the channel has its own, `handleAccept`.
pub record Acceptor : Type 0 where
  pub listen_sock : Socket
  pub listen_channel : Channel
  pub handles : Bool
  pub local_addr : SockAddress

-- The constructor, for the descriptor of the socket.
unfoldable pub init : ℤ → SockAddress → ℤ → Outcome Acceptor
unfolding Channel.init Socket.init bind
init fd addr ret = do
  sock ← bind ret (Socket.init fd)
  returns (record {
    listen_sock = sock;
    listen_channel = Channel.init fd;
    handles = false;
    local_addr = addr;
  })

-- `startListen`: the channel reads before the socket listens.
unfoldable pub start_listen : ℤ → Acceptor → Outcome Acceptor
unfolding change listen
start_listen ret a = do
  let reading = record a { handles = true; listen_channel = change enable_reading a.listen_channel }
  sock ← listen ret reading.listen_sock
  returns (record reading { listen_sock = sock })

-- With the callback, which changes a state `S`; `none` is an empty one.
abbrev pub AcceptCallback {ℓ} : Type ℓ → Type ℓ
AcceptCallback S = ℤ → SockAddress → S → Outcome S

pub record Listener {ℓ} (S : Type ℓ) : Type ℓ where
  pub acceptor : Acceptor
  pub accept_cb : Option (AcceptCallback S)

module _ {ℓ} {S : Type ℓ} where
  unfoldable pub set_accept_callback : Option (AcceptCallback S) → Listener S → Listener S
  set_accept_callback cb l = record l { accept_cb = cb }

  -- `handleAccept`, which calls the callback with no test.
  unfoldable pub handle_accept : ℤ → SockAddress → Listener S → S → Outcome S
  unfolding accept from_port
  handle_accept ret stored l s =
      let accepted = accept ret stored default_address in
      elim l.accept_cb [ none ↦ crashes | some f ↦ f accepted.0 accepted.1 s ]
