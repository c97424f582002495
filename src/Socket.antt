-- ===== src/Socket.antt =====
-- bounce/socket.h and bounce/socket.cc: a socket, which is closed at the end of its object. What the
-- kernel returns is an argument.
pub mod Calls
use bounce.Prelude.{ℕ, Bool, true, false, if◌then◌else◌}
use bounce.Prelude.Int.{ℤ, pos, negsuc, eq_int}
use bounce.Prelude.Outcomes.{Outcome, returns, exits}

-- `bound`, `listening` and the like are what the kernel knows of the descriptor.
pub record Socket : Type 0 where
  pub fd : ℤ
  pub bound : Bool
  pub listening : Bool
  pub write_shut : Bool
  pub read_shut : Bool
  pub closed : Bool

unfoldable pub init : ℤ → Socket
init fd = record {
  fd = fd;
  bound = false;
  listening = false;
  write_shut = false;
  read_shut = false;
  closed = false;
}

-- The destructor.
unfoldable pub destroy : Socket → Socket
destroy s = record s { closed = true }

-- `bind` and `listen`, which exit where the kernel refuses.
unfoldable pub bind : ℤ → Socket → Outcome Socket
bind ret s = if eq_int ret (pos 0) then returns (record s { bound = true }) else exits 1

-- The length of the queue of connections that wait to be accepted.
abbrev pub listen_size : ℕ
listen_size = 5

unfoldable pub listen : ℤ → Socket → Outcome Socket
listen ret s = if eq_int ret (pos 0) then returns (record s { listening = true }) else exits 1

-- `accept` returns what `::accept4` returned, a failure too; the address is the one that was stored,
-- or the one that was there.
unfoldable pub accept {ℓ} : {A : Type ℓ} → ℤ → A → A → ℤ × A
accept (pos n) stored addr = (pos n, stored)
accept (negsuc n) stored addr = (negsuc n, addr)

unfoldable pub shutdown_write : Socket → Socket
shutdown_write s = record s { write_shut = true }

unfoldable pub shutdown_read : Socket → Socket
shutdown_read s = record s { read_shut = true }
