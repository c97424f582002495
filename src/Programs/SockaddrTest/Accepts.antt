-- ===== src/Programs/SockaddrTest/Accepts.antt =====
-- The end of bounce/test/sockaddr_test.cc: a socket on an IPv6 address accepts a connection.
use bounce.Prelude.{ℕ, suc, ◌≡◌, Bool, true, false, ltb, Option, List, if◌then◌else◌, arith}
use bounce.Prelude.Int.{ℤ, pos, negsuc}
use bounce.Prelude.Outcomes.{Outcome, returns, exits, ◌>>=◌}
use bounce.Socket
use bounce.Socket.{Socket, bind, listen, accept}
use bounce.SockAddress.{SockAddress, default_address, set_scope_id}
use bounce.Programs.SockaddrTest.{addr3}

-- `ASSERT_GT(n, 0)`.
abbrev pub is_positive : ℤ → Bool
is_positive (pos n) = ltb 0 n
is_positive (negsuc n) = false

module _ (inet_pton : ℕ → List ℕ → Option (List ℕ)) (inet_ntop : ℕ → List ℕ → List ℕ) where
  unfoldable pub bound_addr : SockAddress
  unfolding set_scope_id addr3
  bound_addr = set_scope_id 2 (addr3 inet_pton inet_ntop)

-- What `::socket`, `::bind`, `::listen` and `::accept4` return, and the address that the last stores:
-- whether the test passes, and the address that it prints.
unfoldable pub accepts : ℤ → ℤ → ℤ → ℤ → SockAddress → Outcome (Bool × SockAddress)
unfolding Socket.init bind listen accept
accepts fd bound listens ret stored =
    if is_positive fd
    then (bind bound (Socket.init fd) >>= listen listens >>= λ sock.
        let accepted = accept ret stored default_address in
        returns (is_positive accepted.0, accepted.1))
    else returns (false, default_address)

-- On a descriptor that the kernel gives and does not refuse, the test passes exactly if a connection
-- comes in, and then sees its address; where the kernel refuses to bind or to listen, it exits.
pub accepts_lem :
    (n m : ℕ) (ret : ℤ) (stored : SockAddress)
    → (accepts (pos (suc n)) (pos 0) (pos 0) (pos (suc m)) stored ≡ returns (true, stored))
      × (accepts (pos (suc n)) (pos 0) (pos 0) (negsuc m) stored ≡ returns (false, default_address))
      × (accepts (pos (suc n)) (negsuc m) (pos 0) ret stored ≡ exits 1)
      × (accepts (pos (suc n)) (pos 0) (negsuc m) ret stored ≡ exits 1)
unfolding accepts Socket.init bind listen accept
accepts_lem n m ret stored = (ground arith, ground arith, ground arith, ground arith)
