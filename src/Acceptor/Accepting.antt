-- ===== src/Acceptor/Accepting.antt =====
-- An acceptor from its constructor to the connections that come in.
use bounce.Prelude.{ℕ, ◌≡◌, ◌≢◌, refl, true, false, none, some}
use bounce.Prelude.Int.{ℤ, pos, negsuc, eq_int_ne}
use bounce.Prelude.Outcomes.{returns, exits, crashes, ◌>>=◌}
use bounce.Channel.{Channel, read_event, is_reading, change, enable_reading}
use bounce.Channel
use bounce.Socket.{Socket, bind, listen, accept}
use bounce.Socket
use bounce.SockAddress.{SockAddress, from_port}
use bounce.Acceptor.{
  Acceptor, Listener, AcceptCallback, init, start_listen, set_accept_callback, handle_accept,
}

-- An acceptor that waits for connections on a descriptor.
pub record Listens (fd : ℤ) (addr : SockAddress) (a : Acceptor) : Type 0 where
  pub own : (a.listen_sock.fd ≡ fd) × (a.listen_channel.fd ≡ fd)
  pub socket : (a.listen_sock.bound ≡ true) × (a.listen_sock.listening ≡ true)
  pub reads : (a.listen_channel.events ≡ read_event) × (a.handles ≡ true)
  pub local : a.local_addr ≡ addr

-- A new acceptor that starts to listen exits with 1 if the kernel refuses to bind the socket, or else
-- to listen on it. Otherwise its socket is bound and listens, and its channel watches for reading and
-- runs `handleAccept`.
pub start_listen-Listens :
    (fd : ℤ) (addr : SockAddress) (refused ret : ℤ)
    → refused ≢ pos 0
    → ((init fd addr refused >>= start_listen ret) ≡ exits 1)
      × ((init fd addr (pos 0) >>= start_listen refused) ≡ exits 1)
      × ((a : Acceptor) × ((init fd addr (pos 0) >>= start_listen (pos 0)) ≡ returns a)
          × Listens fd addr a)
unfolding init start_listen bind listen Socket.init Channel.init change
start_listen-Listens fd addr refused ret ne = (
  rw (eq_int_ne refused (pos 0) ne) refl,
  rw (eq_int_ne refused (pos 0) ne) refl,
  (
    record {
      listen_sock = record {
        fd = fd;
        bound = true;
        listening = true;
        write_shut = false;
        read_shut = false;
        closed = false;
      };
      listen_channel = change enable_reading (Channel.init fd);
      handles = true;
      local_addr = addr;
    },
    refl,
    record { own = (refl, refl); socket = (refl, refl); reads = (refl, refl); local = refl },
  ),
)

-- Whatever `::accept4` returns reaches the callback, a failure as a negative descriptor with an
-- address of no host; without a callback the program crashes.
pub handle_accept_lem {ℓ} :
    {S : Type ℓ} (f : AcceptCallback S) (l : Listener S) (n : ℕ) (stored : SockAddress) (s : S)
    → (handle_accept (pos n) stored (set_accept_callback (some f) l) s ≡ f (pos n) stored s)
      × (handle_accept (negsuc n) stored (set_accept_callback (some f) l) s
          ≡ f (negsuc n) (from_port 0 false false) s)
      × (handle_accept (pos n) stored (set_accept_callback none l) s ≡ crashes)
unfolding handle_accept set_accept_callback accept
handle_accept_lem f l n stored s = (refl, refl, refl)
