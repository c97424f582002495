-- ===== src/Acceptor/Calls.antt =====
-- The life of an acceptor: its constructor, and then any calls and descriptors that come in.
use bounce.Prelude.{◌≡◌, refl, ap, ◌∙◌, true, false, Option, none, some, List, [], ◌∷◌}
use bounce.Prelude.Int.{ℤ, pos, negsuc}
use bounce.Prelude.Outcomes.{Outcome, returns, exits, crashes, terminates, ◌>>=◌}
use bounce.Channel
use bounce.Channel.{change, enable_reading}
use bounce.Socket
use bounce.Socket.{bind, listen, accept}
use bounce.SockAddress.{SockAddress, default_address}
use bounce.Acceptor.{
  Listener, AcceptCallback, init, start_listen, set_accept_callback, handle_accept,
}
use bounce.Acceptor.Accepting.{Listens}

-- `handles_accept` comes with what `::accept4` returns and stores.
pub data Call (S : Type 0) : Type 0 where
  starts_listen : ℤ → Call S
  sets_accept_callback : Option (AcceptCallback S) → Call S
  handles_accept : ℤ → SockAddress → Call S

-- What the callback is told of a descriptor: its address, or for a failure that of no host.
abbrev pub told : ℤ → SockAddress → SockAddress
told (pos n) stored = stored
told (negsuc n) stored = default_address

module _ {S : Type 0} where
  unfoldable pub run_call : Call S → Listener S × S → Outcome (Listener S × S)
  unfolding start_listen set_accept_callback handle_accept
  run_call (starts_listen ret) (l, s) =
      start_listen ret l.acceptor >>= λ a. returns (record l { acceptor = a }, s)
  run_call (sets_accept_callback cb) (l, s) = returns (set_accept_callback cb l, s)
  run_call (handles_accept ret stored) (l, s) =
      handle_accept ret stored l s >>= λ s'. returns (l, s')

  unfoldable pub run_calls : List (Call S) → Listener S × S → Outcome (Listener S × S)
  unfolding run_call
  run_calls [] x = returns x
  run_calls (call ∷ calls) x = run_call call x >>= run_calls calls

  -- The constructor, where `::bind` returned `ret`, and then calls.
  unfoldable pub life : ℤ → SockAddress → ℤ → List (Call S) → S → Outcome (Listener S × S)
  unfolding init run_calls
  life fd addr ret calls s =
      init fd addr ret >>= λ a. run_calls calls (record { acceptor = a; accept_cb = none }, s)

  -- The calls in which descriptors come in.
  pub comes : List (ℤ × SockAddress) → List (Call S)
  comes [] = []
  comes ((ret, stored) ∷ events) = handles_accept ret stored ∷ comes events

  -- The callback for each, in order, up to one that ends the program.
  pub feed : AcceptCallback S → List (ℤ × SockAddress) → S → Outcome S
  feed f [] s = returns s
  feed f ((ret, stored) ∷ events) s = f ret (told ret stored) s >>= feed f events

  handle_accept-told :
      (f : AcceptCallback S) (ret : ℤ) (stored : SockAddress) (l : Listener S) (s : S)
      → l.accept_cb ≡ some f
      → handle_accept ret stored l s ≡ f ret (told ret stored) s
  unfolding handle_accept accept
  handle_accept-told f (pos n) stored l s e = rw e refl
  handle_accept-told f (negsuc n) stored l s e = rw e refl

  after_callback :
      (o : Outcome S) (l : Listener S) (g : Listener S × S → Outcome (Listener S × S))
      (h : S → Outcome S)
      → ((s : S) → g (l, s) ≡ (h s >>= λ t. returns (l, t)))
      → ((o >>= λ s. returns (l, s)) >>= g) ≡ ((o >>= h) >>= λ t. returns (l, t))
  after_callback (returns s) l g h e = e s
  after_callback (exits code) l g h e = refl
  after_callback crashes l g h e = refl
  after_callback terminates l g h e = refl

  run_calls-feed :
      (f : AcceptCallback S) (events : List (ℤ × SockAddress)) (l : Listener S) (s : S)
      → l.accept_cb ≡ some f
      → run_calls (comes events) (l, s) ≡ (feed f events s >>= λ s'. returns (l, s'))
  unfolding run_calls run_call comes feed
  run_calls-feed f [] l s e = refl
  run_calls-feed f ((ret, stored) ∷ events) l s e =
      ap (λ o. (o >>= λ s'. returns (l, s')) >>= run_calls (comes events))
        (handle_accept-told f ret stored l s e)
      ∙ after_callback (f ret (told ret stored) s) l (run_calls (comes events)) (feed f events)
          (λ s'. run_calls-feed f events l s' e)

  -- A new acceptor that is given a callback and starts to listen, where the kernel does not refuse,
  -- listens on the descriptor that it was made with, and calls the callback once for each descriptor
  -- that comes in, in order, with the peer's address, also for a failure to accept one, with an address
  -- of no host; the program ends where a callback ends it, and nowhere else.
  pub life-feed :
      (fd : ℤ) (addr : SockAddress) (f : AcceptCallback S) (events : List (ℤ × SockAddress)) (s : S)
      → (l : Listener S) × (life fd addr
            (pos 0)
            (sets_accept_callback (some f) ∷ starts_listen (pos 0) ∷ comes events)
            s
          ≡ (feed f events s >>= λ s'. returns (l, s')))
        × Listens fd addr l.acceptor
  unfolding life init run_calls run_call set_accept_callback start_listen bind listen Socket.init
      Channel.init change
  life-feed fd addr f events s =
      let l : Listener S = record {
        acceptor = record {
          listen_sock = record {
            fd = fd;
            bound = true;
            listening = true;
            write_shut = false;
            read_shut = false;
            closed = false;
          };
          listen_channel = change enable_reading (Channel.init fd);
          handles = true;
          local_addr = addr;
        };
        accept_cb = some f;
      } in
      (
        l,
        run_calls-feed f events l s refl,
        record { own = (refl, refl); socket = (refl, refl); reads = (refl, refl); local = refl },
      )
