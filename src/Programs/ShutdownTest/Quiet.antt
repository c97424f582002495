-- ===== src/Programs/ShutdownTest/Quiet.antt =====
-- A server that shuts down sends nothing.
use bounce.Prelude.{
  ℕ, ◌+◌, ◌≤◌, ◌≡◌, refl, ap, ◌∙◌, true, some, List, [], ◌∷◌, arith, length, length-replicate,
  ◌>>=◌,
}
use bounce.Prelude.Int.{ℤ}
use bounce.Prelude.Words.{max_size}
use bounce.Buffer.{Buffer, read_all_as_string}
use bounce.Buffer
use bounce.Buffer.Inv.{IsValid, contents}
use bounce.Buffer.Refine.{read_all_as_string_lem}
use bounce.Channel.{is_writing}
use bounce.TcpConnection
use bounce.TcpConnection.{
  TcpConnection, Answer, disconnecting, connect_complete, send, change_channel, request, shutdown,
  shutdown_in_loop,
}
use bounce.TcpConnection.Close.{handle_read-message}
use bounce.Programs.Echo.{echo}
use bounce.Programs.ShutdownTest.{callbacks, conn_cb, read_cb, other_callbacks, receive_each}

-- The bytes of the messages.
unfoldable pub total : List (ℕ × List ℕ × Answer) → ℕ
total [] = 0
total (m ∷ ms) = length (m.0 ∷ m.1) + total ms

-- The socket is shut down for writing and nothing was or will be sent; what arrived has been read.
-- The input has room for `n` bytes.
pub record IsQuiet (n : ℕ) (c : TcpConnection) : Type 0 where
  pub closing : c.state ≡ disconnecting
  pub shut : c.write_shut ≡ true
  pub sent : c.wire ≡ []
  pub waits : contents c.output_buffer ≡ []
  pub input : IsValid c.input_buffer
  pub read : contents c.input_buffer ≡ []
  pub room : length c.input_buffer.buffer + n ≤ max_size

connect_complete-IsQuiet :
    (a : Answer) (fd : ℤ) (size n : ℕ)
    → size + n ≤ max_size
    → (c : TcpConnection) × (connect_complete (callbacks a) (TcpConnection.init fd size) ≡ some c)
      × IsQuiet n c
unfolding TcpConnection.init connect_complete callbacks conn_cb shutdown shutdown_in_loop
    change_channel request Buffer.init is_writing
connect_complete-IsQuiet a fd size n room = (
  _,
  refl,
  record {
    closing = refl;
    shut = refl;
    sent = refl;
    waits = refl;
    input = record {
      ordered = omega arith;
      within = omega arith;
      bounded = omega (arith, room, length-replicate {A = ℕ} size 0);
    };
    read = refl;
    room = omega (arith, room, length-replicate {A = ℕ} size 0);
  },
)

handle_read-IsQuiet :
    (a : Answer) (time n first : ℕ) (bytes : List ℕ) (c : TcpConnection)
    → IsQuiet (length (first ∷ bytes) + n) c
    → (d : TcpConnection) × (TcpConnection.handle_read
          (callbacks a)
          time
          (Buffer.received (first ∷ bytes))
          c
        ≡ some d)
      × IsQuiet n d
unfolding callbacks read_cb echo
handle_read-IsQuiet a time n first bytes c q =
    let (input, appends, runs) =
      handle_read-message (callbacks a) time c q.input first bytes (omega (arith, q.room)) in
    let taken = read_all_as_string_lem appends.valid in
    let d = record c { input_buffer = (read_all_as_string input).1 } in
    (
      d,
      runs ∙ ap some (send-closing a (read_all_as_string input).0 d q.closing),
      record {
        closing = q.closing;
        shut = q.shut;
        sent = q.sent;
        waits = q.waits;
        input = taken.2;
        read = taken.1;
        room = omega (arith, q.room, appends.growth, ap length taken.3);
      },
    )
  where
    send-closing :
        (a : Answer) (message : List ℕ) (d : TcpConnection)
        → d.state ≡ disconnecting
        → send other_callbacks true message a d ≡ d
    send-closing a message d e = rw (e, send) refl

handle_reads-IsQuiet :
    (time : ℕ) (ms : List (ℕ × List ℕ × Answer)) (c : TcpConnection)
    → IsQuiet (total ms) c
    → (d : TcpConnection) × (receive_each time ms c ≡ some d) × IsQuiet 0 d
unfolding receive_each total
handle_reads-IsQuiet time [] c q = (c, refl, q)
handle_reads-IsQuiet time (m ∷ ms) c q =
    let (d, one, quiet) = handle_read-IsQuiet m.2 time (total ms) m.0 m.1 c q in
    let (e, others, still) = handle_reads-IsQuiet time ms d quiet in
    (e, ap (λ o. o >>= receive_each time ms) one ∙ others, still)

-- Whatever arrives on a new connection of the program, which shuts it down as it is completed, it is
-- read and nothing is sent back, where a new buffer's storage with all that arrives fits a vector.
pub receive_each-IsQuiet :
    (a : Answer) (fd : ℤ) (size time : ℕ) (ms : List (ℕ × List ℕ × Answer))
    → size + total ms ≤ max_size
    → (c : TcpConnection) × ((connect_complete (callbacks a) (TcpConnection.init fd size)
          >>= receive_each time ms)
        ≡ some c)
      × IsQuiet 0 c
receive_each-IsQuiet a fd size time ms room =
    let (c, complete, quiet) = connect_complete-IsQuiet a fd size (total ms) room in
    let (d, runs, still) = handle_reads-IsQuiet time ms c quiet in
    (d, ap (λ o. o >>= receive_each time ms) complete ∙ runs, still)
