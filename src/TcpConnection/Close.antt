-- ===== src/TcpConnection/Close.antt =====
-- Reading, the end of the stream and closing.
use bounce.Prelude.{
  ℕ, ◌+◌, ◌≤◌, ◌≡◌, refl, ap, Bool, true, false, Option, none, some, List, [], ◌∷◌, ◌++◌, arith,
  length, ◌>>=◌,
}
use bounce.Prelude.Words.{max_size}
use bounce.Buffer.{Readv, Buffer, received, read_fd}
use bounce.Buffer.Inv.{IsValid as IsValidBuffer}
use bounce.Buffer.Append.{Appends}
use bounce.Buffer.Receive.{read_fd-Appends, read_fd-end}
use bounce.Prelude.Int.{ℤ}
use bounce.Channel.{pollhup, is_none_event, disable_all}
use bounce.TcpConnection.{
  is_disconnected, handle_events, TcpConnection, updates, Answer, Callbacks, disconnected, send,
  send_in_loop, shutdown, force_close, force_close_in_loop, handle_close, handle_read,
  change_channel, after_read, call, call_if_set,
}

abbrev pub call_message :
    Option (ℕ → TcpConnection → Option TcpConnection) → ℕ → TcpConnection → Option TcpConnection
call_message none time c = some c
call_message (some f) time c = f time c

-- A connection that is disconnected stays as it is, whatever is sent, shut down or closed, and from
-- whichever thread.
pub disconnected_stays :
    (cbs : Callbacks) (in_loop : Bool) (message : List ℕ) (a : Answer) (c : TcpConnection)
    → c.state ≡ disconnected
    → (send cbs in_loop message a c ≡ c)
      × (send_in_loop cbs message a c ≡ c)
      × (shutdown in_loop c ≡ c)
      × (force_close cbs in_loop c ≡ some c)
      × (force_close_in_loop cbs c ≡ some c)
unfolding send send_in_loop shutdown force_close force_close_in_loop
disconnected_stays cbs in_loop message a c e =
    (rw e refl, rw e refl, rw e refl, rw e refl, rw e refl)

-- A connection that is closed: what its callbacks see.
pub record Closed (c closed : TcpConnection) : Type 0 where
  pub state : closed.state ≡ disconnected
  pub silent : is_none_event closed.channel ≡ true
  pub told : closed.requests ≡ c.requests ++ updates 0 ∷ []
  pub output : closed.output_buffer ≡ c.output_buffer
  pub input : closed.input_buffer ≡ c.input_buffer

handle_close-Closed :
    (cbs : Callbacks) (c : TcpConnection)
    → (closed : TcpConnection) × Closed c closed
      × (handle_close cbs c ≡ (call_if_set cbs.connect_cb closed >>= call cbs.close_cb))
unfolding handle_close is_none_event change_channel
handle_close-Closed cbs c = (
  change_channel disable_all (record c { state = disconnected }),
  record { state = refl; silent = refl; told = refl; output = refl; input = refl },
  refl,
)

module _ (cbs : Callbacks) (c : TcpConnection) (open_ : is_disconnected c.state ≡ false) where
  force_close_in_loop-open : force_close_in_loop cbs c ≡ handle_close cbs c
  unfolding force_close_in_loop
  force_close_in_loop-open = rw (open_, force_close_in_loop) refl

  force_close-open : force_close cbs true c ≡ handle_close cbs c
  unfolding force_close force_close_in_loop handle_close
  force_close-open = rw (open_, force_close) refl

handle_read-end :
    (cbs : Callbacks) (time : ℕ) (c : TcpConnection)
    → IsValidBuffer c.input_buffer
    → handle_read cbs time (received []) c ≡ handle_close cbs c
unfolding handle_read after_read
handle_read-end cbs time c v =
    ap (λ (r : Buffer × ℤ × Option ℕ). after_read cbs time r.1 (record c { input_buffer = r.0 }))
      (read_fd-end c.input_buffer v)

handle_events-hang_up :
    (cbs : Callbacks) (time : ℕ) (r : Readv) (a : Answer) (c : TcpConnection)
    → handle_events cbs pollhup time r a c ≡ handle_close cbs c
unfolding handle_events
handle_events-hang_up cbs time r a c = refl

-- However an open connection with a valid input buffer closes, at the end of the stream, by a hang-up
-- with nothing left to read, or by `forceClose` in its loop's thread, it closes as `handleClose` does:
-- the connection is disconnected, watches for nothing, has told its loop so and keeps its buffers,
-- before the callback for connections runs and then the one for closing, and it crashes if there is
-- none for closing.
pub closes_alike :
    (cbs : Callbacks) (time : ℕ) (r : Readv) (a : Answer) (c : TcpConnection)
    → IsValidBuffer c.input_buffer
    → is_disconnected c.state ≡ false
    → (closed : TcpConnection) × Closed c closed
      × (handle_close cbs c ≡ (call_if_set cbs.connect_cb closed >>= call cbs.close_cb))
      × (handle_read cbs time (received []) c ≡ handle_close cbs c)
      × (handle_events cbs pollhup time r a c ≡ handle_close cbs c)
      × (force_close cbs true c ≡ handle_close cbs c)
      × (force_close_in_loop cbs c ≡ handle_close cbs c)
closes_alike cbs time r a c v open_ =
    let (closed, is_closed, runs) = handle_close-Closed cbs c in
    (
      closed,
      is_closed,
      runs,
      handle_read-end cbs time c v,
      handle_events-hang_up cbs time r a c,
      force_close-open cbs c open_,
      force_close_in_loop-open cbs c open_,
    )

module _ (cbs : Callbacks) (time : ℕ) (c : TcpConnection) (v : IsValidBuffer c.input_buffer) where
  -- Bytes that arrive are queued in the input buffer behind those that the program has not read,
  -- and the callback for messages, if there is one, then runs on a connection that is otherwise as
  -- it was.
  pub handle_read-message :
      (first : ℕ) (bytes : List ℕ)
      → length c.input_buffer.buffer + length (first ∷ bytes) ≤ max_size
      → (input : Buffer) × Appends (first ∷ bytes) c.input_buffer input
        × (handle_read cbs time (received (first ∷ bytes)) c
            ≡ call_message cbs.message_cb time (record c { input_buffer = input }))
  unfolding handle_read
  handle_read-message first bytes room =
      let r = read_fd-Appends (first ∷ bytes) v room in
      (
        (read_fd c.input_buffer (received (first ∷ bytes))).0,
        r.0,
        rw (r.1, after_read) (ground arith),
      )
