-- ===== src/TcpConnection.antt =====
-- bounce/tcp_connection.h and bounce/tcp_connection.cc: one connection, with its channel and its two
-- buffers. What the kernel answers to a call is an argument. A connection asks its loop for work
-- through `requests`, in the order of the calls; `in_loop` tells whether the caller runs in the
-- thread of that loop. `none` is a crash: a `std::function` that is empty is called.
pub mod Inv
pub mod Rest
pub mod Send
pub mod Write
pub mod Stream
pub mod Close
pub mod Object
mod Types
mod AtOnce
mod Tests
pub use Types.*
unfoldable pub use AtOnce.*
use bounce.Prelude.{
  ℕ, zero, suc, ◌+◌, ◌-◌, Bool, true, false, not, ◌&&◌, ◌||◌, Option, none, some, List, [], ◌∷◌,
  ◌++◌, length, take, drop, ltb, ◌==◌, if◌then◌else◌, ◌>>=◌,
}
use bounce.Prelude.Int.{ℤ, pos, negsuc}
use bounce.Buffer.{
  Buffer, Readv, append, peek, read_all_as_string, read_fd, readable_bytes, retrieve,
}
use bounce.Buffer
use bounce.Channel
use bounce.Channel.{
  Channel, Change, enable_reading, disable_writing, enable_writing, disable_all, change, is_writing,
}

unfoldable pub request : Request → TcpConnection → TcpConnection
request r c = record c { requests = c.requests ++ r ∷ [] }

-- `channel_->enableReading()` and its like: the change, and the `update` of the loop.
unfoldable pub change_channel : Change → TcpConnection → TcpConnection
unfolding request change
change_channel ch c =
    request (updates (change ch c.channel).events) (record c { channel = change ch c.channel })

unfoldable pub queue : Task → TcpConnection → TcpConnection
unfolding request
queue task c = request (queues task) c

-- `!channel_->isWriting() && output_buffer_.readableBytes() == 0`: nothing waits to be sent.
unfoldable pub is_free : TcpConnection → Bool
is_free c = not (is_writing c.channel) && readable_bytes c.output_buffer == 0

-- `if (!send_error && send_bytes > 0)`: what is left waits in the output buffer.
unfoldable pub buffer_rest : List ℕ → Tried → TcpConnection → TcpConnection
unfolding change_channel
buffer_rest message t c =
    let rest = take t.send_bytes (drop t.wrote_bytes message) in
    let c' = record c { output_buffer = append rest c.output_buffer } in
    if not t.send_error && ltb 0 t.send_bytes
    then (if is_writing c'.channel then c' else change_channel enable_writing c')
    else c

unfoldable pub shutdown_in_loop : TcpConnection → TcpConnection
shutdown_in_loop c = if is_writing c.channel then c else record c { write_shut = true }

unfoldable pub shutdown : Bool → TcpConnection → TcpConnection
unfolding shutdown_in_loop queue
shutdown in_loop c =
    let c' = record c { state = disconnecting } in
    if is_disconnected c.state
    then c
    else (if in_loop then shutdown_in_loop c' else queue run_shutdown_in_loop c')

-- `getSocketError`: what `::getsockopt` returned, the errno and the value that it stored.
unfoldable pub get_socket_error : ℤ → ℕ → ℕ → ℕ
get_socket_error (pos _) errno optval = optval
get_socket_error (negsuc _) errno optval = errno

-- The constructor, for the descriptor of the connection and the size of a new buffer. It binds the
-- callbacks of the channel to the handlers below, as `handle_events` does.
unfoldable pub init : ℤ → ℕ → TcpConnection
unfolding Buffer.init Channel.init
init fd size = record {
  state = connecting;
  channel = Channel.init fd;
  input_buffer = Buffer.init size;
  output_buffer = Buffer.init size;
  wire = [];
  write_shut = false;
  requests = [];
}

module _ (cbs : Callbacks) where
  -- `if (write_cb_) loop_->queueTaskInThread(...)`.
  unfoldable pub queue_write_cb : TcpConnection → TcpConnection
  unfolding queue
  queue_write_cb c = elim cbs.write_cb [ none ↦ c | some _ ↦ queue run_write_cb c ]

  -- The bytes that `::send` took go out, and a message that is done is reported.
  unfoldable pub note_sent : List ℕ → Tried → TcpConnection → TcpConnection
  unfolding queue_write_cb
  note_sent message t c =
      let c' = record c { wire = c.wire ++ take t.wrote_bytes message } in
      if t.complete then queue_write_cb c' else c'

  unfoldable pub send_in_loop : List ℕ → Answer → TcpConnection → TcpConnection
  unfolding is_free try_send note_sent buffer_rest
  send_in_loop message a c =
      let t = if is_free c then try_send (length message) a else not_tried (length message) in
      if is_disconnected c.state then c else buffer_rest message t (note_sent message t c)

  -- `loop_->doTaskInThread(...)`: at once in the loop's thread, and queued from any other.
  unfoldable pub send : Bool → List ℕ → Answer → TcpConnection → TcpConnection
  unfolding send_in_loop queue
  send in_loop message a c =
      if is_connected c.state
      then (if in_loop then send_in_loop message a c else queue (run_send_in_loop message) c)
      else c

  -- `send(Buffer&)`: the connection, and the buffer that is left.
  unfoldable pub send_buffer : Bool → Buffer → Answer → TcpConnection → TcpConnection × Buffer
  unfolding send
  send_buffer in_loop buffer a c =
      let (message, rest) = read_all_as_string buffer in
      if is_connected c.state then (send in_loop message a c, rest) else (c, buffer)

  unfoldable pub handle_close : TcpConnection → Option TcpConnection
  unfolding change_channel
  handle_close c = do
    let closed = change_channel disable_all (record c { state = disconnected })
    last_life ← call_if_set cbs.connect_cb closed
    call cbs.close_cb last_life

  unfoldable pub force_close_in_loop : TcpConnection → Option TcpConnection
  unfolding handle_close
  force_close_in_loop c = if is_disconnected c.state then some c else handle_close c

  unfoldable pub force_close : Bool → TcpConnection → Option TcpConnection
  unfolding force_close_in_loop queue
  force_close in_loop c =
      let c' = record c { state = disconnecting } in
      if is_disconnected c.state
      then some c
      else (if in_loop then force_close_in_loop c' else some (queue run_force_close_in_loop c'))

  unfoldable pub connect_complete : TcpConnection → Option TcpConnection
  unfolding change_channel
  connect_complete c =
      call cbs.connect_cb (change_channel enable_reading (record c { state = connected }))

  unfoldable pub destroy_connection : TcpConnection → Option TcpConnection
  unfolding request
  destroy_connection c = do
    c' ←
        if is_connected c.state
        then call_if_set cbs.connect_cb (record c { state = disconnected })
        else some c
    some (request removes c')

  -- The part of `handleRead` after `readFd` returned `ret`.
  unfoldable pub after_read : ℕ → ℤ → TcpConnection → Option TcpConnection
  unfolding handle_close
  after_read time (pos zero) c = handle_close c
  after_read time (pos (suc n)) c = elim cbs.message_cb [ none ↦ some c | some f ↦ f time c ]
  after_read time (negsuc n) c = some c

  unfoldable pub handle_read : ℕ → Readv → TcpConnection → Option TcpConnection
  unfolding after_read
  handle_read time r c =
      let (input, ret, _) = read_fd c.input_buffer r in
      after_read time ret (record c { input_buffer = input })

  -- The part of `handleWrite` for the case that all has been sent.
  unfoldable pub finish_write : TcpConnection → TcpConnection
  unfolding change_channel queue_write_cb shutdown_in_loop
  finish_write c =
      let c' = queue_write_cb (change_channel disable_writing c) in
      if is_disconnecting c'.state then shutdown_in_loop c' else c'

  -- `handleWrite` after `::send` of the output buffer took `n` bytes.
  unfoldable pub after_send : ℕ → TcpConnection → TcpConnection
  unfolding finish_write
  after_send n c =
      let c' = record c {
        wire = c.wire ++ take n (take (readable_bytes c.output_buffer) (peek c.output_buffer));
        output_buffer = retrieve n c.output_buffer;
      } in
      if readable_bytes c'.output_buffer == 0 then finish_write c' else c'

  unfoldable pub handle_write : Answer → TcpConnection → TcpConnection
  unfolding after_send
  handle_write a c =
      if is_writing c.channel
      then elim a.ret [ pos n ↦ if ltb 0 n then after_send n c else c | negsuc n ↦ c ]
      else c

  unfoldable pub handle_error : TcpConnection → Option TcpConnection
  handle_error c = call_if_set cbs.error_cb c

  -- The callbacks of the channel, where `r` is what `::readv` will deliver and `a` what `::send`
  -- will answer.
  unfoldable pub channel_callbacks : Readv → Answer → Channel.Callbacks (Option TcpConnection)
  unfolding Channel.set_read_callback Channel.set_write_callback Channel.set_close_callback
      Channel.set_error_callback
  channel_callbacks r a = Channel.set_error_callback (some (λ s. s >>= handle_error)) (
      Channel.set_close_callback (some (λ s. s >>= handle_close)) (
        Channel.set_write_callback (some (λ s. s >>= λ c. some (handle_write a c))) (
          Channel.set_read_callback (some (λ time s. s >>= handle_read time r))
            Channel.no_callbacks)))

  -- The channel of the connection handles the events that came.
  unfoldable pub handle_events : ℕ → ℕ → Readv → Answer → TcpConnection → Option TcpConnection
  unfolding Channel.handle_channel channel_callbacks
  handle_events revents time r a c =
      Channel.handle_channel (channel_callbacks r a) revents time (some c)
