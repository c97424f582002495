-- ===== src/Programs/Echo.antt =====
-- bounce/test/echo_bench.cc: the callback that sends back what arrives, which other programs have too.
pub mod Kept
pub mod Answers
use bounce.Prelude.{ℕ, ◌+◌, Bool, true, Option, none, some, List, [], ◌∷◌, ◌++◌, length, min, ◌>>=◌}
use bounce.Prelude.Int.{pos}
use bounce.Buffer.{read_all_as_string, received}
use bounce.Buffer.Inv.{contents}
use bounce.TcpConnection.{
  TcpConnection, Callbacks, Answer, ewouldblock, send, handle_read, handle_write,
}
use bounce.TcpConnection.Object.{MessageCallback}

-- `conn->send(buffer->readAllAsString())`, in the thread of the connection's loop. Of the callbacks
-- `send` looks at the one for writes alone.
unfoldable pub echo : Callbacks → Answer → MessageCallback
unfolding send
echo cbs a time c =
    let (message, rest) = read_all_as_string c.input_buffer in
    some (send cbs true message a (record c { input_buffer = rest }))

-- The callbacks `cbs`, with the echo for messages.
unfoldable pub echoing : Callbacks → Answer → Callbacks
unfolding echo
echoing cbs a = record cbs { message_cb = some (echo cbs a) }

-- The kernel takes `n` bytes.
abbrev pub takes : ℕ → Answer
takes n = record { ret = pos n; errno = ewouldblock }

-- At least one byte arrives, or the socket can take more; `room` is the most that it takes then.
pub data Event : Type 0 where
  receives : ℕ → List ℕ → ℕ → Event
  has_room : ℕ → Event

unfoldable pub handle_event : Callbacks → ℕ → Event → TcpConnection → Option TcpConnection
unfolding handle_read handle_write echoing
handle_event cbs time (receives first bytes room) c =
    handle_read (echoing cbs (takes (min room (1 + length bytes)))) time (received (first ∷ bytes))
      c
handle_event cbs time (has_room room) c =
    some (handle_write cbs (takes (min room (length (contents c.output_buffer)))) c)

unfoldable pub handle_each : Callbacks → ℕ → List Event → TcpConnection → Option TcpConnection
unfolding handle_event
handle_each cbs time [] c = some c
handle_each cbs time (e ∷ es) c = handle_event cbs time e c >>= handle_each cbs time es

-- The bytes that arrive, in order.
unfoldable pub arrived : List Event → List ℕ
arrived [] = []
arrived (receives first bytes room ∷ es) = first ∷ bytes ++ arrived es
arrived (has_room room ∷ es) = arrived es
