-- ===== src/TcpConnection/Types.antt =====
-- The data of a connection, and what its callbacks and its loop are asked for.
use bounce.Prelude.{ℕ, Bool, true, false, Option, none, some, List}
use bounce.Prelude.Int.{ℤ}
use bounce.Buffer.{Buffer}
use bounce.Channel.{Channel}

pub data ConnectState : Type 0 where
  connecting connected disconnecting disconnected : ConnectState

abbrev pub is_connected : ConnectState → Bool
is_connected connected = true
is_connected _ = false

abbrev pub is_disconnecting : ConnectState → Bool
is_disconnecting disconnecting = true
is_disconnecting _ = false

abbrev pub is_disconnected : ConnectState → Bool
is_disconnected disconnected = true
is_disconnected _ = false

-- A task for the loop: a bound function of the connection.
pub data Task : Type 0 where
  run_write_cb : Task
  run_send_in_loop : List ℕ → Task
  run_shutdown_in_loop : Task
  run_force_close_in_loop : Task

-- What a connection asks of its loop: `updateChannel` with the events of its channel,
-- `removeChannel`, or a task that is queued.
pub data Request : Type 0 where
  updates : ℕ → Request
  removes : Request
  queues : Task → Request

-- `wire` holds the bytes that `::send` has taken, and `write_shut` tells whether the socket is shut
-- down for writing.
pub record TcpConnection : Type 0 where
  pub state : ConnectState
  pub channel : Channel
  pub input_buffer : Buffer
  pub output_buffer : Buffer
  pub wire : List ℕ
  pub write_shut : Bool
  pub requests : List Request

-- The callbacks that a program sets; a callback may use the connection, and may crash.
pub record Callbacks : Type 0 where
  pub connect_cb : Option (TcpConnection → Option TcpConnection)
  pub message_cb : Option (ℕ → TcpConnection → Option TcpConnection)
  pub write_cb : Option (TcpConnection → Option TcpConnection)
  pub close_cb : Option (TcpConnection → Option TcpConnection)
  pub error_cb : Option (TcpConnection → Option TcpConnection)

-- `if (cb) cb(...)`, and `cb(...)` with no test.
abbrev pub call_if_set :
    Option (TcpConnection → Option TcpConnection) → TcpConnection → Option TcpConnection
call_if_set none c = some c
call_if_set (some f) c = f c

abbrev pub call :
    Option (TcpConnection → Option TcpConnection) → TcpConnection → Option TcpConnection
call none c = none
call (some f) c = f c

-- What `::send` returned, and `errno` after it.
pub record Answer : Type 0 where
  pub ret : ℤ
  pub errno : ℕ

abbrev pub ewouldblock : ℕ
ewouldblock = 11

abbrev pub epipe : ℕ
epipe = 32

abbrev pub econnreset : ℕ
econnreset = 104
