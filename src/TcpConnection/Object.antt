-- ===== src/TcpConnection/Object.antt =====
-- The class with all its members, and the calls of its public functions and of its channel.
pub mod Forward
pub mod Life
pub mod Uses
mod Tests
use bounce.Prelude.{ℕ, ◌<◌, Bool, true, false, Option, none, some, List, ◌>>=◌, if◌then◌else◌, ltb}
use bounce.Prelude.Int.{ℤ, pos, negsuc}
use bounce.Buffer.{Readv}
use bounce.SockAddress.{SockAddress, from_port, default_address}
use bounce.TcpConnection
use bounce.TcpConnection.{
  TcpConnection, ConnectState, Callbacks, Answer, is_connected, connect_complete,
  destroy_connection, send, send_in_loop, shutdown, shutdown_in_loop, force_close,
  force_close_in_loop, handle_events,
}

-- The bound callbacks of the types that the class names.
abbrev pub ConnectionCallback : Type 0
ConnectionCallback = TcpConnection → Option TcpConnection

abbrev pub MessageCallback : Type 0
MessageCallback = ℕ → TcpConnection → Option TcpConnection

-- `A` is the type of the object that `context_` holds, if any.
pub record Object (A : Type 0) : Type 0 where
  pub connection : TcpConnection
  pub callbacks : Callbacks
  pub local_addr : SockAddress
  pub peer_addr : SockAddress
  pub context : Option A

-- `getLocalAddr` and `getPeerAddr`, where `ret` is what `::getsockname` or `::getpeername` returned and
-- `stored` the address that it stored; where it fails, it stores nothing.
unfoldable pub get_addr : ℤ → SockAddress → SockAddress
unfolding from_port
get_addr (pos _) stored = stored
get_addr (negsuc _) stored = default_address

abbrev pub no_callbacks : Callbacks
no_callbacks = record {
  connect_cb = none;
  message_cb = none;
  write_cb = none;
  close_cb = none;
  error_cb = none;
}

module _ {A : Type 0} where
  -- The constructor; `size` is that of a new buffer.
  unfoldable pub construct : ℤ → ℕ → SockAddress → SockAddress → Object A
  unfolding TcpConnection.init
  construct fd size local peer = record {
    connection = TcpConnection.init fd size;
    callbacks = no_callbacks;
    local_addr = local;
    peer_addr = peer;
    context = none;
  }

  unfoldable pub get_fd : Object A → ℤ
  get_fd o = o.connection.channel.fd

  unfoldable pub is_open : Object A → Bool
  is_open o = is_connected o.connection.state

  unfoldable pub set_connect_callback : Option ConnectionCallback → Object A → Object A
  set_connect_callback cb o = record o { callbacks = record o.callbacks { connect_cb = cb } }

  unfoldable pub set_message_callback : Option MessageCallback → Object A → Object A
  set_message_callback cb o = record o { callbacks = record o.callbacks { message_cb = cb } }

  unfoldable pub set_write_complete_callback : Option ConnectionCallback → Object A → Object A
  set_write_complete_callback cb o = record o { callbacks = record o.callbacks { write_cb = cb } }

  unfoldable pub set_close_callback : Option ConnectionCallback → Object A → Object A
  set_close_callback cb o = record o { callbacks = record o.callbacks { close_cb = cb } }

  unfoldable pub set_error_callback : Option ConnectionCallback → Object A → Object A
  set_error_callback cb o = record o { callbacks = record o.callbacks { error_cb = cb } }

  unfoldable pub set_context : A → Object A → Object A
  set_context a o = record o { context = some a }

  unfoldable pub get_context : Object A → Option A
  get_context o = o.context

  -- An operation on the connection that may run callbacks.
  unfoldable pub on_connection :
      (Callbacks → TcpConnection → Option TcpConnection) → Object A → Option (Object A)
  on_connection f o = do c ← f o.callbacks o.connection; some (record o { connection = c })

-- The public functions that act on a connection, and the events that its channel reports. `in_loop`
-- tells whether the caller is in the loop's thread; the tasks that the loop runs are the functions
-- with `in_loop` in their names.
pub data Call : Type 0 where
  connects : Call
  destroys : Call
  sends : Bool → List ℕ → Answer → Call
  sends_in_loop : List ℕ → Answer → Call
  shuts_down : Bool → Call
  shuts_down_in_loop : Call
  closes : Bool → Call
  closes_in_loop : Call
  handles : ℕ → ℕ → Readv → Answer → Call

unfoldable pub act : Call → Callbacks → TcpConnection → Option TcpConnection
unfolding connect_complete destroy_connection send shutdown force_close handle_events
act connects cbs c = connect_complete cbs c
act destroys cbs c = destroy_connection cbs c
act (sends in_loop message a) cbs c = some (send cbs in_loop message a c)
act (sends_in_loop message a) cbs c = some (send_in_loop cbs message a c)
act (shuts_down in_loop) cbs c = some (shutdown in_loop c)
act shuts_down_in_loop cbs c = some (shutdown_in_loop c)
act (closes in_loop) cbs c = force_close cbs in_loop c
act closes_in_loop cbs c = force_close_in_loop cbs c
act (handles revents time r a) cbs c = handle_events cbs revents time r a c
