-- ===== src/Programs/TcpconnectionTest.antt =====
-- bounce/test/tcpconnection_test.cc: connections without a server, which set no callback for closing.
pub mod Closes
use bounce.Prelude.{ℕ, ◌%◌, ◌^◌, Option, none, some, List, [], ◌∷◌, ◌++◌, true, false, ◌>>=◌}
use bounce.Prelude.Int.{ℤ, pos, negsuc}
use bounce.Buffer.{read_all_as_string}
use bounce.SockAddress.{SockAddress, from_port, from_ip}
use bounce.TcpConnection.{connect_complete}
use bounce.TcpConnection.Object.{
  Object, ConnectionCallback, MessageCallback, construct, set_connect_callback,
  set_message_callback, on_connection,
}

-- It only prints.
abbrev pub conn_cb : ConnectionCallback
conn_cb c = some c

-- It prints what was read.
unfoldable pub read_cb : MessageCallback
unfolding read_all_as_string
read_cb time c = some (record c { input_buffer = (read_all_as_string c.input_buffer).1 })

module _ {A : Type 0} (inet_pton : ℕ → List ℕ → Option (List ℕ))
    (inet_ntop : ℕ → List ℕ → List ℕ) where
  -- The object for a new descriptor, which is also the port of the peer's address.
  unfoldable pub new_object : ℕ → ℕ → Object A
  unfolding from_port from_ip construct set_message_callback set_connect_callback read_cb
  new_object size new_fd =
      let local = from_port 9281 true false in
      let peer = from_ip inet_pton inet_ntop [] (new_fd % 2 ^ 16) false in
      set_connect_callback (some conn_cb)
        (set_message_callback (some read_cb) (construct (pos new_fd) size local peer))

  -- `acceptor_cb`, where `ret` is what `::accept4` returned and `size` that of a new buffer.
  unfoldable pub acceptor_cb : ℕ → ℤ → List (Object A) → Option (List (Object A))
  unfolding new_object on_connection connect_complete
  acceptor_cb size (negsuc _) connection_vec = some connection_vec
  acceptor_cb size (pos new_fd) connection_vec = do
    conn ← on_connection connect_complete (new_object size new_fd)
    some (connection_vec ++ conn ∷ [])
