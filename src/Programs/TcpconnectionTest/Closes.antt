-- ===== src/Programs/TcpconnectionTest/Closes.antt =====
-- What becomes of a connection whose peer closes it.
use bounce.Prelude.{ℕ, ◌≡◌, refl, none, some, Option, List, [], ◌∷◌, ◌++◌}
use bounce.Prelude.Int.{pos}
use bounce.TcpConnection.{
  TcpConnection, Callbacks, connected, handle_close, connect_complete, change_channel, request,
}
use bounce.TcpConnection.Object.{
  Object, on_connection, construct, set_message_callback, set_connect_callback,
}
use bounce.Programs.TcpconnectionTest.{conn_cb, new_object, acceptor_cb}

handle_close-unset :
    (cbs : Callbacks) (c : TcpConnection)
    → cbs.connect_cb ≡ some conn_cb
    → cbs.close_cb ≡ none
    → handle_close cbs c ≡ none
unfolding handle_close
handle_close-unset cbs c set unset = rw (set, unset) refl

-- A new connection is completed and kept, but when it closes, whatever it has come to, the empty
-- callback for closing ends the program.
pub acceptor_cb-closes :
    {A : Type 0} (inet_pton : ℕ → List ℕ → Option (List ℕ)) (inet_ntop : ℕ → List ℕ → List ℕ)
    (size new_fd : ℕ) (connection_vec : List (Object A))
    → (o : Object A) × (acceptor_cb inet_pton inet_ntop size (pos new_fd) connection_vec
        ≡ some (connection_vec ++ o ∷ []))
      × (o.connection.state ≡ connected)
      × ((c : TcpConnection) → handle_close o.callbacks c ≡ none)
unfolding acceptor_cb on_connection connect_complete new_object construct set_message_callback
    set_connect_callback change_channel request
acceptor_cb-closes inet_pton inet_ntop size new_fd connection_vec =
    (_, refl, refl, λ c. handle_close-unset _ c refl refl)
