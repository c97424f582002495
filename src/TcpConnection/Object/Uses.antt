-- ===== src/TcpConnection/Object/Uses.antt =====
-- The public functions of a connection, called in any order on a new one.
pub mod Kept
use bounce.Prelude.{
  ℕ, ◌≡◌, ◌≢◌, refl, sym, ap, subst, ◌∙◌, Bool, Option, none, some, List, [], ◌∷◌, arith, some_eq,
  ◌>>=◌, bind-some,
}
use bounce.Prelude.Int.{ℤ}
use bounce.Buffer.{Buffer, read_all_as_string}
use bounce.SockAddress.{SockAddress}
use bounce.TcpConnection.{TcpConnection, Callbacks, Answer, call_if_set, send_buffer}
use bounce.TcpConnection.Object.{
  Object, no_callbacks, ConnectionCallback, MessageCallback, Call, connects, construct,
  set_connect_callback, set_message_callback, set_write_complete_callback, set_close_callback,
  set_error_callback, set_context, on_connection, act,
}
use bounce.TcpConnection.Object.Forward.{Forward, Advances, CallbacksAdvance, same-Forward}
use bounce.TcpConnection.Object.Life.{act-Forward, send-Forward}

-- `A` is the type of the context object; a call on the connection itself `acts`.
pub data Use (A : Type 0) : Type 0 where
  sets_connect_callback : Option ConnectionCallback → Use A
  sets_message_callback : Option MessageCallback → Use A
  sets_write_complete_callback : Option ConnectionCallback → Use A
  sets_close_callback : Option ConnectionCallback → Use A
  sets_error_callback : Option ConnectionCallback → Use A
  acts : Call → Use A
  sends_buffer : Bool → Buffer → Answer → Use A
  sets_context : A → Use A

module _ {A : Type 0} where
  unfoldable pub run_use : Use A → Object A → Option (Object A)
  unfolding set_connect_callback set_message_callback set_write_complete_callback set_close_callback
      set_error_callback set_context on_connection act send_buffer
  run_use (sets_connect_callback cb) o = some (set_connect_callback cb o)
  run_use (sets_message_callback cb) o = some (set_message_callback cb o)
  run_use (sets_write_complete_callback cb) o = some (set_write_complete_callback cb o)
  run_use (sets_close_callback cb) o = some (set_close_callback cb o)
  run_use (sets_error_callback cb) o = some (set_error_callback cb o)
  run_use (acts call) o = on_connection (act call) o
  run_use (sends_buffer in_loop buffer a) o =
      some (record o { connection = (send_buffer o.callbacks in_loop buffer a o.connection).0 })
  run_use (sets_context a) o = some (set_context a o)

  unfoldable pub run_uses : List (Use A) → Object A → Option (Object A)
  unfolding run_use
  run_uses [] o = some o
  run_uses (u ∷ us) o = run_use u o >>= run_uses us

  -- The constructor, and then uses; `size` is that of a new buffer.
  unfoldable pub life : ℤ → ℕ → SockAddress → SockAddress → List (Use A) → Option (Object A)
  unfolding construct run_uses
  life fd size local peer us = run_uses us (construct fd size local peer)
