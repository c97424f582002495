-- ===== src/TcpServer/Objects/Quiet.antt =====
-- What the functions of a connection do to its object where the callbacks leave it as it is.
use mathlib.Core.List.{append_assoc}
use bounce.Prelude.{
  ℕ, ◌≡◌, refl, ap, ◌∙◌, Option, some, List, [], ◌∷◌, ◌++◌, ==_refl, if◌then◌else◌, ◌>>=◌,
}
use bounce.Channel.{enable_reading, disable_all}
use bounce.TcpConnection
use bounce.TcpConnection.{
  TcpConnection, Callbacks, connected, disconnected, Request, updates, removes, change_channel,
  request, call_if_set, connect_complete, destroy_connection, handle_close,
}
use bounce.TcpConnection.Object.{Object, ConnectionCallback, on_connection}
use bounce.TcpServer.{}
use bounce.TcpServer.Connections.{}
use bounce.TcpServer.Objects.{Server, put_object, run_at_object}

pub put_object_self {ℓ} :
    {B : Type ℓ} (p : ℕ) (o : B) (objects : ℕ → Option B) → put_object p o objects p ≡ some o
put_object_self p o objects = ap (λ b. if b then some o else objects p) (==_refl p)

-- The callback for connections is set, and leaves them as they are.
abbrev pub Quiet : Option ConnectionCallback → Type 0
Quiet cb = (f : ConnectionCallback) × (cb ≡ some f) × ((c : TcpConnection) → f c ≡ some c)

-- An object whose connection watches for reading, and one that is closed.
unfoldable pub completed : TcpConnection → TcpConnection
unfolding change_channel
completed c = change_channel enable_reading (record c { state = connected })

unfoldable pub ended : TcpConnection → TcpConnection
unfolding change_channel
ended c = change_channel disable_all (record c { state = disconnected })

module _ (cbs : Callbacks) (quiet : Quiet cbs.connect_cb) where
  pub connect_complete-quiet : (c : TcpConnection) → connect_complete cbs c ≡ some (completed c)
  unfolding connect_complete completed
  connect_complete-quiet c =
      ap (λ o. TcpConnection.call o (completed c)) quiet.1 ∙ quiet.2 (completed c)

  pub handle_close-quiet :
      (c : TcpConnection) → cbs.close_cb ≡ some some → handle_close cbs c ≡ some (ended c)
  unfolding handle_close ended
  handle_close-quiet c closes =
      ap (λ o. call_if_set o (ended c) >>= TcpConnection.call cbs.close_cb) quiet.1
      ∙ ap (λ o. o >>= TcpConnection.call cbs.close_cb) (quiet.2 (ended c))
      ∙ ap (λ o. TcpConnection.call o (ended c)) closes

pub destroy_connection-ended :
    (cbs : Callbacks) (c : TcpConnection)
    → destroy_connection cbs (ended c) ≡ some (request removes (ended c))
unfolding destroy_connection ended
destroy_connection-ended cbs c = refl

module _ {A S : Type 0} where
  pub run_at_object-runs :
      (address : ℕ) (f : Callbacks → TcpConnection → Option TcpConnection) (s : Server A S)
      (o : Object A) (c : TcpConnection)
      → s.objects address ≡ some o
      → f o.callbacks o.connection ≡ some c
      → run_at_object address f s
        ≡ some (record s { objects = put_object address (record o { connection = c }) s.objects })
  unfolding run_at_object on_connection
  run_at_object-runs address f s o c there runs = rw (there, run_at_object, runs) refl

pub append_three {ℓ} :
    {B : Type ℓ} (l : List B) (a b c : B)
    → ((l ++ a ∷ []) ++ b ∷ []) ++ c ∷ [] ≡ l ++ a ∷ b ∷ c ∷ []
append_three l a b c =
    ap (λ m. m ++ c ∷ []) (append_assoc l (a ∷ []) (b ∷ [])) ∙ append_assoc l (a ∷ b ∷ []) (c ∷ [])
