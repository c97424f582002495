-- ===== src/Connector.antt =====
-- bounce/connector.h and bounce/connector.cc: connections that the program opens. What `::socket`,
-- `::connect` and `::getsockopt` answer is an argument. `handed` lists the descriptors that the server
-- is given, `closed` those that are closed, and `errors` what the callback for errors is told.
pub mod Attempts
pub mod Accounts
pub mod Calls
mod Tests
use bounce.Prelude.{
  ℕ, zero, suc, Bool, true, false, not, ◌&&◌, Option, none, some, List, [], ◌∷◌, ◌++◌, ◌==◌,
  if◌then◌else◌,
}
use bounce.Prelude.Int.{ℤ, pos, negsuc, put_at}
use bounce.Channel
use bounce.Channel.{Channel, change, enable_writing}

-- `removed` lists the descriptors whose channels are taken from the loop, `tells` whether there is a
-- callback for errors.
pub record Connector : Type 0 where
  pub conn_map : ℤ → Option Channel
  pub handed : List ℤ
  pub closed : List ℤ
  pub removed : List ℤ
  pub errors : List ℕ
  pub tells : Bool

-- The constructor; the callback for errors is empty.
unfoldable pub init : Connector
init = record {
  conn_map = λ _. none;
  handed = [];
  closed = [];
  removed = [];
  errors = [];
  tells = false;
}

-- `setErrorCallback`, with an empty callback or not.
unfoldable pub set_error_callback : Bool → Connector → Connector
set_error_callback tells c = record c { tells = tells }

abbrev pub einprogress : ℕ
einprogress = 115

-- No errno and no failure of `getsockopt`.
unfoldable pub is_success : ℤ → ℕ → Bool
is_success (pos _) error = error == 0
is_success (negsuc _) error = false

-- `tcp_server_->setNewConnection(fd, addr)`.
unfoldable pub hand_over : ℤ → Connector → Connector
hand_over fd c = record c { handed = c.handed ++ fd ∷ [] }

-- The failure of a connection in `handleWrite`.
unfoldable pub give_up : ℤ → ℕ → Connector → Connector
give_up fd error c = record c {
  closed = c.closed ++ fd ∷ [];
  errors = if c.tells then c.errors ++ error ∷ [] else c.errors;
}

-- `handleWrite`, where `ret` and `error` are what `::getsockopt` returned and stored; `error` is 0 if
-- it stored nothing.
unfoldable pub handle_write : ℤ → ℤ → ℕ → Connector → Connector
unfolding is_success hand_over give_up
handle_write fd ret error c = elim (c.conn_map fd) [
  | none ↦ hand_over fd c
  | some _ ↦
      let c' = record c { conn_map = put_at fd none c.conn_map; removed = c.removed ++ fd ∷ [] } in
      if is_success ret error then hand_over fd c' else give_up fd error c'
]

-- `insert` of a map leaves an entry that is there.
unfoldable pub insert_channel : ℤ → Channel → (ℤ → Option Channel) → ℤ → Option Channel
insert_channel fd ch m = elim (m fd) [ none ↦ put_at fd (some ch) m | some _ ↦ m ]

-- `connectInLoop`, where `::connect` of the new socket `fd` returned 0 or not, with an errno.
unfoldable pub connect_in_loop : ℤ → Bool → ℕ → Connector → Connector
unfolding Channel.init change handle_write insert_channel
connect_in_loop fd connected errno c =
    if connected
    then handle_write fd (pos 0) 0 c
    else (if errno == einprogress
        then record c {
          conn_map = insert_channel fd (change enable_writing (Channel.init fd)) c.conn_map;
        }
        else c)

-- `connect`: the task for the loop, if the server has started.
unfoldable pub connect {ℓ} : {A : Type ℓ} → Bool → A → Option A
connect started addr = if not started then none else some addr
