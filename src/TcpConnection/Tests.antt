-- ===== src/TcpConnection/Tests.antt =====
-- Runs of a connection, and its theorems at concrete ones.
use bounce.Prelude.{ℕ, ◌≡◌, refl, inr, true, false, none, some, List, [], ◌∷◌, ◌++◌, arith, ◌>>=◌}
use bounce.Prelude.Int.{pos, negsuc}
use bounce.Buffer.{Buffer, received, readable_bytes, append}
use bounce.Buffer.Inv.{contents}
use bounce.Channel.{pollhup, is_writing}
use bounce.TcpConnection.{
  TcpConnection, ConnectState, connected, disconnecting, disconnected, Answer, Callbacks, updates,
  send_in_loop, force_close, force_close_in_loop, handle_close, handle_read, handle_write, call,
  call_if_set, epipe, handle_events,
}
use bounce.TcpConnection.Inv.{IsValid, stream}
use bounce.TcpConnection.Send.{Sends, send_in_loop-Sends, loses}
use bounce.TcpConnection.Write.{Writes, handle_write-Writes}
use bounce.TcpConnection.Stream.{Reach, here, sends, writes, Reach-stream}
use bounce.TcpConnection.Close.{Closed, closes_alike}

-- The program hears of everything but errors; the message callback drops nothing.
abbrev heard : Callbacks
heard = record {
  connect_cb = some some;
  message_cb = some (λ time c. some c);
  write_cb = some some;
  close_cb = some some;
  error_cb = none;
}

abbrev empty : Buffer
empty = record { init_size = 2; buffer = 0 ∷ 0 ∷ []; read_index = 0; write_index = 0 }

-- Bytes 8 and 9 wait.
abbrev waiting : Buffer
waiting = record { init_size = 2; buffer = 8 ∷ 9 ∷ []; read_index = 0; write_index = 2 }

abbrev connection : ConnectState → ℕ → Buffer → TcpConnection
connection state events output = record {
  state = state;
  channel = record { fd = pos 5; events = events; revents = 0; index = 0 };
  input_buffer = empty;
  output_buffer = output;
  wire = [];
  write_shut = false;
  requests = [];
}

abbrev open_ : TcpConnection
open_ = connection connected 3 empty

abbrev closing : TcpConnection
closing = connection disconnecting 7 waiting

abbrev gone : TcpConnection
gone = connection disconnected 0 empty

abbrev message : List ℕ
message = 1 ∷ 2 ∷ 3 ∷ []

abbrev took : ℕ → Answer
took n = record { ret = pos n; errno = 0 }

open-IsValid : IsValid open_
unfolding readable_bytes is_writing
open-IsValid = record {
  output = omega arith;
  watches = record { interest = record { reading = true; writing = false }; events = refl };
  waits = inr refl;
}

closing-IsValid : IsValid closing
unfolding readable_bytes is_writing
closing-IsValid = record {
  output = omega arith;
  watches = record { interest = record { reading = true; writing = true }; events = refl };
  waits = inr refl;
}

-- One byte of three goes out at once; the others wait, and the channel watches for writing.
partial_send :
    (send_in_loop heard message (took 1) open_).wire ≡ 1 ∷ []
    × (contents (send_in_loop heard message (took 1) open_).output_buffer ≡ 2 ∷ 3 ∷ [])
    × ((send_in_loop heard message (took 1) open_).requests ≡ updates 7 ∷ [])
unfolding send_in_loop is_writing readable_bytes append
partial_send = (refl, refl, refl)

broken_pipe : send_in_loop heard message (record { ret = negsuc 0; errno = epipe }) open_ ≡ open_
unfolding send_in_loop is_writing readable_bytes
broken_pipe = refl

-- A hang-up with nothing to read closes the connection.
hang_up : handle_events heard 16 0 (received []) (took 0) open_ ≡ handle_close heard open_
unfolding handle_events
hang_up = refl

send_in_loop-Sends_example :
    Sends message (took 1) open_ (send_in_loop heard message (took 1) open_)
send_in_loop-Sends_example =
    send_in_loop-Sends heard message (took 1) open-IsValid refl (omega arith) (omega arith)

handle_write-Writes_example : Writes closing (handle_write heard (took 1) closing)
handle_write-Writes_example = handle_write-Writes heard (took 1) closing-IsValid (omega arith)

-- Three bytes are sent, of which the kernel takes one at once and two later.
sent_later :
    Reach heard open_
      (handle_write heard (took 2) (send_in_loop heard message (took 1) open_))
      message
unfolding send_in_loop loses is_writing readable_bytes append
sent_later =
    writes (took 2) (sends message (took 1) here refl (omega arith) (omega arith)) (omega arith)

Reach-stream_example :
    IsValid (handle_write heard (took 2) (send_in_loop heard message (took 1) open_))
    × (stream (handle_write heard (took 2) (send_in_loop heard message (took 1) open_))
        ≡ stream open_ ++ message)
Reach-stream_example = Reach-stream open-IsValid sent_later

closes_alike_example :
    (closed : TcpConnection) × Closed open_ closed
    × (handle_close heard open_ ≡ (call_if_set heard.connect_cb closed >>= call heard.close_cb))
    × (handle_read heard 0 (received []) open_ ≡ handle_close heard open_)
    × (handle_events heard pollhup 0 (received []) (took 0) open_ ≡ handle_close heard open_)
    × (force_close heard true open_ ≡ handle_close heard open_)
    × (force_close_in_loop heard open_ ≡ handle_close heard open_)
closes_alike_example = closes_alike heard 0 (received []) (took 0) open_ open-IsValid.output refl
