-- ===== src/Programs/Tests.antt =====
-- Runs of the programs, and their theorems at concrete connections.
use bounce.Prelude.{
  ℕ, ◌+◌, ◌≡◌, refl, inr, true, false, Option, none, some, List, [], ◌∷◌, ◌++◌, ◌>>=◌, arith,
  length,
}
use bounce.Prelude.Int.{ℤ, pos}
use bounce.SockAddress.{SockAddress, from_port, from_ip}
use bounce.Buffer
use bounce.Prelude.Words.{to_bytes, from_bytes}
use bounce.Channel.{is_writing}
use bounce.Buffer.{Buffer, readable_bytes}
use bounce.TcpConnection.{TcpConnection, connected, handle_close}
use bounce.TcpConnection.Inv.{stream}
use bounce.TcpConnection.Object.{Object, no_callbacks}
use bounce.TcpServer.{Connection}
use bounce.TcpServer.Objects.{Server, get_server_thread_number}
use bounce.Programs
use bounce.Programs.Echo
use bounce.Programs.Echo.{Event, receives, has_room, handle_each, arrived, takes}
use bounce.Programs.Echo.Answers.{IsReady, handle_each-Answers}
use bounce.Programs.BufferTest.{append_integers, get_rand_string_vector}
use bounce.Programs.TcpserverTest
use bounce.Programs.TcpconnectionTest.{acceptor_cb}
use bounce.Programs.TcpconnectionTest.Closes.{acceptor_cb-closes}

abbrev empty : Buffer
empty = record { init_size = 2; buffer = 0 ∷ 0 ∷ []; read_index = 0; write_index = 0 }

-- A connection that watches for reading.
abbrev open_ : TcpConnection
open_ = record {
  state = connected;
  channel = record { fd = pos 5; events = 3; revents = 0; index = 0 };
  input_buffer = empty;
  output_buffer = empty;
  wire = [];
  write_shut = false;
  requests = [];
}

-- The kernel takes one byte of the first three, and then what waits behind the second message.
abbrev events : List Event
events = receives 1 (2 ∷ 3 ∷ []) 1 ∷ receives 4 [] 9 ∷ has_room 2 ∷ has_room 9 ∷ []

open_-IsReady : IsReady (length (arrived events)) open_
unfolding arrived readable_bytes is_writing
open_-IsReady = record {
  valid = record {
    output = record { ordered = omega arith; within = omega arith; bounded = omega arith };
    watches = record { interest = record { reading = true; writing = false }; events = refl };
    waits = inr refl;
  };
  input = record { ordered = omega arith; within = omega arith; bounded = omega arith };
  read = refl;
  open_ = refl;
  room_in = omega arith;
  room_out = omega arith;
}

handle_each-Answers_example :
    (d : TcpConnection) × (handle_each no_callbacks 0 events open_ ≡ some d)
    × IsReady 0 d
    × (stream d ≡ stream open_ ++ arrived events)
handle_each-Answers_example = handle_each-Answers no_callbacks 0 events open_ open_-IsReady

-- The test of integers does not pass.
integers_fail : append_integers 8 ≡ false
unfolding append_integers Buffer.init to_bytes from_bytes
integers_fail = refl

random_texts : get_rand_string_vector (λ i. i) 0 2 3 ≡ (48 ∷ 49 ∷ 0 ∷ []) ∷ (50 ∷ 51 ∷ 0 ∷ []) ∷ []
unfolding get_rand_string_vector
random_texts = refl

-- An address is read as no bytes.
abbrev pton : ℕ → List ℕ → Option (List ℕ)
pton family text = none

abbrev ntop : ℕ → List ℕ → List ℕ
ntop family bytes = bytes

abbrev peer : SockAddress
unfolding from_port
peer = from_port 4242 true false

abbrev make : ℕ → ℤ → Server ℕ ℕ → Option (Server ℕ ℕ)
make loop fd s = some s

abbrev conn : Connection
conn = record { address = 50; fd = pos 5; loop = 101 }

two_threads :
    (TcpserverTest.main pton ntop {A = ℕ} {S = ℕ} (takes 1) 1 (λ i. 101 + i) (pos 3) (pos 0) (pos 0)
      >>= λ s. some (get_server_thread_number s))
    ≡ some 2
unfolding TcpserverTest.main get_server_thread_number
two_threads = refl

-- The server of echo_bench after its start.
abbrev bench : Server ℕ ℕ
unfolding from_ip Echo.echo
bench = record {
  tcp_server = record {
    started = true;
    loop = 1;
    acceptor = record {
      listen_sock = record {
        fd = pos 3;
        bound = true;
        listening = true;
        write_shut = false;
        read_shut = false;
        closed = false;
      };
      listen_channel = record { fd = pos 3; events = 3; revents = 0; index = 0 };
      handles = true;
      local_addr = from_ip pton ntop Programs.localhost 9999 false;
    };
    thread_pool = record {
      started = true;
      thread_num = 3;
      next_loop_index = 0;
      loops = 101 ∷ 102 ∷ 103 ∷ [];
    };
    connection_map = λ _. none;
    posts = [];
  };
  thread_init_cb = none;
  connect_cb = none;
  message_cb = some (Echo.echo no_callbacks (takes 1));
  write_cb = none;
  error_cb = none;
  objects = λ _. none;
}

acceptor_closes :
    (o : Object ℕ) × (acceptor_cb pton ntop 1024 (pos 5) [] ≡ some (o ∷ []))
    × (o.connection.state ≡ connected)
    × ((c : TcpConnection) → handle_close o.callbacks c ≡ none)
acceptor_closes = acceptor_cb-closes pton ntop 1024 5 []
