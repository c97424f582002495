-- ===== src/EventLoop/Loop/Tests.antt =====
-- A turn of a loop with one channel, whose reads are counted.
use bounce.Prelude.{
  ℕ, zero, suc, ◌+◌, ◌≡◌, refl, sym, ap, true, false, none, some, [], ◌∷◌, get_elem?, arith,
  some_eq,
}
use bounce.Prelude.Int.{pos}
use bounce.Channel.{Callbacks}
use bounce.Channel.Dispatch.{Flags, closed, failed, readable, writable, on_event}
use bounce.PollPoller.{PollFd, PollPoller, put_channel, store_revents}
use bounce.PollPoller.Inv.{owner, HasChannel, IsValid}
use bounce.PollPoller.Poll.{IgnoresNegative}
use bounce.PollPoller.Implements.{poll_poller}
use bounce.EventLoop.{Functor}
use bounce.EventLoop.Loop.{Loop, loop_turn}
use bounce.EventLoop.Loop.Handling.{
  Reported, end, came, KeepsRevents, handle_reported, after_tasks, loop_turn-Reported,
}

abbrev entry : PollFd
entry = record { fd = pos 5; events = 3; revents = 0 }

abbrev single : PollPoller
single = record {
  channels = put_channel (pos 5) (some 0) (λ _. none);
  pollfds = entry ∷ [];
  store = λ _. record { fd = pos 5; events = 3; revents = 0; index = 0 };
}

single-known : (n p : ℕ) → single.channels (pos n) ≡ some p → (n ≡ 5) × (p ≡ 0)
single-known n p h = ground arith

single-channel : (i : ℕ) (e : PollFd) → get_elem? single.pollfds i ≡ some e → HasChannel single i e
single-channel zero e h =
    (0, ap (λ (x : PollFd). single.channels (pos (owner x.fd))) (sym (some_eq h)), refl)
single-channel (suc i) e h = cc

single-IsValid : IsValid single
single-IsValid = record {
  keyed = λ n p h. ap pos (sym (single-known n p h).0);
  entry = λ n p h. (entry, refl, sym (single-known n p h).0);
  natural = λ n. refl;
  channel = single-channel;
}

-- The state is the number of reads.
abbrev handlers : ℕ → Callbacks (Loop PollPoller ℕ)
handlers p = record {
  read_cb = some (λ time l. record l { state = suc l.state });
  write_cb = none;
  close_cb = none;
  error_cb = none;
}

abbrev run : Functor → Loop PollPoller ℕ → Loop PollPoller ℕ
run f l = record l { state = l.state + f }

handlers-KeepsRevents : KeepsRevents handlers run
unfolding on_event
handlers-KeepsRevents p time closed l q = refl
handlers-KeepsRevents p time failed l q = refl
handlers-KeepsRevents p time readable l q = refl
handlers-KeepsRevents p time writable l q = refl

abbrev start : Loop PollPoller ℕ
start = record {
  looping = true;
  doing_the_tasks = false;
  poller = single;
  active_channels = [];
  cur_channel = none;
  task_vec = 10 ∷ [];
  state = 0;
}

abbrev input : Flags
input = record {
  in_ = true;
  pri = false;
  out = false;
  err = false;
  hup = false;
  nval = false;
  rdhup = false;
}

one-IgnoresNegative : IgnoresNegative (store_revents single.pollfds (1 ∷ []))
unfolding store_revents
one-IgnoresNegative zero m e h neg = cc (ap (λ (x : PollFd). x.fd) (some_eq h))
one-IgnoresNegative (suc j) m e h neg = cc

one-Reported : Reported single.channels (store_revents single.pollfds (1 ∷ [])) ((0, input) ∷ [])
unfolding store_revents
one-Reported = came 0 input (omega arith) refl refl end

loop_turn-Reported_example :
    (w : PollPoller) × IsValid w
    × (loop_turn poll_poller handlers run
          (record { ret = pos 1; revents = 1 ∷ []; recv_time = 100 })
          start
        ≡ some (
            after_tasks handlers run
              (record (handle_reported handlers run 100
                ((0, input) ∷ [])
                (record start { poller = w; active_channels = 0 ∷ [] })) { cur_channel = none })))
loop_turn-Reported_example =
    loop_turn-Reported handlers run handlers-KeepsRevents 1 100 (1 ∷ []) ((0, input) ∷ []) start
      single-IsValid (omega arith) one-IgnoresNegative one-Reported
