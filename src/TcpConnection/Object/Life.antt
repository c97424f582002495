-- ===== src/TcpConnection/Object/Life.antt =====
-- The state of a connection over any sequence of calls in its loop's thread.
use bounce.Prelude.{
  ℕ, zero, suc, ◌≡◌, refl, sym, ap, Bool, true, false, Option, none, some, List, arith, some_eq,
  ◌>>=◌, if◌then◌else◌,
}
use bounce.Prelude.Int.{ℤ, pos, negsuc}
use bounce.Buffer.{Buffer, Readv, read_fd}
use bounce.Channel
use bounce.Channel.{handle_channel, enable_reading}
use bounce.TcpConnection.{
  TcpConnection, connecting, disconnected, Callbacks, Answer, is_connected, call_if_set, call,
  request, removes, queue, send_in_loop, send, shutdown, shutdown_in_loop, connect_complete,
  destroy_connection, after_read, handle_read, handle_write, handle_close, handle_error,
  channel_callbacks, handle_events,
}
use bounce.TcpConnection.Object.{
  Call, connects, destroys, sends, sends_in_loop, shuts_down, shuts_down_in_loop, closes,
  closes_in_loop, handles, act,
}
use bounce.TcpConnection.Object.Forward.{
  rank, rank-le, Forward, Advances, CallbacksAdvance, then-Advances, total-Advances, same-Forward,
  if-Advances, send_in_loop-state, handle_write-state, handle_close-Advances,
  force_close_in_loop-Advances, shutdown_in_loop-Forward, shutdown-Forward, force_close-Advances,
}

pub send-Forward :
    (cbs : Callbacks) (in_loop : Bool) (message : List ℕ) (a : Answer) (c : TcpConnection)
    → Forward c (send cbs in_loop message a c)
unfolding send queue request
send-Forward cbs in_loop message a c =
    same-Forward c (send cbs in_loop message a c)
      (ground (arith, send_in_loop-state cbs message a c))

module _ (cbs : Callbacks) (adv : CallbacksAdvance cbs) where
  -- `connectComplete` of a new connection.
  connect_complete-Forward :
      (c c' : TcpConnection)
      → c.state ≡ connecting
      → connect_complete cbs c ≡ some c'
      → Forward c c'
  unfolding rank
  connect_complete-Forward c c' fresh e = omega (arith, ap rank fresh)

  destroy_connection-Advances : Advances (destroy_connection cbs)
  unfolding destroy_connection request rank
  destroy_connection-Advances =
      then-Advances
        (λ c.
          if is_connected c.state
          then call_if_set cbs.connect_cb (record c { state = disconnected })
          else some c)
        (λ c. some (request removes c))
        (if-Advances (λ c. is_connected c.state)
          (λ c. call_if_set cbs.connect_cb (record c { state = disconnected })) some
          (then-Advances (λ c. some (record c { state = disconnected }))
            (call_if_set cbs.connect_cb) (total-Advances _ (λ c. rank-le c.state)) adv.connect)
          (total-Advances (λ c. c) (λ c. same-Forward c c refl)))
        (total-Advances (request removes) (λ c. same-Forward c (request removes c) refl))

  after_read-Advances : (time : ℕ) (ret : ℤ) → Advances (after_read cbs time ret)
  unfolding after_read
  after_read-Advances time (pos zero) c c' e = handle_close-Advances cbs adv c c' e
  after_read-Advances time (pos (suc n)) c c' e = by_callback cbs.message_cb refl e
    where
      by_callback :
          (o : Option (ℕ → TcpConnection → Option TcpConnection))
          → cbs.message_cb ≡ o
          → elim o [ none ↦ some c | some f ↦ f time c ] ≡ some c'
          → Forward c c'
      by_callback none h e' =
          same-Forward c c' (ap (λ (x : TcpConnection). x.state) (sym (some_eq e')))
      by_callback (some f) h e' = adv.message time f h c c' e'
  after_read-Advances time (negsuc n) c c' e =
      total-Advances (λ c. c) (λ c. same-Forward c c refl) c c' e

  handle_read-Advances : (time : ℕ) (r : Readv) → Advances (handle_read cbs time r)
  unfolding handle_read
  handle_read-Advances time r c c' e =
      let done : Buffer × ℤ × Option ℕ = read_fd c.input_buffer r in
      after_read-Advances time done.1 (record c { input_buffer = done.0 }) c' e

  -- A callback of the channel, over what the callbacks before it left.
  abbrev Steps : (Option TcpConnection → Option TcpConnection) → Type 0
  Steps g =
      (s : Option TcpConnection) (c' : TcpConnection)
      → g s ≡ some c'
      → (c : TcpConnection) × (s ≡ some c) × Forward c c'

  bind-Steps : (f : TcpConnection → Option TcpConnection) → Advances f → Steps (λ s. s >>= f)
  bind-Steps f a none c' e = cc
  bind-Steps f a (some c) c' e = (c, refl, a c c' e)

  id-Steps : Steps (λ s. s)
  id-Steps s c' e = (c', e, omega arith)

  if-Steps :
      (b : Bool) (g : Option TcpConnection → Option TcpConnection)
      → Steps g
      → Steps (λ s. if b then g s else s)
  if-Steps true g a = a
  if-Steps false g a = id-Steps

  then-Steps :
      (g h : Option TcpConnection → Option TcpConnection) → Steps g → Steps h → Steps (λ s. h (g s))
  then-Steps g h a b s c' e =
      let (d, at, second) = b (g s) c' e in
      let (c, from, first) = a s d at in (c, from, omega arith)

  module _ (revents time : ℕ) (r : Readv) (a : Answer) where
    abbrev cb : Channel.Callbacks (Option TcpConnection)
    cb = channel_callbacks cbs r a

    closing : Steps (Channel.call cb.close_cb)
    unfolding channel_callbacks
    closing = bind-Steps (handle_close cbs) (handle_close-Advances cbs adv)

    failing : Steps (Channel.call cb.error_cb)
    unfolding channel_callbacks handle_error
    failing = bind-Steps (handle_error cbs) adv.error

    reading : Steps (Channel.call_read cb.read_cb time)
    unfolding channel_callbacks
    reading = bind-Steps (handle_read cbs time r) (handle_read-Advances time r)

    writing : Steps (Channel.call cb.write_cb)
    unfolding channel_callbacks
    writing =
        bind-Steps (λ c. some (handle_write cbs a c))
          (total-Advances (handle_write cbs a)
            (λ c. same-Forward c (handle_write cbs a c) (handle_write-state cbs a c)))

    handle_channel-Steps : Steps (handle_channel cb revents time)
    unfolding handle_channel
    handle_channel-Steps = then-Steps _ _ (if-Steps _ _ closing) (
        then-Steps _ _ (if-Steps _ _ failing)
          (then-Steps _ _ (if-Steps _ _ reading) (if-Steps _ _ writing)))

    handle_events-Advances : Advances (handle_events cbs revents time r a)
    unfolding handle_events
    handle_events-Advances c c' e =
        let (d, at, forward) = handle_channel-Steps (some c) c' e in
        omega (arith, ap (λ (x : TcpConnection). rank x.state) (some_eq at))

  -- Every call but `connectComplete`, which is made once, moves any connection forward.
  pub act-Forward :
      (call : Call) (c c' : TcpConnection)
      → (call ≡ connects → c.state ≡ connecting)
      → act call cbs c ≡ some c'
      → Forward c c'
  unfolding act
  act-Forward connects c c' fresh e = connect_complete-Forward c c' (fresh refl) e
  act-Forward destroys c c' fresh e = destroy_connection-Advances c c' e
  act-Forward (sends in_loop message a) c c' fresh e =
      total-Advances (send cbs in_loop message a) (send-Forward cbs in_loop message a) c c' e
  act-Forward (sends_in_loop message a) c c' fresh e =
      total-Advances (send_in_loop cbs message a)
        (λ d. same-Forward d (send_in_loop cbs message a d) (send_in_loop-state cbs message a d)) c
        c' e
  act-Forward (shuts_down in_loop) c c' fresh e =
      total-Advances (shutdown in_loop) (shutdown-Forward cbs adv in_loop) c c' e
  act-Forward shuts_down_in_loop c c' fresh e =
      total-Advances shutdown_in_loop (shutdown_in_loop-Forward cbs adv) c c' e
  act-Forward (closes in_loop) c c' fresh e = force_close-Advances cbs adv in_loop c c' e
  act-Forward closes_in_loop c c' fresh e = force_close_in_loop-Advances cbs adv c c' e
  act-Forward (handles revents time r a) c c' fresh e =
      handle_events-Advances revents time r a c c' e

  -- Calls of a connection, one after another, of which `connectComplete` finds it new.
  pub data Calls (c : TcpConnection) : TcpConnection → Type 0 where
    none_made : Calls c c
    then_call :
        {d e : TcpConnection} (call : Call)
        → Calls c d
        → (call ≡ connects → d.state ≡ connecting)
        → act call cbs d ≡ some e
        → Calls c e

  -- Where the callbacks move a connection forward only, and `connectComplete` is called while the
  -- connection is new, any sequence of calls in its loop's thread moves its state forward: from
  -- connecting over connected and disconnecting to disconnected.
  pub Calls-Forward : {c d : TcpConnection} → Calls c d → Forward c d
  Calls-Forward none_made = omega arith
  Calls-Forward (then_call {d} {e} call calls fresh done) =
      omega (arith, Calls-Forward calls, act-Forward call d e fresh done)
