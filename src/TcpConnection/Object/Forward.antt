-- ===== src/TcpConnection/Object/Forward.antt =====
-- The state of a connection moves forward only, as long as its loop's thread makes the calls.
use bounce.Prelude.{
  ℕ, ◌≤◌, ◌≡◌, refl, sym, ap, Bool, true, false, Option, none, some, List, arith, some_eq, ◌>>=◌,
  subst, if◌then◌else◌,
}
use bounce.Channel.{disable_all}
use bounce.TcpConnection.{
  TcpConnection, ConnectState, connecting, connected, disconnecting, disconnected, Callbacks,
  Answer, is_disconnected, call_if_set, call, request, change_channel, queue, buffer_rest,
  note_sent, queue_write_cb, send_in_loop, shutdown, shutdown_in_loop, handle_close, force_close,
  force_close_in_loop, run_force_close_in_loop, finish_write, after_send, handle_write,
}
use bounce.TcpConnection.Object.{}

-- How far a connection has come.
unfoldable pub rank : ConnectState → ℕ
rank connecting = 0
rank connected = 1
rank disconnecting = 2
rank disconnected = 3

abbrev pub Forward : TcpConnection → TcpConnection → Type 0
Forward c c' = rank c.state ≤ rank c'.state

abbrev pub Advances : (TcpConnection → Option TcpConnection) → Type 0
Advances f = (c c' : TcpConnection) → f c ≡ some c' → Forward c c'

-- The callbacks that are set move a connection forward only.
pub record CallbacksAdvance (cbs : Callbacks) : Type 0 where
  pub connect : Advances (call_if_set cbs.connect_cb)
  pub message :
      (time : ℕ) (f : ℕ → TcpConnection → Option TcpConnection)
      → cbs.message_cb ≡ some f
      → Advances (f time)
  pub close : Advances (call_if_set cbs.close_cb)
  pub error : Advances (call_if_set cbs.error_cb)

pub call-Advances :
    (o : Option (TcpConnection → Option TcpConnection))
    → Advances (call_if_set o)
    → Advances (call o)
call-Advances none a c c' e = cc
call-Advances (some f) a c c' e = a c c' e

-- One operation after another.
pub then-Advances :
    (f g : TcpConnection → Option TcpConnection)
    → Advances f
    → Advances g
    → Advances (λ c. f c >>= g)
then-Advances f g a b c c' e = by_first (f c) refl e
  where
    by_first : (o : Option TcpConnection) → f c ≡ o → (o >>= g) ≡ some c' → Forward c c'
    by_first none h e' = cc
    by_first (some d) h e' = omega (arith, a c d h, b d c' e')

module _ (cbs : Callbacks) where
  pub send_in_loop-state :
      (message : List ℕ) (a : Answer) (c : TcpConnection)
      → (send_in_loop cbs message a c).state ≡ c.state
  unfolding send_in_loop buffer_rest note_sent queue_write_cb queue request change_channel
  send_in_loop-state message a c = ground arith

  pub handle_write-state : (a : Answer) (c : TcpConnection) → (handle_write cbs a c).state ≡ c.state
  unfolding handle_write after_send finish_write queue_write_cb queue request change_channel
      shutdown_in_loop
  handle_write-state a c = ground arith

pub rank-le : (s : ConnectState) → rank s ≤ 3
unfolding rank
rank-le connecting = omega arith
rank-le connected = omega arith
rank-le disconnecting = omega arith
rank-le disconnected = omega arith

rank-open : (s : ConnectState) → is_disconnected s ≡ false → rank s ≤ 2
unfolding rank
rank-open connecting h = omega arith
rank-open connected h = omega arith
rank-open disconnecting h = omega arith
rank-open disconnected h = cc

-- A function that returns, and keeps the state or moves it forward.
pub total-Advances :
    (f : TcpConnection → TcpConnection)
    → ((c : TcpConnection) → Forward c (f c))
    → Advances (λ c. some (f c))
total-Advances f a c c' e = subst (λ d. Forward c d) (some_eq e) (a c)

pub same-Forward : (c c' : TcpConnection) → c'.state ≡ c.state → Forward c c'
same-Forward c c' e = omega (arith, ap rank e)

pub if-Advances :
    (test : TcpConnection → Bool) (f g : TcpConnection → Option TcpConnection)
    → Advances f
    → Advances g
    → Advances (λ c. if test c then f c else g c)
if-Advances test f g a b c c' e = by_test (test c) e
  where
    by_test : (t : Bool) → (if t then f c else g c) ≡ some c' → Forward c c'
    by_test true h = a c c' h
    by_test false h = b c c' h

module _ (cbs : Callbacks) (adv : CallbacksAdvance cbs) where
  pub handle_close-Advances : Advances (handle_close cbs)
  unfolding handle_close change_channel request rank
  handle_close-Advances =
      then-Advances (λ c. some (change_channel disable_all (record c { state = disconnected })))
        (λ c. call_if_set cbs.connect_cb c >>= call cbs.close_cb)
        (total-Advances _ (λ c. rank-le c.state))
        (then-Advances (call_if_set cbs.connect_cb) (call cbs.close_cb) adv.connect
          (call-Advances cbs.close_cb adv.close))

  pub force_close_in_loop-Advances : Advances (force_close_in_loop cbs)
  unfolding force_close_in_loop
  force_close_in_loop-Advances =
      if-Advances (λ c. is_disconnected c.state) some (handle_close cbs)
        (total-Advances (λ c. c) (λ c. same-Forward c c refl)) handle_close-Advances

  pub shutdown_in_loop-Forward : (c : TcpConnection) → Forward c (shutdown_in_loop c)
  unfolding shutdown_in_loop
  shutdown_in_loop-Forward c = ground arith

  pub shutdown-Forward : (in_loop : Bool) (c : TcpConnection) → Forward c (shutdown in_loop c)
  unfolding shutdown shutdown_in_loop queue request rank
  shutdown-Forward in_loop c = ground (arith, rank-open c.state)

  pub force_close-Advances : (in_loop : Bool) → Advances (force_close cbs in_loop)
  unfolding force_close force_close_in_loop queue request rank
  force_close-Advances in_loop c c' e = by_state (is_disconnected c.state) refl e
    where
      d : TcpConnection
      d = record c { state = disconnecting }

      by_state :
          (b : Bool)
          → is_disconnected c.state ≡ b
          → (if b
              then some c
              else (if in_loop
                  then force_close_in_loop cbs d
                  else some (queue run_force_close_in_loop d)))
            ≡ some c'
          → Forward c c'
      by_state true gone h =
          same-Forward c c' (ap (λ (x : TcpConnection). x.state) (sym (some_eq h)))
      by_state false open_ h = by_thread in_loop h
        where
          by_thread :
              (b : Bool)
              → (if b then force_close_in_loop cbs d else some (queue run_force_close_in_loop d))
                ≡ some c'
              → Forward c c'
          by_thread true h' =
              omega (arith, rank-open c.state open_, force_close_in_loop-Advances d c' h')
          by_thread false h' = omega (
            arith,
            rank-open c.state open_,
            ap (λ (x : TcpConnection). rank x.state) (some_eq h'),
          )
