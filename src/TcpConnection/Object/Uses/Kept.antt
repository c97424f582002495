-- ===== src/TcpConnection/Object/Uses/Kept.antt =====
-- What the uses of a connection keep.
use bounce.Prelude.{
  ℕ, ◌≡◌, ◌≢◌, refl, sym, ap, subst, ◌∙◌, Bool, Option, none, some, List, [], ◌∷◌, arith, some_eq,
  bind-some,
}
use bounce.Prelude.Int.{ℤ}
use bounce.Buffer.{Buffer, read_all_as_string}
use bounce.SockAddress.{SockAddress}
use bounce.TcpConnection.{TcpConnection, Callbacks, Answer, call_if_set, send_buffer}
use bounce.TcpConnection.Object.{
  Object, no_callbacks, connects, construct, set_connect_callback, set_message_callback,
  set_write_complete_callback, set_close_callback, set_error_callback, set_context, on_connection,
  act,
}
use bounce.TcpConnection.Object.Forward.{Forward, Advances, CallbacksAdvance, same-Forward}
use bounce.TcpConnection.Object.Life.{act-Forward, send-Forward}
use bounce.TcpConnection.Object.Uses.{
  Use, sets_connect_callback, sets_message_callback, sets_write_complete_callback,
  sets_close_callback, sets_error_callback, acts, sends_buffer, sets_context, run_use, run_uses,
  life,
}

send_buffer-Forward :
    (cbs : Callbacks) (in_loop : Bool) (buffer : Buffer) (a : Answer) (c : TcpConnection)
    → Forward c (send_buffer cbs in_loop buffer a c).0
unfolding send_buffer
send_buffer-Forward cbs in_loop buffer a c =
    ground (arith, send-Forward cbs in_loop (read_all_as_string buffer).0 a c)

no_callbacks-Advance : CallbacksAdvance no_callbacks
no_callbacks-Advance = record {
  connect = same;
  message = λ time f h. cc;
  close = same;
  error = same;
}
  where
    same : (c c' : TcpConnection) → some c ≡ some c' → Forward c c'
    same c c' e = same-Forward c c' (ap (λ (d : TcpConnection). d.state) (sym (some_eq e)))

module _ {A : Type 0} where
  -- A callback that is set moves the connection forward, and `connectComplete` is not called.
  abbrev pub IsPolite : Use A → Type 0
  IsPolite (sets_connect_callback cb) = Advances (call_if_set cb)
  IsPolite (sets_message_callback cb) =
      (time : ℕ) (f : ℕ → TcpConnection → Option TcpConnection) → cb ≡ some f → Advances (f time)
  IsPolite (sets_write_complete_callback cb) = Unit {0}
  IsPolite (sets_close_callback cb) = Advances (call_if_set cb)
  IsPolite (sets_error_callback cb) = Advances (call_if_set cb)
  IsPolite (acts call) = call ≢ connects
  IsPolite (sends_buffer in_loop buffer a) = Unit {0}
  IsPolite (sets_context a) = Unit {0}

  abbrev pub AllPolite : List (Use A) → Type 0
  AllPolite [] = Unit {0}
  AllPolite (u ∷ us) = IsPolite u × AllPolite us

  -- The context that is set last.
  pub last_context : List (Use A) → Option A → Option A
  last_context [] a = a
  last_context (sets_context a ∷ us) b = last_context us (some a)
  last_context (_ ∷ us) b = last_context us b

  -- What a use keeps.
  pub record Keeps (a : Option A) (o o' : Object A) : Type 0 where
    pub forward : Forward o.connection o'.connection
    pub local : o'.local_addr ≡ o.local_addr
    pub peer : o'.peer_addr ≡ o.peer_addr
    pub context : o'.context ≡ a
    pub callbacks : CallbacksAdvance o'.callbacks

  only_callbacks :
      (o : Object A) (cbs : Callbacks)
      → CallbacksAdvance cbs
      → Keeps o.context o (record o { callbacks = cbs })
  only_callbacks o cbs adv = record {
    forward = omega arith;
    local = refl;
    peer = refl;
    context = refl;
    callbacks = adv;
  }

  only_connection :
      (o : Object A) (c : TcpConnection)
      → CallbacksAdvance o.callbacks
      → Forward o.connection c
      → Keeps o.context o (record o { connection = c })
  only_connection o c adv forward = record {
    forward = forward;
    local = refl;
    peer = refl;
    context = refl;
    callbacks = adv;
  }

  run_use-Keeps :
      (u : Use A) (o o' : Object A)
      → IsPolite u
      → CallbacksAdvance o.callbacks
      → run_use u o ≡ some o'
      → Keeps (last_context (u ∷ []) o.context) o o'
  unfolding run_use last_context on_connection set_connect_callback set_message_callback
      set_write_complete_callback set_close_callback set_error_callback set_context
  run_use-Keeps (sets_connect_callback cb) o o' p adv e = subst (Keeps o.context o) (some_eq e) (
      only_callbacks o (record o.callbacks { connect_cb = cb })
        (record { connect = p; message = adv.message; close = adv.close; error = adv.error }))
  run_use-Keeps (sets_message_callback cb) o o' p adv e = subst (Keeps o.context o) (some_eq e) (
      only_callbacks o (record o.callbacks { message_cb = cb })
        (record { connect = adv.connect; message = p; close = adv.close; error = adv.error }))
  run_use-Keeps (sets_write_complete_callback cb) o o' p adv e =
      subst (Keeps o.context o) (some_eq e) (
        only_callbacks o (record o.callbacks { write_cb = cb })
          (record {
            connect = adv.connect;
            message = adv.message;
            close = adv.close;
            error = adv.error;
          }))
  run_use-Keeps (sets_close_callback cb) o o' p adv e = subst (Keeps o.context o) (some_eq e) (
      only_callbacks o (record o.callbacks { close_cb = cb })
        (record { connect = adv.connect; message = adv.message; close = p; error = adv.error }))
  run_use-Keeps (sets_error_callback cb) o o' p adv e = subst (Keeps o.context o) (some_eq e) (
      only_callbacks o (record o.callbacks { error_cb = cb })
        (record { connect = adv.connect; message = adv.message; close = adv.close; error = p }))
  run_use-Keeps (acts call) o o' p adv e =
      let (c, done, same) =
        bind-some (act call o.callbacks o.connection) (λ c. some (record o { connection = c })) o'
          e in
      subst (Keeps o.context o) (some_eq same) (
        only_connection o c adv
          (act-Forward o.callbacks adv call o.connection c (λ k. absurd (p k)) done))
  run_use-Keeps (sends_buffer in_loop buffer a) o o' p adv e =
      subst (Keeps o.context o) (some_eq e) (
        only_connection o (send_buffer o.callbacks in_loop buffer a o.connection).0 adv
          (send_buffer-Forward o.callbacks in_loop buffer a o.connection))
  run_use-Keeps (sets_context a) o o' p adv e =
      subst (Keeps (some a) o) (some_eq e) (record {
        forward = omega arith;
        local = refl;
        peer = refl;
        context = refl;
        callbacks = adv;
      })

  then-Keeps : {a b : Option A} {o o₁ o₂ : Object A} → Keeps a o o₁ → Keeps b o₁ o₂ → Keeps b o o₂
  then-Keeps k l = record {
    forward = omega (arith, k.forward, l.forward);
    local = l.local ∙ k.local;
    peer = l.peer ∙ k.peer;
    context = l.context;
    callbacks = l.callbacks;
  }

  last_context_first :
      (u : Use A) (us : List (Use A)) (a : Option A)
      → last_context us (last_context (u ∷ []) a) ≡ last_context (u ∷ us) a
  unfolding last_context
  last_context_first u us a = ground arith

  -- As long as connectComplete is not called again, and the callbacks that are there or are set move
  -- the connection forward, any uses that come back have moved the state forward, from connecting over
  -- connected and disconnecting to disconnected, kept both addresses, and left the context object that
  -- was set last.
  pub run_uses-Keeps :
      (us : List (Use A)) (o o' : Object A)
      → AllPolite us
      → CallbacksAdvance o.callbacks
      → run_uses us o ≡ some o'
      → Keeps (last_context us o.context) o o'
  unfolding run_uses last_context
  run_uses-Keeps [] o o' p adv e =
      subst (Keeps o.context o) (some_eq e) (only_connection o o.connection adv (omega arith))
  run_uses-Keeps (u ∷ us) o o' p adv e =
      let (o₁, first, rest) = bind-some (run_use u o) (run_uses us) o' e in
      let k = run_use-Keeps u o o₁ p.0 adv first in
      let l = run_uses-Keeps us o₁ o' p.1 k.callbacks rest in
      then-Keeps k (
        subst (λ b. Keeps b o₁ o')
          (ap (last_context us) k.context ∙ last_context_first u us o.context) l)

  -- A new connection keeps the addresses that it was made with, whatever it is used for before it is
  -- complete, and the context object that is set last.
  pub life-Keeps :
      (fd : ℤ) (size : ℕ) (local peer : SockAddress) (us : List (Use A)) (o : Object A)
      → AllPolite us
      → life fd size local peer us ≡ some o
      → (o.local_addr ≡ local) × (o.peer_addr ≡ peer) × (o.context ≡ last_context us none)
  unfolding life construct
  life-Keeps fd size local peer us o p e =
      let k = run_uses-Keeps us (construct fd size local peer) o p no_callbacks-Advance e in
      (k.local, k.peer, k.context)
