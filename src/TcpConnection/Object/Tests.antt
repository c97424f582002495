-- ===== src/TcpConnection/Object/Tests.antt =====
-- A connection that is opened and closed, with a callback for closing only.
use bounce.Prelude.{◌≤◌, ◌≡◌, refl, ap, true, none, some, arith, some_eq}
use bounce.Prelude.Int.{pos}
use bounce.Channel.{enable_reading, disable_all}
use bounce.TcpConnection
use bounce.TcpConnection.{
  TcpConnection, Callbacks, connecting, connected, disconnected, is_disconnected, change_channel,
  request, connect_complete, handle_close, force_close, force_close_in_loop,
}
use bounce.TcpConnection.Object.{connects, closes, act}
use bounce.TcpConnection.Object.Forward.{rank, Forward, CallbacksAdvance}
use bounce.TcpConnection.Object.Life.{none_made, then_call, Calls-Forward}

abbrev cbs : Callbacks
cbs = record {
  connect_cb = some some;
  message_cb = none;
  write_cb = none;
  close_cb = some some;
  error_cb = none;
}

cbs-Advance : CallbacksAdvance cbs
cbs-Advance = record { connect = same; message = λ time f h. cc; close = same; error = same }
  where
    same : (c c' : TcpConnection) → some c ≡ some c' → rank c.state ≤ rank c'.state
    same c c' e = omega (arith, ap (λ (d : TcpConnection). rank d.state) (some_eq e))

abbrev fresh : TcpConnection
unfolding TcpConnection.init
fresh = TcpConnection.init (pos 9) 1024

abbrev opened : TcpConnection
unfolding change_channel
opened = change_channel enable_reading (record fresh { state = connected })

abbrev closed : TcpConnection
unfolding change_channel
closed = change_channel disable_all (record opened { state = disconnected })

opens : act connects cbs fresh ≡ some opened
unfolding act connect_complete
opens = refl

ends : act (closes true) cbs opened ≡ some closed
unfolding act force_close force_close_in_loop handle_close change_channel
ends = refl

Calls-Forward_example : Forward fresh closed
unfolding fresh opened
Calls-Forward_example =
    Calls-Forward cbs cbs-Advance
      (then_call (closes true) (then_call connects none_made (λ e. refl) opens) (λ e. cc) ends)
