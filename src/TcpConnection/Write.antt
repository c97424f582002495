-- ===== src/TcpConnection/Write.antt =====
-- `handleWrite`, and the end of writing.
mod Sent
pub use Sent.*
use bounce.Prelude.{ℕ, zero, suc, ◌≡◌, refl, sym, Bool, true, false, arith, length, lt→ltb, subst}
use bounce.Prelude.Int.{ℤ, pos, negsuc}
use bounce.Buffer.Inv.{contents}
use bounce.Channel.{is_writing}
use bounce.TcpConnection.{TcpConnection, Answer, Callbacks, after_send, handle_write}
use bounce.TcpConnection.Inv.{IsValid, TakesAtMost}

module _ (cbs : Callbacks) (a : Answer) (c : TcpConnection) where
  handle_write-off : is_writing c.channel ≡ false → handle_write cbs a c ≡ c
  unfolding handle_write
  handle_write-off off = rw off refl

  handle_write-failed :
      (n : ℕ) → is_writing c.channel ≡ true → a.ret ≡ negsuc n → handle_write cbs a c ≡ c
  unfolding handle_write
  handle_write-failed n on e = rw (on, handle_write, e) refl

  handle_write-nothing : is_writing c.channel ≡ true → a.ret ≡ pos 0 → handle_write cbs a c ≡ c
  unfolding handle_write
  handle_write-nothing on e = rw (on, handle_write, e) refl

  pub handle_write-took :
      (n : ℕ)
      → is_writing c.channel ≡ true
      → a.ret ≡ pos (suc n)
      → handle_write cbs a c ≡ after_send cbs (suc n) c
  unfolding handle_write
  handle_write-took n on e = rw (on, handle_write, e, lt→ltb 0 (suc n) (omega arith)) refl

-- `handleWrite`, where the kernel takes no more than it is given, keeps the invariant and the
-- state, and loses and repeats no byte: what it sends is what was waiting longest. It shuts the
-- socket down for writing only while the connection is disconnecting and with nothing left to send.
pub handle_write-Writes :
    (cbs : Callbacks) (a : Answer) {c : TcpConnection}
    → IsValid c
    → TakesAtMost (length (contents c.output_buffer)) a.ret
    → Writes c (handle_write cbs a c)
handle_write-Writes cbs a {c} v fits = by_answer a.ret refl fits (is_writing c.channel) refl
  where
    same : handle_write cbs a c ≡ c → Writes c (handle_write cbs a c)
    same e = subst (Writes c) (sym e) (Writes-refl v)

    by_answer :
        (ret : ℤ)
        → a.ret ≡ ret
        → TakesAtMost (length (contents c.output_buffer)) ret
        → (on : Bool) → is_writing c.channel ≡ on
        → Writes c (handle_write cbs a c)
    by_answer ret e f false off = same (handle_write-off cbs a c off)
    by_answer (negsuc n) e f true on = same (handle_write-failed cbs a c n on e)
    by_answer (pos zero) e f true on = same (handle_write-nothing cbs a c on e)
    by_answer (pos (suc n)) e f true on =
        subst (Writes c) (sym (handle_write-took cbs a c n on e))
          (after_send-Writes cbs v on (suc n) f)
