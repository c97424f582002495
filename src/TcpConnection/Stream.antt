-- ===== src/TcpConnection/Stream.antt =====
-- The output of a connection over any sequence of calls in its loop's thread.
use mathlib.Core.List.{append_assoc, append-nil}
use bounce.Prelude.{
  ℕ, ◌+◌, ◌≤◌, ◌≡◌, refl, sym, ap, subst, ◌∙◌, ◌⊎◌, inl, inr, Bool, true, false, List, [], ◌++◌,
  arith, length, if◌then◌else◌, Bool-cases,
}
use bounce.Prelude.Words.{max_size}
use bounce.Buffer.Inv.{contents}
use bounce.Channel.{is_writing}
use bounce.TcpConnection.{
  TcpConnection, Answer, Callbacks, disconnecting, is_disconnected, send_in_loop, handle_write,
  shutdown,
}
use bounce.TcpConnection.Inv.{IsValid, IsValid-same, has_output, stream, TakesAtMost, nothing_waits}
use bounce.TcpConnection.Send.{loses, send_in_loop-Sends}
use bounce.TcpConnection.Write.{handle_write-Writes}

-- What `shutdown` in the loop's thread does to a connection that is not disconnected.
record Shuts (c c' : TcpConnection) : Type 0 where
  valid : IsValid c'
  bytes : stream c' ≡ stream c
  shut : (c'.write_shut ≡ c.write_shut) ⊎ (contents c'.output_buffer ≡ [])

waits_open :
    {c : TcpConnection}
    → IsValid c
    → is_disconnected c.state ≡ false
    → is_writing c.channel ≡ has_output c
waits_open {c} v open_ = elim v.waits [ inl gone ↦ cc (ap is_disconnected gone, open_) | inr e ↦ e ]

module _ {c : TcpConnection} (v : IsValid c) (open_ : is_disconnected c.state ≡ false) where
  closing-IsValid : IsValid (record c { state = disconnecting })
  closing-IsValid = record {
    output = v.output;
    watches = v.watches;
    waits = inr (waits_open v open_);
  }

  none_wait : is_writing c.channel ≡ false → contents c.output_buffer ≡ []
  none_wait off = nothing_waits v.output (ground (arith, waits_open v open_))

  shutdown-on : is_writing c.channel ≡ true → shutdown true c ≡ record c { state = disconnecting }
  unfolding shutdown
  shutdown-on on = rw (open_, on) refl

  shutdown-off :
      is_writing c.channel ≡ false
      → shutdown true c ≡ record c { state = disconnecting; write_shut = true }
  unfolding shutdown
  shutdown-off off = rw (open_, off) refl

  shutdown-Shuts : Shuts c (shutdown true c)
  shutdown-Shuts = elim (Bool-cases (is_writing c.channel)) [
    | inl on ↦
        subst (Shuts c) (sym (shutdown-on on))
          (record { valid = closing-IsValid; bytes = refl; shut = inl refl })
    | inr off ↦ subst (Shuts c) (sym (shutdown-off off)) (record {
      valid = IsValid-same refl refl refl closing-IsValid;
      bytes = refl;
      shut = inr (none_wait off);
    })
  ]

-- Calls in the loop's thread, from one connection to another, with the bytes that they give it: a
-- message that is not lost, and nothing.
pub data Reach (cbs : Callbacks) (c : TcpConnection) : TcpConnection → List ℕ → Type 0 where
  here : Reach cbs c c []
  sends :
      {d : TcpConnection} {given : List ℕ} (message : List ℕ) (a : Answer)
      → Reach cbs c d given
      → is_disconnected d.state ≡ false
      → TakesAtMost (length message) a.ret
      → length d.output_buffer.buffer + length message ≤ max_size
      → Reach cbs c
          (send_in_loop cbs message a d)
          (given ++ (if loses message a d then [] else message))
  writes :
      {d : TcpConnection} {given : List ℕ} (a : Answer)
      → Reach cbs c d given
      → TakesAtMost (length (contents d.output_buffer)) a.ret
      → Reach cbs c (handle_write cbs a d) given
  shuts :
      {d : TcpConnection} {given : List ℕ}
      → Reach cbs c d given
      → is_disconnected d.state ≡ false
      → Reach cbs c (shutdown true d) given

-- After any sequence of sends, writes and shutdowns, the bytes that the kernel took, followed by
-- those that wait, are the bytes from the start followed by all the messages that were not lost, in
-- the order in which they were sent; and the invariant holds.
pub Reach-stream :
    {cbs : Callbacks} {c d : TcpConnection} {given : List ℕ}
    → IsValid c
    → Reach cbs c d given
    → IsValid d × (stream d ≡ stream c ++ given)
Reach-stream {c} v here = (v, sym (append-nil (stream c)))
Reach-stream {cbs} {c} v (sends {d = e} {given = g} message a r open_ fits room) =
    let before = Reach-stream v r in
    let step = send_in_loop-Sends cbs message a before.0 open_ fits room in
    (
      step.valid,
      step.bytes
          ∙ adds (loses message a e)
          ∙ ap (λ l. l ++ (if loses message a e then [] else message)) before.1
          ∙ append_assoc (stream c) g (if loses message a e then [] else message),
    )
  where
    adds :
        (lost : Bool)
        → (if lost then stream e else stream e ++ message)
          ≡ stream e ++ (if lost then [] else message)
    adds true = sym (append-nil (stream e))
    adds false = refl
Reach-stream {cbs} v (writes a r fits) =
    let before = Reach-stream v r in
    let step = handle_write-Writes cbs a before.0 fits in (step.valid, step.bytes ∙ before.1)
Reach-stream v (shuts r open_) =
    let before = Reach-stream v r in
    let step = shutdown-Shuts before.0 open_ in (step.valid, step.bytes ∙ before.1)
