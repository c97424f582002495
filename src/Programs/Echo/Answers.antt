-- ===== src/Programs/Echo/Answers.antt =====
-- The theorem on the echo, over any events.
use mathlib.Core.List.{append_assoc, append-nil}
use bounce.Prelude.{
  ℕ, ◌+◌, ◌≤◌, ◌≡◌, refl, sym, ap, subst, ◌∙◌, true, false, some, List, [], ◌∷◌, ◌++◌, arith,
  length, min, ◌>>=◌, if◌then◌else◌, length-append,
}
use bounce.Prelude.Words.{max_size}
use bounce.Buffer.{Buffer, read_all_as_string}
use bounce.Buffer.Inv.{IsValid as IsValidBuffer, contents}
use bounce.Buffer.Refine.{read_all_as_string_lem}
use bounce.TcpConnection.{
  TcpConnection, Callbacks, Answer, connected, send, send_in_loop, try_send, is_fatal, handle_write,
  is_disconnected,
}
use bounce.TcpConnection.Inv.{IsValid, IsValid-same, stream}
use bounce.TcpConnection.Send.{loses, send_in_loop-Sends}
use bounce.TcpConnection.Write.{handle_write-Writes}
use bounce.TcpConnection.Close.{handle_read-message}
use bounce.Programs.Echo.{
  echo, echoing, takes, Event, receives, has_room, handle_event, handle_each, arrived,
}
use bounce.Programs.Echo.Kept.{send_in_loop-input, handle_write-input}

-- A connection whose input has been read, with room for `n` more bytes in each buffer.
pub record IsReady (n : ℕ) (c : TcpConnection) : Type 0 where
  pub valid : IsValid c
  pub input : IsValidBuffer c.input_buffer
  pub read : contents c.input_buffer ≡ []
  pub open_ : c.state ≡ connected
  pub room_in : length c.input_buffer.buffer + n ≤ max_size
  pub room_out : length c.output_buffer.buffer + n ≤ max_size

-- The kernel took some of the bytes, or none for now, so `::send` did not fail for good.
takes-keeps : (n : ℕ) (message : List ℕ) (c : TcpConnection) → loses message (takes n) c ≡ false
unfolding loses try_send is_fatal
takes-keeps n message c = ground arith

send-connected :
    (cbs : Callbacks) (message : List ℕ) (a : Answer) (c : TcpConnection)
    → c.state ≡ connected
    → send cbs true message a c ≡ send_in_loop cbs message a c
unfolding send
send-connected cbs message a c e = rw (e, send) refl

-- The echo of what waits in the input buffer.
module _ (cbs : Callbacks) (time k n : ℕ) (c : TcpConnection) (v : IsValid c)
    (input : IsValidBuffer c.input_buffer) (open_ : c.state ≡ connected)
    (fits : k ≤ length (contents c.input_buffer))
    (room_in : length c.input_buffer.buffer + n ≤ max_size)
    (room_out : length c.output_buffer.buffer + (length (contents c.input_buffer) + n)
      ≤ max_size) where
  echo-Answers :
      (d : TcpConnection) × (echo cbs (takes k) time c ≡ some d)
      × IsReady n d
      × (stream d ≡ stream c ++ contents c.input_buffer)
  unfolding echo
  echo-Answers =
      let message = (read_all_as_string c.input_buffer).0 in
      let c' = record c { input_buffer = (read_all_as_string c.input_buffer).1 } in
      let d = send_in_loop cbs message (takes k) c' in
      let taken = read_all_as_string_lem input in
      let sends =
        send_in_loop-Sends cbs message (takes k) {c = c'} (IsValid-same refl refl refl v)
          (ap is_disconnected open_) (omega (arith, ap length taken.0, fits))
          (omega (arith, ap length taken.0, room_out)) in
      let kept = send_in_loop-input cbs message (takes k) c' in
      (
        d,
        ap some (send-connected cbs message (takes k) c' open_),
        record {
          valid = sends.valid;
          input = subst IsValidBuffer (sym kept) taken.2;
          read = ap contents kept ∙ taken.1;
          open_ = sends.state ∙ open_;
          room_in =
              omega (arith, room_in, ap (λ (b : Buffer). length b.buffer) kept, ap length taken.3);
          room_out = omega (arith, room_out, sends.growth, ap length taken.0);
        },
        sends.bytes
            ∙ ap (λ lost. if lost then stream c' else stream c' ++ message)
                (takes-keeps k message c')
            ∙ ap (λ m. stream c ++ m) taken.0,
      )

arrived-cons : (e : Event) (es : List Event) → arrived (e ∷ es) ≡ arrived (e ∷ []) ++ arrived es
unfolding arrived
arrived-cons (receives first bytes room) es =
    ap (λ l. first ∷ l ++ arrived es) (sym (append-nil bytes))
arrived-cons (has_room room) es = refl

-- One event, where `n` bytes are to come after it.
handle_event-Answers :
    (cbs : Callbacks) (time n : ℕ) (e : Event) (c : TcpConnection)
    → IsReady (length (arrived (e ∷ [])) + n) c
    → (d : TcpConnection) × (handle_event cbs time e c ≡ some d)
      × IsReady n d
      × (stream d ≡ stream c ++ arrived (e ∷ []))
unfolding handle_event echoing arrived
handle_event-Answers cbs time n (receives first bytes room) c r =
    let k = min room (1 + length bytes) in
    let no_more = length-append bytes [] in
    let (input, appends, runs) =
      handle_read-message (echoing cbs (takes k)) time c r.input first bytes
        (omega (arith, r.room_in, no_more)) in
    let waits : contents input ≡ first ∷ bytes =
      appends.queue ∙ ap (λ l. l ++ first ∷ bytes) r.read in
    let (d, echoed, ready, sent) =
      echo-Answers cbs time k n (record c { input_buffer = input })
        (IsValid-same refl refl refl r.valid) appends.valid r.open_ (omega (arith, ap length waits))
        (omega (arith, r.room_in, appends.growth, no_more))
        (omega (arith, r.room_out, ap length waits, no_more)) in
    (
      d,
      runs ∙ echoed,
      ready,
      sent ∙ ap (λ l. stream c ++ l) (waits ∙ ap (λ l. first ∷ l) (sym (append-nil bytes))),
    )
handle_event-Answers cbs time n (has_room room) c r =
    let a = takes (min room (length (contents c.output_buffer))) in
    let kept = handle_write-input cbs a c in
    let writes = handle_write-Writes cbs a r.valid (omega arith) in
    (
      handle_write cbs a c,
      refl,
      record {
        valid = writes.valid;
        input = subst IsValidBuffer (sym kept.0) r.input;
        read = ap contents kept.0 ∙ r.read;
        open_ = writes.state ∙ r.open_;
        room_in = omega (arith, r.room_in, ap (λ (b : Buffer). length b.buffer) kept.0);
        room_out = omega (arith, r.room_out, kept.1);
      },
      writes.bytes ∙ sym (append-nil (stream c)),
    )

-- On a connection that is connected, with all its input read, the echo sends back what arrives: after
-- any events, the bytes that the kernel took, followed by those that wait, are those from the start
-- and then all that arrived, in order and each once, whatever part the kernel took each time, where
-- the buffers' storage with all that arrives fits a vector. The connection is then as ready as before.
pub handle_each-Answers :
    (cbs : Callbacks) (time : ℕ) (es : List Event) (c : TcpConnection)
    → IsReady (length (arrived es)) c
    → (d : TcpConnection) × (handle_each cbs time es c ≡ some d)
      × IsReady 0 d
      × (stream d ≡ stream c ++ arrived es)
unfolding handle_each arrived
handle_each-Answers cbs time [] c r = (c, refl, r, sym (append-nil (stream c)))
handle_each-Answers cbs time (e ∷ es) c r =
    let split = arrived-cons e es in
    let (d, one, ready, bytes) = handle_event-Answers cbs time (length (arrived es)) e c (
      subst (λ m. IsReady m c) (ap length split ∙ length-append (arrived (e ∷ [])) (arrived es))
        r) in
    let (d', others, ready', bytes') = handle_each-Answers cbs time es d ready in
    (
      d',
      ap (λ o. o >>= handle_each cbs time es) one ∙ others,
      ready',
      bytes'
          ∙ ap (λ l. l ++ arrived es) bytes
          ∙ append_assoc (stream c) (arrived (e ∷ [])) (arrived es)
          ∙ ap (λ l. stream c ++ l) (sym split),
    )
