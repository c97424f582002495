-- ===== src/TcpConnection/Rest.antt =====
-- The last part of `sendInLoop`: what is left of a message waits in the output buffer.
use mathlib.Core.List.{append_assoc, append-nil}
use bounce.Prelude.{
  ℕ, ◌+◌, ◌≤◌, ◌<◌, ◌≡◌, refl, sym, ap, ◌∙◌, ◌⊎◌, inl, inr, true, false, not, List, [], ◌++◌, arith,
  length, take, drop, ltb, ◌==◌, if◌then◌else◌, Bool-cases, take-append-drop, take-ge_length,
  length-take, length-drop, length-append, subst, ltb→lt, drop-ge_length,
}
use bounce.Prelude.Words.{max_size}
use bounce.Buffer.{Buffer, readable_bytes, append}
use bounce.Buffer.Inv.{IsValid as IsValidBuffer, contents, readable_bytes-contents}
use bounce.Buffer.Append.{Appends, append-Appends}
use bounce.Channel.{is_writing, enable_writing}
use bounce.TcpConnection.{
  TcpConnection, Answer, Tried, not_tried, try_send, Callbacks, note_sent, buffer_rest,
  change_channel,
}
use bounce.TcpConnection.Inv.{
  Watches, change-Watches, is_writing-enable, has_output, IsValid, TakesAtMost,
}

-- What is known of an attempt to send a message of `size` bytes.
pub record Splits (size : ℕ) (t : Tried) : Type 0 where
  pub split : t.wrote_bytes + t.send_bytes ≡ size
  pub failed_whole : (t.send_error ≡ false) ⊎ (t.wrote_bytes ≡ 0)

pub not_tried-Splits : (size : ℕ) → Splits size (not_tried size)
not_tried-Splits size = record { split = omega arith; failed_whole = inl refl }

pub try_send-Splits :
    (size : ℕ) (a : Answer) → TakesAtMost size a.ret → Splits size (try_send size a)
unfolding try_send
try_send-Splits size a fits = ground arith

-- The bytes already out, those that wait, and a message of which the first `n` bytes go out and
-- the others wait.
pub regroup :
    (wire waiting message : List ℕ) (n : ℕ)
    → (n ≡ 0) ⊎ (waiting ≡ [])
    → (wire ++ take n message) ++ (waiting ++ drop n message) ≡ (wire ++ waiting) ++ message
regroup wire waiting message n (inl none_out) = rw (none_out, append-nil, append_assoc) refl
regroup wire waiting message n (inr none_wait) =
    rw (none_wait, append-nil, append_assoc) (ap (λ m. wire ++ m) (take-append-drop n message))

module _ (cbs : Callbacks) (message : List ℕ) (t : Tried) (c : TcpConnection) where
  -- `note_sent` changes only the bytes out and the requests.
  pub note_sent-fields :
      ((note_sent cbs message t c).state ≡ c.state)
      × ((note_sent cbs message t c).channel ≡ c.channel)
      × ((note_sent cbs message t c).output_buffer ≡ c.output_buffer)
      × ((note_sent cbs message t c).wire ≡ c.wire ++ take t.wrote_bytes message)
      × ((note_sent cbs message t c).write_shut ≡ c.write_shut)
  unfolding note_sent
  note_sent-fields = ground arith

rest_of-eq :
    (message : List ℕ) (t : Tried) (s : Splits (length message) t)
    → take t.send_bytes (drop t.wrote_bytes message) ≡ drop t.wrote_bytes message
rest_of-eq message t s =
    take-ge_length t.send_bytes (drop t.wrote_bytes message)
      (omega (arith, length-drop t.wrote_bytes message, s.split))

-- What `buffer_rest` does to a connection whose bytes out are already noted.
pub record Buffers (message : List ℕ) (t : Tried) (c c' : TcpConnection) : Type 0 where
  pub valid : IsValid c'
  pub wire : c'.wire ≡ c.wire
  pub state : c'.state ≡ c.state
  pub shut : c'.write_shut ≡ c.write_shut
  pub waiting :
      contents c'.output_buffer
      ≡ contents c.output_buffer ++ (if t.send_error then [] else drop t.wrote_bytes message)
  pub growth : length c'.output_buffer.buffer ≤ length c.output_buffer.buffer + length message

-- Appended bytes leave something to wait for.
append-has_output :
    (rest : List ℕ) {b : Buffer} (c' : Buffer)
    → Appends rest b c'
    → 0 < length rest
    → not (readable_bytes c' == 0) ≡ true
append-has_output rest {b} c' a some_left =
    ground
      (arith, readable_bytes-contents a.valid, ap length a.queue, length-append (contents b) rest)

module _ (message : List ℕ) (t : Tried) (c : TcpConnection) (s : Splits (length message) t)
    (v : IsValid c) (room : length c.output_buffer.buffer + length message ≤ max_size) where
  rest : List ℕ
  rest = take t.send_bytes (drop t.wrote_bytes message)

  appended : TcpConnection
  unfolding rest
  appended = record c { output_buffer = append rest c.output_buffer }

  length-rest : length rest ≡ t.send_bytes
  unfolding rest
  length-rest = omega (
    arith,
    length-take t.send_bytes (drop t.wrote_bytes message),
    length-drop t.wrote_bytes message,
    s.split,
  )

  rest-Appends : Appends rest c.output_buffer appended.output_buffer
  unfolding appended
  rest-Appends = append-Appends rest v.output (omega (arith, length-rest, s.split))

  appended_waiting :
      t.send_error ≡ false
      → contents appended.output_buffer
        ≡ contents c.output_buffer ++ (if t.send_error then [] else drop t.wrote_bytes message)
  unfolding rest
  appended_waiting fine =
      rest-Appends.queue
      ∙ ap (λ r. contents c.output_buffer ++ r) (rw fine (rest_of-eq message t s))

  has_output-appended : 0 < t.send_bytes → has_output appended ≡ true
  unfolding appended
  has_output-appended some_left =
      append-has_output rest appended.output_buffer rest-Appends (omega (arith, length-rest))

  -- `appended` or the connection after `enableWriting`.
  watching : TcpConnection
  watching =
      if is_writing appended.channel then appended else change_channel enable_writing appended

  watching-fields :
      (watching.output_buffer ≡ appended.output_buffer)
      × (watching.wire ≡ c.wire)
      × (watching.state ≡ c.state)
      × (watching.write_shut ≡ c.write_shut)
  unfolding watching appended change_channel
  watching-fields = ground arith

  watching-Watches : Watches watching.channel × (is_writing watching.channel ≡ true)
  unfolding watching appended change_channel
  watching-Watches = elim (Bool-cases (is_writing c.channel)) [
    | inl on ↦ rw on (v.watches, on)
    | inr off ↦ rw off (change-Watches enable_writing v.watches, is_writing-enable v.watches)
  ]

  watching-Buffers : t.send_error ≡ false → 0 < t.send_bytes → Buffers message t c watching
  watching-Buffers fine some_left = record {
    valid = record {
      output = subst IsValidBuffer (sym watching-fields.0) rest-Appends.valid;
      watches = watching-Watches.0;
      waits = inr (
          watching-Watches.1
          ∙ sym (
              ap (λ b. not (readable_bytes b == 0)) watching-fields.0
              ∙ has_output-appended some_left));
    };
    wire = watching-fields.1;
    state = watching-fields.2;
    shut = watching-fields.3;
    waiting = ap contents watching-fields.0 ∙ appended_waiting fine;
    growth = omega (
      arith,
      ap (λ (b : Buffer). length b.buffer) watching-fields.0,
      rest-Appends.growth,
      length-rest,
      s.split,
    );
  }

  nothing-Buffers :
      (if t.send_error then [] else drop t.wrote_bytes message) ≡ [] → Buffers message t c c
  nothing-Buffers none_left = record {
    valid = v;
    wire = refl;
    state = refl;
    shut = refl;
    waiting = sym (ap (λ r. contents c.output_buffer ++ r) none_left ∙ append-nil _);
    growth = omega arith;
  }

  buffer_rest-watching :
      t.send_error ≡ false → ltb 0 t.send_bytes ≡ true → buffer_rest message t c ≡ watching
  unfolding buffer_rest watching appended rest
  buffer_rest-watching fine some_left = rw (fine, some_left) refl

  pub buffer_rest-Buffers : Buffers message t c (buffer_rest message t c)
  unfolding buffer_rest
  buffer_rest-Buffers = elim (Bool-cases t.send_error) [
    | inl bad ↦
        subst (Buffers message t c) (sym (buffer_rest-error bad)) (nothing-Buffers (rw bad refl))
    | inr fine ↦ elim (Bool-cases (ltb 0 t.send_bytes)) [
      | inl some_left ↦
          subst (Buffers message t c) (sym (buffer_rest-watching fine some_left))
            (watching-Buffers fine (ltb→lt 0 t.send_bytes some_left))
      | inr none_left ↦ subst (Buffers message t c) (sym (buffer_rest-done none_left)) (
          nothing-Buffers
            (rw fine (drop-ge_length t.wrote_bytes message (ground (arith, s.split)))))
    ]
  ]
    where
      buffer_rest-error : t.send_error ≡ true → buffer_rest message t c ≡ c
      buffer_rest-error bad = ground arith

      buffer_rest-done : ltb 0 t.send_bytes ≡ false → buffer_rest message t c ≡ c
      buffer_rest-done none_left = ground arith
