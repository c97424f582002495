-- ===== src/TcpConnection/Send.antt =====
-- `sendInLoop`.
use mathlib.Core.List.{append-nil}
use bounce.Prelude.{
  ℕ, ◌+◌, ◌≤◌, ◌≡◌, refl, sym, ap, ap₂, ◌∙◌, ◌⊎◌, inl, inr, Bool, true, false, ◌&&◌, ◌||◌, not,
  List, [], ◌∷◌, ◌++◌, arith, length, take, drop, ◌==◌, if◌then◌else◌, Bool-cases, subst,
}
use bounce.Prelude.Int.{ℤ, pos, negsuc}
use bounce.Prelude.Words.{max_size}
use bounce.Buffer.{Buffer, readable_bytes}
use bounce.Buffer.Inv.{contents, readable_bytes-contents}
use bounce.Channel.{is_writing}
use bounce.TcpConnection.{
  TcpConnection, is_fatal, is_disconnected, Answer, Tried, not_tried, try_send, is_free, Callbacks,
  note_sent, buffer_rest, send_in_loop,
}
use bounce.TcpConnection.Inv.{IsValid, IsValid-same, stream, TakesAtMost, nothing_waits}
use bounce.TcpConnection.Rest.{
  Splits, not_tried-Splits, try_send-Splits, regroup, note_sent-fields, Buffers,
  buffer_rest-Buffers,
}

-- Whether `::send` of some bytes took none and left EPIPE or ECONNRESET, as Linux numbers them, in
-- `errno`. (It leaves one where it fails; taking none of some without a failure, it leaves the old.)
unfoldable pub is_gone : ℕ → ℤ → ℕ → Bool
is_gone size (pos n) errno =
    if n == 0 && not (size == 0) then errno == 32 || errno == 104 else false
is_gone size (negsuc n) errno = errno == 32 || errno == 104

-- No byte waits, and the kernel is not asked when more can be written.
unfoldable pub is_idle : TcpConnection → Bool
is_idle c = elim (contents c.output_buffer) [ [] ↦ not (is_writing c.channel) | b ∷ bs ↦ false ]

is_free-is_idle : {c : TcpConnection} → IsValid c → is_free c ≡ is_idle c
unfolding is_free is_idle
is_free-is_idle {c} v = by_contents (contents c.output_buffer) refl
  where
    by_contents :
        (l : List ℕ)
        → contents c.output_buffer ≡ l
        → (not (is_writing c.channel) && readable_bytes c.output_buffer == 0)
          ≡ elim l [ [] ↦ not (is_writing c.channel) | b ∷ bs ↦ false ]
    by_contents [] e = ground (arith, readable_bytes-contents v.output, ap length e)
    by_contents (b ∷ bs) e = ground (arith, readable_bytes-contents v.output, ap length e)

-- The message is given up: nothing was waiting, and the other side is gone.
unfoldable pub loses : List ℕ → Answer → TcpConnection → Bool
unfolding is_idle is_gone
loses message a c = is_idle c && is_gone (length message) a.ret a.errno

try_send-is_gone :
    (size : ℕ) (a : Answer) → (try_send size a).send_error ≡ is_gone size a.ret a.errno
unfolding try_send is_fatal is_gone
try_send-is_gone size a = ground arith

-- What `sendInLoop` does to a connection that is not disconnected.
pub record Sends (message : List ℕ) (a : Answer) (c c' : TcpConnection) : Type 0 where
  pub valid : IsValid c'
  pub bytes : stream c' ≡ (if loses message a c then stream c else stream c ++ message)
  pub state : c'.state ≡ c.state
  pub shut : c'.write_shut ≡ c.write_shut
  pub growth : length c'.output_buffer.buffer ≤ length c.output_buffer.buffer + length message

module _ (cbs : Callbacks) (message : List ℕ) (a : Answer) {c : TcpConnection} (v : IsValid c)
    (open_ : is_disconnected c.state ≡ false) (fits : TakesAtMost (length message) a.ret)
    (room : length c.output_buffer.buffer + length message ≤ max_size) where
  tried : Tried
  tried = if is_free c then try_send (length message) a else not_tried (length message)

  tried-Splits : Splits (length message) tried
  unfolding tried
  tried-Splits = elim (Bool-cases (is_free c)) [
    | inl free ↦ rw free (try_send-Splits (length message) a fits)
    | inr busy ↦ rw busy (not_tried-Splits (length message))
  ]

  send_error-loses : tried.send_error ≡ loses message a c
  unfolding tried loses
  send_error-loses =
      by_free ∙ ap (λ b. b && is_gone (length message) a.ret a.errno) (is_free-is_idle v)
    where
      by_free : tried.send_error ≡ (is_free c && is_gone (length message) a.ret a.errno)
      by_free = elim (Bool-cases (is_free c)) [
        | inl free ↦ rw free (try_send-is_gone (length message) a)
        | inr busy ↦ rw busy refl
      ]

  -- Bytes go out at once only if none wait.
  in_order : (tried.wrote_bytes ≡ 0) ⊎ (contents c.output_buffer ≡ [])
  unfolding tried is_free
  in_order = elim (Bool-cases (readable_bytes c.output_buffer == 0)) [
    | inl none_wait ↦ inr (nothing_waits v.output none_wait)
    | inr wait ↦ inl (ground arith)
  ]

  noted : TcpConnection
  noted = note_sent cbs message tried c

  fields :
      (noted.state ≡ c.state)
      × (noted.channel ≡ c.channel)
      × (noted.output_buffer ≡ c.output_buffer)
      × (noted.wire ≡ c.wire ++ take tried.wrote_bytes message)
      × (noted.write_shut ≡ c.write_shut)
  unfolding noted
  fields = note_sent-fields cbs message tried c

  noted-IsValid : IsValid noted
  noted-IsValid = IsValid-same fields.0 fields.1 fields.2 v

  rest : Buffers message tried noted (buffer_rest message tried noted)
  rest =
      buffer_rest-Buffers message tried noted tried-Splits noted-IsValid
        (omega (arith, ap (λ (b : Buffer). length b.buffer) fields.2))

  sent : TcpConnection
  sent = buffer_rest message tried noted

  send_in_loop-sent : send_in_loop cbs message a c ≡ sent
  unfolding send_in_loop sent noted tried
  send_in_loop-sent = rw (open_, send_in_loop) refl

  kept_or_lost : stream sent ≡ (if tried.send_error then stream c else stream c ++ message)
  unfolding sent
  kept_or_lost =
      ap₂ ◌++◌ (rest.wire ∙ fields.3) (rest.waiting ∙ ap (λ b. contents b ++ unsent) fields.2)
      ∙ by_error tried.send_error refl
    where
      unsent : List ℕ
      unsent = if tried.send_error then [] else drop tried.wrote_bytes message

      by_error :
          (bad : Bool)
          → tried.send_error ≡ bad
          → (c.wire ++ take tried.wrote_bytes message)
              ++ (contents c.output_buffer ++ (if bad then [] else drop tried.wrote_bytes message))
            ≡ (if bad then stream c else stream c ++ message)
      by_error false e =
          regroup c.wire (contents c.output_buffer) message tried.wrote_bytes in_order
      by_error true e = elim tried-Splits.failed_whole [
        | inl fine ↦ cc (fine, e)
        | inr none_out ↦
            ap₂ ◌++◌ (ap (λ n. c.wire ++ take n message) none_out ∙ append-nil c.wire)
              (append-nil (contents c.output_buffer))
      ]

  -- `sendInLoop` on a connection that is not disconnected, where the message fits the storage and
  -- the kernel takes no more than it is given: the invariant holds after it, the bytes given so far
  -- and those of the message are all out or waiting, in order and each once, whatever part of the
  -- message the kernel took; exactly if nothing was waiting and `::send` took no byte of some and left EPIPE or
  -- ECONNRESET in `errno` is the whole message lost.
  pub send_in_loop-Sends : Sends message a c (send_in_loop cbs message a c)
  unfolding sent
  send_in_loop-Sends = subst (Sends message a c) (sym send_in_loop-sent) (record {
    valid = rest.valid;
    bytes =
        kept_or_lost ∙ ap (λ bad. if bad then stream c else stream c ++ message) send_error-loses;
    state = rest.state ∙ fields.0;
    shut = rest.shut ∙ fields.4;
    growth = omega (arith, rest.growth, ap (λ (b : Buffer). length b.buffer) fields.2);
  })
