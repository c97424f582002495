-- ===== src/TcpConnection/Write/Sent.antt =====
-- What `handleWrite` does when `::send` took bytes.
use mathlib.Core.List.{append_assoc, append-nil}
use bounce.Prelude.{
  ℕ, ◌≤◌, ◌≡◌, refl, sym, ap, ap₂, ◌∙◌, ◌⊎◌, inl, inr, true, false, not, [], ◌++◌, arith, length,
  take, drop, ◌==◌, if◌then◌else◌, Bool-cases, subst, take-append-drop, take-ge_length, length-drop,
}
use bounce.Buffer.{readable_bytes, peek, retrieve}
use bounce.Buffer.Inv.{IsValid as IsValidBuffer, contents, readable_bytes-contents}
use bounce.Buffer.Refine.{Takes, retrieve-Takes, take_window}
use bounce.Channel.{change, is_writing, disable_writing}
use bounce.TcpConnection.{
  TcpConnection, ConnectState, connecting, connected, disconnected, disconnecting, is_disconnecting,
  Callbacks, finish_write, after_send,
}
use bounce.TcpConnection.Inv.{
  Watches, change-Watches, is_writing-disable, IsValid, stream, nothing_waits,
}

-- What `handleWrite` keeps: the bytes and the state, and writing is shut down only with nothing left
-- to send.
pub record Writes (c c' : TcpConnection) : Type 0 where
  pub valid : IsValid c'
  pub bytes : stream c' ≡ stream c
  pub state : c'.state ≡ c.state
  pub shut :
      (c'.write_shut ≡ c.write_shut)
      ⊎ ((c.state ≡ disconnecting) × (contents c'.output_buffer ≡ []))

pub Writes-refl : {c : TcpConnection} → IsValid c → Writes c c
Writes-refl v = record { valid = v; bytes = refl; state = refl; shut = inl refl }

module _ (cbs : Callbacks) where
  finish_write-fields :
      (c : TcpConnection)
      → ((finish_write cbs c).state ≡ c.state)
        × ((finish_write cbs c).channel ≡ change disable_writing c.channel)
        × ((finish_write cbs c).output_buffer ≡ c.output_buffer)
        × ((finish_write cbs c).wire ≡ c.wire)
  unfolding finish_write
  finish_write-fields c = ground arith

  finish_write-shut :
      (c : TcpConnection)
      → is_writing (change disable_writing c.channel) ≡ false
      → (finish_write cbs c).write_shut ≡ (if is_disconnecting c.state then true else c.write_shut)
  unfolding finish_write
  finish_write-shut c off = ground arith

module _ (cbs : Callbacks) {c : TcpConnection} (v : IsValid c) (on : is_writing c.channel ≡ true)
    (n : ℕ) (fits : n ≤ length (contents c.output_buffer)) where
  taken : Takes n c.output_buffer (retrieve n c.output_buffer)
  taken = retrieve-Takes n v.output

  -- The connection when `::send` took the bytes.
  advanced : TcpConnection
  advanced = record c {
    wire = c.wire ++ take n (take (readable_bytes c.output_buffer) (peek c.output_buffer));
    output_buffer = retrieve n c.output_buffer;
  }

  offered : take (readable_bytes c.output_buffer) (peek c.output_buffer) ≡ contents c.output_buffer
  unfolding peek
  offered =
      take_window (readable_bytes c.output_buffer) v.output
        (omega (arith, readable_bytes-contents v.output))
      ∙ take-ge_length (readable_bytes c.output_buffer) (contents c.output_buffer)
          (omega (arith, readable_bytes-contents v.output))

  stream-advanced : stream advanced ≡ stream c
  unfolding advanced
  stream-advanced =
      ap₂ (λ out waiting. (c.wire ++ take n out) ++ waiting) offered taken.queue
      ∙ append_assoc c.wire (take n (contents c.output_buffer)) (drop n (contents c.output_buffer))
      ∙ ap (λ l. c.wire ++ l) (take-append-drop n (contents c.output_buffer))

  advanced-output : IsValidBuffer advanced.output_buffer
  unfolding advanced
  advanced-output = taken.valid

  finished : TcpConnection
  finished = finish_write cbs advanced

  fields :
      (finished.state ≡ c.state)
      × (finished.channel ≡ change disable_writing c.channel)
      × (finished.output_buffer ≡ advanced.output_buffer)
      × (finished.wire ≡ advanced.wire)
  unfolding finished advanced
  fields = finish_write-fields cbs advanced

  finished-shut : finished.write_shut ≡ (if is_disconnecting c.state then true else c.write_shut)
  unfolding finished advanced
  finished-shut = finish_write-shut cbs advanced (is_writing-disable v.watches)

  module _ (drained : (readable_bytes advanced.output_buffer == 0) ≡ true) where
    finished-empty : contents finished.output_buffer ≡ []
    finished-empty = ap contents fields.2 ∙ nothing_waits advanced-output drained

    finished-Writes : Writes c finished
    finished-Writes = record {
      valid = record {
        output = subst IsValidBuffer (sym fields.2) advanced-output;
        watches = subst Watches (sym fields.1) (change-Watches disable_writing v.watches);
        waits = inr (
            ap is_writing fields.1
            ∙ is_writing-disable v.watches
            ∙ ap not (sym (ap (λ b. readable_bytes b == 0) fields.2 ∙ drained)));
      };
      bytes = ap₂ ◌++◌ fields.3 (ap contents fields.2) ∙ stream-advanced;
      state = fields.0;
      shut = by_state c.state refl;
    }
      where
        by_state :
            (s : ConnectState)
            → c.state ≡ s
            → (finished.write_shut ≡ c.write_shut)
              ⊎ ((c.state ≡ disconnecting) × (contents finished.output_buffer ≡ []))
        by_state disconnecting e = inr (e, finished-empty)
        by_state connecting e = inl (finished-shut ∙ rw e refl)
        by_state connected e = inl (finished-shut ∙ rw e refl)
        by_state disconnected e = inl (finished-shut ∙ rw e refl)

    -- With all bytes out a connection that is being shut down has its socket shut.
    drained-shut :
        c.state ≡ disconnecting → (finished.write_shut ≡ true) × (finished.wire ≡ stream c)
    drained-shut closing = (
      finished-shut ∙ rw closing refl,
      sym (append-nil finished.wire)
          ∙ ap (λ l. finished.wire ++ l) (sym finished-empty)
          ∙ finished-Writes.bytes,
    )

  waiting-Writes : (readable_bytes advanced.output_buffer == 0) ≡ false → Writes c advanced
  unfolding advanced
  waiting-Writes more = record {
    valid = record {
      output = taken.valid;
      watches = v.watches;
      waits = inr (on ∙ sym (ap not more));
    };
    bytes = stream-advanced;
    state = refl;
    shut = inl refl;
  }

  pub after_send-Writes : Writes c (after_send cbs n c)
  unfolding after_send advanced finished
  after_send-Writes = elim (Bool-cases (readable_bytes (retrieve n c.output_buffer) == 0)) [
    | inl drained ↦ rw (drained, after_send) (finished-Writes drained)
    | inr more ↦ rw (more, after_send) (waiting-Writes more)
  ]

-- Where the kernel takes everything that waits in a connection that is being shut down, all the
-- bytes given to it are out, and the socket is then shut down for writing.
pub after_send-shut :
    (cbs : Callbacks) {c : TcpConnection} (v : IsValid c)
    → is_writing c.channel ≡ true
    → c.state ≡ disconnecting
    → let c' = after_send cbs (length (contents c.output_buffer)) c in
      (c'.write_shut ≡ true) × (c'.wire ≡ stream c)
unfolding after_send advanced finished
after_send-shut cbs {c} v on closing =
    rw (drained) (drained-shut cbs v on n (omega arith) drained closing)
  where
    n : ℕ
    n = length (contents c.output_buffer)

    drained : (readable_bytes (retrieve n c.output_buffer) == 0) ≡ true
    drained = ground (
      arith,
      readable_bytes-contents (taken cbs v on n (omega arith)).valid,
      ap length (taken cbs v on n (omega arith)).queue,
      length-drop n (contents c.output_buffer),
    )
