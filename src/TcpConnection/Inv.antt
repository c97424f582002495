-- ===== src/TcpConnection/Inv.antt =====
-- The invariant of a connection's output: while it is not disconnected, it watches for writing
-- exactly if bytes wait in the output buffer.
use bounce.Prelude.{
  ℕ, ◌≤◌, ◌≡◌, refl, sym, ap, ◌∙◌, ◌⊎◌, inl, inr, Bool, true, false, not, List, [], ◌∷◌, ◌++◌,
  arith, length, ◌==◌, subst,
}
use bounce.Prelude.Int.{ℤ, pos, negsuc}
use bounce.Buffer.{Buffer, readable_bytes}
use bounce.Buffer.Inv.{IsValid as IsValidBuffer, contents, readable_bytes-contents}
use bounce.Channel.{
  Channel, Change, change, is_writing, change_events, enable_writing, disable_writing,
}
use bounce.Channel.Events.{Interest, bits, apply, change_events-bits, bits_flags}
use bounce.TcpConnection.{TcpConnection, disconnected}

-- The channel watches for a set of events that its changes can make.
pub record Watches (ch : Channel) : Type 0 where
  pub interest : Interest
  pub events : ch.events ≡ bits interest

change-bits :
    (ch : Change) (i : Interest) (c : Channel)
    → c.events ≡ bits i
    → (change ch c).events ≡ bits (apply ch i)
unfolding change
change-bits ch i c e = ap (change_events ch) e ∙ change_events-bits ch i

pub change-Watches : (ch : Change) {c : Channel} → Watches c → Watches (change ch c)
change-Watches ch {c} w = record {
  interest = apply ch w.interest;
  events = change-bits ch w.interest c w.events;
}

pub is_writing-enable : {c : Channel} → Watches c → is_writing (change enable_writing c) ≡ true
unfolding apply
is_writing-enable {c} w =
    (bits_flags _ (change enable_writing c) (change-bits enable_writing w.interest c w.events)).1

pub is_writing-disable : {c : Channel} → Watches c → is_writing (change disable_writing c) ≡ false
unfolding apply
is_writing-disable {c} w =
    (bits_flags _ (change disable_writing c) (change-bits disable_writing w.interest c w.events)).1

-- Bytes wait in the output buffer.
abbrev pub has_output : TcpConnection → Bool
has_output c = not (readable_bytes c.output_buffer == 0)

pub record IsValid (c : TcpConnection) : Type 0 where
  pub output : IsValidBuffer c.output_buffer
  pub watches : Watches c.channel
  pub waits : (c.state ≡ disconnected) ⊎ (is_writing c.channel ≡ has_output c)

-- All the bytes that were given to the connection and are not lost, in order: those that the
-- kernel has taken, and those that wait.
abbrev pub stream : TcpConnection → List ℕ
stream c = c.wire ++ contents c.output_buffer

-- The kernel takes no more bytes than it is given.
abbrev pub TakesAtMost : ℕ → ℤ → Type 0
TakesAtMost size (pos n) = n ≤ size
TakesAtMost size (negsuc n) = Unit {0}

pub nothing_waits :
    {b : Buffer} → IsValidBuffer b → (readable_bytes b == 0) ≡ true → contents b ≡ []
nothing_waits {b} v e = nil_of_length (contents b) (ground (arith, readable_bytes-contents v))
  where
    nil_of_length : (l : List ℕ) → length l ≡ 0 → l ≡ []
    nil_of_length [] h = refl
    nil_of_length (x ∷ l) h = absurd (omega arith)

-- The invariant speaks of the state, the channel and the output buffer alone.
pub IsValid-same :
    {c c' : TcpConnection}
    → c'.state ≡ c.state
    → c'.channel ≡ c.channel
    → c'.output_buffer ≡ c.output_buffer
    → IsValid c
    → IsValid c'
IsValid-same {c} {c'} same_state same_channel same_output v = record {
  output = subst IsValidBuffer (sym same_output) v.output;
  watches = subst Watches (sym same_channel) v.watches;
  waits = elim v.waits [
    | inl gone ↦ inl (same_state ∙ gone)
    | inr e ↦
        inr
          (ap is_writing same_channel ∙ e ∙ sym (ap (λ b. not (readable_bytes b == 0)) same_output))
  ];
}
