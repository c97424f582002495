-- ===== src/Channel/Events.antt =====
-- The events that a channel is watched for, after any sequence of changes.
use bounce.Prelude.{
  ℕ, ◌+◌, ◌≡◌, ◌∙◌, ◌↔◌, refl, Bool, true, false, List, [], ◌∷◌, arith, if◌then◌else◌, ap,
}
use bounce.Channel.{
  Channel, Change, enable_reading, disable_reading, enable_writing, disable_writing, disable_all,
  change_events, change, is_writing, is_reading, is_none_event, pollin, pollpri, pollout, init,
}
use bounce.Prelude.Int.{ℤ}

-- What a client means by a channel: whether it watches for reading, and for writing.
pub record Interest : Type 0 where
  pub reading : Bool
  pub writing : Bool

unfoldable pub apply : Change → Interest → Interest
apply enable_reading i = record i { reading = true }
apply disable_reading i = record i { reading = false }
apply enable_writing i = record i { writing = true }
apply disable_writing i = record i { writing = false }
apply disable_all i = record { reading = false; writing = false }

-- The bits of an interest.
abbrev pub bits : Interest → ℕ
bits i = (if i.reading then pollin + pollpri else 0) + (if i.writing then pollout else 0)

pub change_events-bits :
    (ch : Change) (i : Interest) → change_events ch (bits i) ≡ bits (apply ch i)
unfolding change_events apply
change_events-bits ch i = ground arith

pub bits_flags :
    (i : Interest) (c : Channel)
    → c.events ≡ bits i
    → (is_reading c ≡ i.reading)
      × (is_writing c ≡ i.writing)
      × ((is_none_event c ≡ true) ↔ ((i.reading ≡ false) × (i.writing ≡ false)))
unfolding is_reading is_writing is_none_event
bits_flags i c e = ground arith

unfoldable pub change_all : List Change → Channel → Channel
change_all [] c = c
change_all (ch ∷ chs) c = change_all chs (change ch c)

unfoldable pub apply_all : List Change → Interest → Interest
apply_all [] i = i
apply_all (ch ∷ chs) i = apply_all chs (apply ch i)

pub change_all-bits :
    (chs : List Change) (i : Interest) (c : Channel)
    → c.events ≡ bits i
    → (change_all chs c).events ≡ bits (apply_all chs i)
unfolding change_all apply_all change
change_all-bits [] i c e = e
change_all-bits (ch ∷ chs) i c e =
    change_all-bits chs (apply ch i) (change ch c)
      (ap (change_events ch) e ∙ change_events-bits ch i)

-- After any sequence of changes to a new channel, `isReading`, `isWriting` and `isNoneEvent` tell
-- what the last enabling or disabling of reading and of writing asked for.
pub change_all_flags :
    (chs : List Change) (fd : ℤ)
    → let c = change_all chs (init fd) in
      let i = apply_all chs (record { reading = false; writing = false }) in
      (is_reading c ≡ i.reading)
      × (is_writing c ≡ i.writing)
      × ((is_none_event c ≡ true) ↔ ((i.reading ≡ false) × (i.writing ≡ false)))
unfolding init
change_all_flags chs fd = bits_flags _ _ (change_all-bits chs _ _ refl)
