-- ===== src/Channel.antt =====
-- bounce/channel.h and bounce/channel.cc: the events that a file descriptor is watched for, and the
-- dispatch of those that came. The flags are the values that Linux gives them in <poll.h>; a
-- `short` is its bit pattern, below 2 ^ 16.
pub mod Events
pub mod Calls
pub mod Dispatch
mod Tests
use bounce.Prelude.{
  ℕ, ◌+◌, ◌-◌, ◌^◌, Bool, not, ◌&&◌, Option, none, some, bit_and, bit_or, ◌==◌, if◌then◌else◌,
}
use bounce.Prelude.Int.{ℤ}

abbrev pub pollin : ℕ
pollin = 0x001

abbrev pub pollpri : ℕ
pollpri = 0x002

abbrev pub pollout : ℕ
pollout = 0x004

abbrev pub pollerr : ℕ
pollerr = 0x008

abbrev pub pollhup : ℕ
pollhup = 0x010

abbrev pub pollnval : ℕ
pollnval = 0x020

abbrev pub pollrdhup : ℕ
pollrdhup = 0x2000

-- `kNoneEvent`, `kReadEvent` and `kWriteEvent`.
abbrev pub none_event : ℕ
none_event = 0

abbrev pub read_event : ℕ
read_event = bit_or pollin pollpri

abbrev pub write_event : ℕ
write_event = pollout

-- The members but for `loop_`, which is the loop whose state a channel is part of, and the
-- callbacks, which `Callbacks` holds.
pub record Channel : Type 0 where
  pub fd : ℤ
  pub events : ℕ
  pub revents : ℕ
  pub index : ℕ

unfoldable pub init : ℤ → Channel
init fd = record { fd = fd; events = 0; revents = 0; index = 0 }

unfoldable pub set_revents : ℕ → Channel → Channel
set_revents revents c = record c { revents = revents }

unfoldable pub set_index : ℕ → Channel → Channel
set_index index c = record c { index = index }

-- `~mask`, of a `short`.
abbrev pub complement : ℕ → ℕ
complement mask = 2 ^ 16 - 1 - mask

-- What `enableReading` and its like do to `events_`, before they call `update`.
pub data Change : Type 0 where
  enable_reading disable_reading enable_writing disable_writing disable_all : Change

unfoldable pub change_events : Change → ℕ → ℕ
change_events enable_reading events = bit_or events read_event
change_events disable_reading events = bit_and events (complement read_event)
change_events enable_writing events = bit_or events write_event
change_events disable_writing events = bit_and events (complement write_event)
change_events disable_all events = none_event

unfoldable pub change : Change → Channel → Channel
unfolding change_events
change ch c = record c { events = change_events ch c.events }

-- A test of a flag: the value converted to `bool`.
abbrev pub has : ℕ → ℕ → Bool
has flags mask = not (bit_and flags mask == 0)

unfoldable pub is_writing : Channel → Bool
is_writing c = has c.events write_event

unfoldable pub is_reading : Channel → Bool
is_reading c = has c.events read_event

unfoldable pub is_none_event : Channel → Bool
is_none_event c = c.events == none_event

abbrev pub EventCallback {ℓ} : Type ℓ → Type ℓ
EventCallback S = S → S

abbrev pub ReadEventCallback {ℓ} : Type ℓ → Type ℓ
ReadEventCallback S = ℕ → S → S

-- The callbacks over the state `S` that they change; `none` is an empty `std::function`.
pub record Callbacks {ℓ} (S : Type ℓ) : Type ℓ where
  pub read_cb : Option (ReadEventCallback S)
  pub write_cb : Option (EventCallback S)
  pub close_cb : Option (EventCallback S)
  pub error_cb : Option (EventCallback S)

abbrev pub no_callbacks {ℓ} : {S : Type ℓ} → Callbacks S
no_callbacks = record { read_cb = none; write_cb = none; close_cb = none; error_cb = none }

module _ {ℓ} {S : Type ℓ} where
  unfoldable pub set_read_callback : Option (ReadEventCallback S) → Callbacks S → Callbacks S
  set_read_callback cb c = record c { read_cb = cb }

  unfoldable pub set_write_callback : Option (EventCallback S) → Callbacks S → Callbacks S
  set_write_callback cb c = record c { write_cb = cb }

  unfoldable pub set_close_callback : Option (EventCallback S) → Callbacks S → Callbacks S
  set_close_callback cb c = record c { close_cb = cb }

  unfoldable pub set_error_callback : Option (EventCallback S) → Callbacks S → Callbacks S
  set_error_callback cb c = record c { error_cb = cb }

module _ {ℓ} {S : Type ℓ} where
  -- `if (cb) cb();`
  abbrev pub call : Option (S → S) → S → S
  call none s = s
  call (some f) s = f s

  abbrev pub call_read : Option (ℕ → S → S) → ℕ → S → S
  call_read none t s = s
  call_read (some f) t s = f t s

  -- `handleChannel`, for the value of `revents_` that `poll` stored.
  unfoldable pub handle_channel : Callbacks S → ℕ → ℕ → S → S
  handle_channel cbs revents recv_time s =
      let s₁ = if has revents pollhup && not (has revents pollin) then call cbs.close_cb s else s in
      let s₂ = if has revents (bit_or pollerr pollnval) then call cbs.error_cb s₁ else s₁ in
      let s₃ =
        if has revents (bit_or (bit_or pollin pollpri) pollrdhup)
        then call_read cbs.read_cb recv_time s₂
        else s₂ in
      if has revents pollout then call cbs.write_cb s₃ else s₃
