-- ===== src/Poller.antt =====
-- bounce/poller.h, and the parts of bounce/channel.h, bounce/channel.cc and bounce/event_loop.cc by which a
-- channel reaches the poller of its loop. `Poller` is what the abstract class promises to its
-- clients; its instances are the derived classes. A channel is known by its address.
pub mod Watching
use bounce.Prelude.{ℕ, ◌≡◌, ◌≢◌, ◌⊎◌, Option, none, some, List, ◌==◌, if◌then◌else◌, ◌>>=◌}
use bounce.Prelude.Int.{ℤ, pos}
use bounce.Channel.{Channel, Change, change}

-- The class, over the states `W` of a derived class: the map `channels_`, the channels themselves at
-- their addresses, and what the kernel will be asked for a descriptor. `poll` takes what `::poll`
-- returned and stored, and lists the addresses of the active channels; `none` is a crash.
pub record Poller (W : Type 0) : Type 0 where
  pub channels : W → ℤ → Option ℕ
  pub channel_at : W → ℕ → Channel
  pub asked : W → ℕ → Option ℕ
  pub change_at : Change → ℕ → W → W
  pub poll : ℤ → List ℕ → W → Option (W × List ℕ)
  pub update_channel : ℕ → W → Option W
  pub remove_channel : ℕ → W → Option W

module _ {W : Type 0} (poller : Poller W) where
  -- Nothing but the events of one channel has changed.
  pub record Changes (ch : Change) (p : ℕ) (w w' : W) : Type 0 where
    pub channels : (fd : ℤ) → poller.channels w' fd ≡ poller.channels w fd
    pub asked : (n : ℕ) → poller.asked w' n ≡ poller.asked w n
    pub changed : poller.channel_at w' p ≡ change ch (poller.channel_at w p)
    pub kept : (q : ℕ) → q ≢ p → poller.channel_at w' q ≡ poller.channel_at w q

  -- The events and the descriptor of every channel are as they were.
  abbrev pub SameChannels : W → W → Type 0
  SameChannels w w' =
      (q : ℕ)
      → ((poller.channel_at w' q).fd ≡ (poller.channel_at w q).fd)
        × ((poller.channel_at w' q).events ≡ (poller.channel_at w q).events)

  -- Descriptors other than `n` are known and asked for as before.
  abbrev pub SameOthers : ℕ → W → W → Type 0
  SameOthers n w w' =
      (m : ℕ)
      → m ≢ n
      → (poller.channels w' (pos m) ≡ poller.channels w (pos m))
        × (poller.asked w' m ≡ poller.asked w m)

  -- The channel at `p` is known under its descriptor `n`, and the kernel is asked for its events.
  pub record Updates (p n : ℕ) (w w' : W) : Type 0 where
    pub known : poller.channels w' (pos n) ≡ some p
    pub asked : poller.asked w' n ≡ some (poller.channel_at w p).events
    pub others : SameOthers n w w'
    pub same : SameChannels w w'

  pub record Removes (n : ℕ) (w w' : W) : Type 0 where
    pub unknown : poller.channels w' (pos n) ≡ none
    pub others : SameOthers n w w'
    pub same : SameChannels w w'

-- The laws of a poller. `IsValid` is the invariant of its representation, `IsRemovable` tells where
-- `removeChannel` of a channel does not crash.
pub record PollerLaws {W : Type 0} (poller : Poller W) : Type 1 where
  pub IsValid : W → Type 0
  pub IsRemovable : ℕ → ℕ → W → Type 0
  pub keyed :
      (w : W) (n p : ℕ)
      → IsValid w
      → poller.channels w (pos n) ≡ some p
      → (poller.channel_at w p).fd ≡ pos n
  pub change_at-Changes :
      (ch : Change) (p : ℕ) (w : W)
      → IsValid w
      → IsValid (poller.change_at ch p w) × Changes poller ch p w (poller.change_at ch p w)
  pub update_channel-Updates :
      (p n : ℕ) (w : W)
      → IsValid w
      → (poller.channel_at w p).fd ≡ pos n
      → (poller.channels w (pos n) ≡ none) ⊎ (poller.channels w (pos n) ≡ some p)
      → (w' : W) × (poller.update_channel p w ≡ some w') × IsValid w' × Updates poller p n w w'
  pub remove_channel-Removes :
      (p n : ℕ) (w : W)
      → IsValid w
      → poller.channels w (pos n) ≡ some p
      → IsRemovable p n w
      → (w' : W) × (poller.remove_channel p w ≡ some w') × IsValid w' × Removes poller n w w'

-- `EventLoop::updateChannel` and `removeChannel`, by which `Channel::update` and `remove` reach the
-- poller, and the functions of a channel that change what it is watched for.
module _ {W : Type 0} (poller : Poller W) where
  unfoldable pub loop_update_channel : ℕ → W → Option W
  loop_update_channel p w = poller.update_channel p w

  unfoldable pub loop_remove_channel : ℕ → W → Option W
  loop_remove_channel p w = poller.remove_channel p w

  unfoldable pub update : ℕ → W → Option W
  unfolding loop_update_channel
  update p w = loop_update_channel p w

  unfoldable pub remove : ℕ → W → Option W
  unfolding loop_remove_channel
  remove p w = loop_remove_channel p w

  unfoldable pub change_and_update : Change → ℕ → W → Option W
  unfolding update
  change_and_update ch p w = update p (poller.change_at ch p w)
