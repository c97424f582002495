-- ===== src/Programs/PollerTest/Watches.antt =====
-- The channel of the program is watched.
use bounce.Prelude.{ℕ, ◌≡◌, ap, ◌∙◌, inl, inr, Option, none, some}
use bounce.Prelude.Int.{pos}
use bounce.Channel
use bounce.Channel.{Channel, change, change_events, enable_reading}
use bounce.Poller.{Poller, PollerLaws, loop_update_channel}
use bounce.Poller.Watching.{Watching, change_and_update-Watching}
use bounce.EventLoop.Construct.Ready.{Reads}
use bounce.Programs.PollerTest.{watch}

-- Where the loop's poller agrees with its channels and does not know the descriptor, the program comes to
-- its loop, and the kernel is asked when a connection comes in; the second update changes nothing.
pub watch-Reads :
    {W : Type 0} {poller : Poller W} (laws : PollerLaws poller) (c k : ℕ) (w : W)
    → Watching laws w
    → poller.channel_at w c ≡ Channel.init (pos k)
    → poller.channels w (pos k) ≡ none
    → (w' : W) × (watch poller c w ≡ some w') × Reads laws c k w'
unfolding watch loop_update_channel Channel.init change change_events
watch-Reads {W} {poller} laws c k w before new unknown =
    let own = ap (λ (x : Channel). x.fd) new in
    let (w₁, first, agree, known, events, others, kept) =
      change_and_update-Watching laws enable_reading c k before own (inl unknown) in
    let (w₂, second, valid, u) =
      laws.update_channel-Updates c k w₁ agree.valid (laws.keyed w₁ k c agree.valid known)
        (inr known) in
    (
      w₂,
      ap (λ (o : Option W). elim o [ none ↦ none | some v ↦ loop_update_channel poller c v ]) first
          ∙ second,
      (
        u.known,
        u.asked
            ∙ ap some (events ∙ ap (λ (x : Channel). change_events enable_reading x.events) new),
      ),
    )
