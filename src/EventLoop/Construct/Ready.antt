-- ===== src/EventLoop/Construct/Ready.antt =====
-- A new loop watches its timers and its eventfd.
use bounce.Prelude.{ℕ, ◌≡◌, ◌≢◌, sym, ap, ◌∙◌, inl, Option, none, some}
use bounce.Prelude.Int.{pos, negsuc, pos_eq}
use bounce.Prelude.Outcomes.{returns, exits, ◌>>=◌}
use bounce.Channel
use bounce.Channel.{Channel, change, change_events, enable_reading, read_event}
use bounce.Poller.{Poller, PollerLaws}
use bounce.Poller.Watching.{Watching, change_and_update-Watching}
use bounce.EventLoop.Construct.{
  construct, construct_timer_queue, construct_weak_up, or_crash, exit_status,
}

module _ {W : Type 0} {poller : Poller W} (laws : PollerLaws poller) where
  -- The channel at `p` is known under the descriptor `n`, and the kernel is asked when it can be read.
  abbrev pub Reads : ℕ → ℕ → W → Type 0
  Reads p n w = (poller.channels w (pos n) ≡ some p) × (poller.asked w n ≡ some read_event)

  module _ (t p m n : ℕ) (w : W) (before : Watching laws w)
      (timer : poller.channel_at w t ≡ Channel.init (pos m))
      (weakup : poller.channel_at w p ≡ Channel.init (pos n)) (other : m ≢ n)
      (new_timer : poller.channels w (pos m) ≡ none)
      (new_weakup : poller.channels w (pos n) ≡ none) where
    reads :
        (q k : ℕ) (v : W)
        → Watching laws v
        → poller.channels v (pos k) ≡ some q
        → (poller.channel_at v q).events ≡ read_event
        → Reads q k v
    reads q k v agree known events = (known, agree.asks k q known ∙ ap some events)

    read-init :
        (q k : ℕ)
        → poller.channel_at w q ≡ Channel.init (pos k)
        → (change enable_reading (poller.channel_at w q)).events ≡ read_event
    unfolding change change_events Channel.init
    read-init q k e = ap (λ (c : Channel). change_events enable_reading c.events) e

    own-fd :
        (q k : ℕ)
        → poller.channel_at w q ≡ Channel.init (pos k)
        → (poller.channel_at w q).fd ≡ pos k
    unfolding Channel.init
    own-fd q k e = ap (λ (c : Channel). c.fd) e

    apart : p ≢ t
    apart same = other (
        pos_eq (
          sym (own-fd t m timer)
          ∙ ap (λ q. (poller.channel_at w q).fd) (sym same)
          ∙ own-fd p n weakup))

    -- If the poller of a new loop agrees with its channels and knows neither of the descriptors that
    -- `timerfd_create` and `::eventfd` returned, the constructor returns, channels and poller agree,
    -- and the kernel is asked when either can be read; if `::eventfd` failed, the program exits.
    pub construct-Reads :
        ((w' : W) × (construct poller t p (pos n) w ≡ returns w')
          × Watching laws w'
          × Reads t m w'
          × Reads p n w')
        × (construct poller t p (negsuc 0) w ≡ exits exit_status)
    unfolding construct construct_timer_queue construct_weak_up change change_events
    construct-Reads =
        let (w₁, first, agree₁, known_t, events_t, others₁, kept₁) =
          change_and_update-Watching laws enable_reading t m before (own-fd t m timer)
            (inl new_timer) in
        let (w₂, second, agree₂, known_p, events_p, others₂, kept₂) =
          change_and_update-Watching laws enable_reading p n agree₁
            ((kept₁ p apart).0 ∙ own-fd p n weakup)
            (inl (others₁ n (λ e. other (sym e)) ∙ new_weakup)) in
        (
          (
            w₂,
            ap (λ (o : Option W). or_crash o >>= construct_weak_up poller p (pos n)) first
                ∙ ap or_crash second,
            agree₂,
            reads t m w₂ agree₂ (others₂ m other ∙ known_t)
                ((kept₂ t (λ e. apart (sym e))).1 ∙ events_t ∙ read-init t m timer),
            reads p n w₂ agree₂ known_p (
                events_p
                ∙ ap (change_events enable_reading) (kept₁ p apart).1
                ∙ read-init p n weakup),
          ),
          ap (λ (o : Option W). or_crash o >>= construct_weak_up poller p (negsuc 0)) first,
        )
