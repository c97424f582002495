-- ===== src/EventLoop/Construct/Tests.antt =====
-- A new loop over an empty poller.
use bounce.Prelude.{◌≡◌, refl, ◌==◌, if◌then◌else◌, arith}
use bounce.Prelude.Int.{pos, negsuc}
use bounce.Prelude.Outcomes.{returns, exits}
use bounce.Channel
use bounce.PollPoller
use bounce.PollPoller.{PollPoller}
use bounce.PollPoller.Inv.{IsValid}
use bounce.PollPoller.Implements.{poll_poller, poll_poller_laws}
use bounce.Poller.Watching.{Watching}
use bounce.EventLoop.Construct.{construct, exit_status}
use bounce.EventLoop.Construct.Ready.{Reads, construct-Reads}

-- The channels of the timers and of the eventfd.
abbrev empty : PollPoller
unfolding PollPoller.init Channel.init
empty = PollPoller.init (λ q. if q == 0 then Channel.init (pos 4) else Channel.init (pos 5))

empty-IsValid : IsValid empty
unfolding empty PollPoller.init
empty-IsValid = record {
  keyed = λ n p h. cc;
  entry = λ n p h. cc;
  natural = λ n. refl;
  channel = λ i e h. cc;
}

empty-Watching : Watching poll_poller_laws empty
unfolding poll_poller_laws poll_poller empty PollPoller.init
empty-Watching = record { valid = empty-IsValid; asks = λ n p h. cc }

construct-Reads_example :
    ((w' : PollPoller) × (construct poll_poller 0 1 (pos 5) empty ≡ returns w')
      × Watching poll_poller_laws w'
      × Reads poll_poller_laws 0 4 w'
      × Reads poll_poller_laws 1 5 w')
    × (construct poll_poller 0 1 (negsuc 0) empty ≡ exits exit_status)
unfolding poll_poller empty PollPoller.init
construct-Reads_example =
    construct-Reads poll_poller_laws 0 1 4 5 empty empty-Watching refl refl (omega arith) refl refl
