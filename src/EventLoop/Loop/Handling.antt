-- ===== src/EventLoop/Loop/Handling.antt =====
-- A turn of the loop handles what the kernel reported: each channel once, with its own flags.
use bounce.Prelude.{
  true, false, ℕ, zero, suc, ◌<◌, ◌≡◌, refl, sym, ap, ◌∙◌, Option, none, some, List, [], ◌∷◌,
  get_elem?, arith, some_eq, ◌>>=◌,
}
use bounce.Prelude.Int.{ℤ, pos}
use bounce.Channel.{Callbacks, handle_channel}
use bounce.Channel.Dispatch.{
  Flags, Event, revents_of, events_of, on_event, on_events, handle_channel-on_events,
}
use bounce.PollPoller.{PollFd, PollPoller, store_revents}
use bounce.PollPoller.Inv.{IsValid}
use bounce.PollPoller.Fill.{Active, nil, idle, ready}
use bounce.PollPoller.Poll.{IgnoresNegative, poll-Filled}
use bounce.PollPoller.Implements.{poll_poller}
use bounce.EventLoop.{Functor}
use bounce.EventLoop.Loop.{Loop, handle_channels, run_tmp_vec, do_tasks, loop_turn}

-- What the kernel reported in the entries, by the addresses of the channels.
pub data Reported (channels : ℤ → Option ℕ) : List PollFd → List (ℕ × Flags) → Type 0 where
  end : Reported channels [] []
  quiet :
      {e : PollFd} {es : List PollFd} {rs : List (ℕ × Flags)}
      → e.revents ≡ 0
      → Reported channels es rs
      → Reported channels (e ∷ es) rs
  came :
      {e : PollFd} {es : List PollFd} {rs : List (ℕ × Flags)} (p : ℕ) (f : Flags)
      → 0 < e.revents
      → e.revents ≡ revents_of f
      → channels e.fd ≡ some p
      → Reported channels es rs
      → Reported channels (e ∷ es) ((p, f) ∷ rs)

-- Every channel that was reported holds its flags.
abbrev Told : PollPoller → List (ℕ × Flags) → Type 0
Told w [] = Unit {0}
Told w ((p, f) ∷ rs) = ((w.store p).revents ≡ revents_of f) × Told w rs

abbrev addresses : List (ℕ × Flags) → List ℕ
addresses [] = []
addresses ((p, f) ∷ rs) = p ∷ addresses rs

Reported-Active :
    {channels : ℤ → Option ℕ} {es : List PollFd} {rs : List (ℕ × Flags)} {listed : List ℕ}
    → Reported channels es rs
    → Active channels es listed
    → listed ≡ addresses rs
Reported-Active end nil = refl
Reported-Active (quiet z r) (idle z' a) = Reported-Active r a
Reported-Active (quiet z r) (ready p c k a) = absurd (omega (arith, z, c))
Reported-Active (came p f c e k r) (idle z a) = absurd (omega (arith, z, c))
Reported-Active (came p f c e k r) (ready q c' k' a) =
    cc (some_eq (sym k ∙ k'), Reported-Active r a)

Reported-Told :
    (w : PollPoller) {channels : ℤ → Option ℕ} {es : List PollFd} {rs : List (ℕ × Flags)}
    → Reported channels es rs
    → ((j : ℕ) (e : PollFd)
        → get_elem? es j ≡ some e
        → 0 < e.revents
        → (p : ℕ) × (channels e.fd ≡ some p) × ((w.store p).revents ≡ e.revents))
    → Told w rs
Reported-Told w end told = tt
Reported-Told w (quiet z r) told = Reported-Told w r (λ j. told (suc j))
Reported-Told w (came {e} p f c is k r) told =
    let (q, k', here) = told zero e refl c in
    (
      ap (λ x. (w.store x).revents) (some_eq (sym k ∙ k')) ∙ here ∙ is,
      Reported-Told w r (λ j. told (suc j)),
    )

module _ {S : Type 0} (handlers : ℕ → Callbacks (Loop PollPoller S))
    (run : Functor → Loop PollPoller S → Loop PollPoller S) where
  -- Only `poll` stores a `revents`: no callback of a channel changes one.
  abbrev pub KeepsRevents : Type 0
  KeepsRevents =
      (p time : ℕ) (ev : Event) (l : Loop PollPoller S) (q : ℕ)
      → ((on_event (handlers p) time ev l).poller.store q).revents ≡ (l.poller.store q).revents

  -- The handling of what was reported: for each channel, the callbacks of its events.
  unfoldable pub handle_reported : ℕ → List (ℕ × Flags) → Loop PollPoller S → Loop PollPoller S
  handle_reported time [] l = l
  handle_reported time ((p, f) ∷ rs) l =
      handle_reported time rs
        (on_events (handlers p) time (events_of f) (record l { cur_channel = some p }))

  -- The functors in turn, and what is left of the loop then: none of them is queued any more, and only
  -- what they queue themselves is.
  unfoldable pub run_each : List Functor → Loop PollPoller S → Loop PollPoller S
  run_each [] l = l
  run_each (f ∷ fs) l = run_each fs (run f l)

  unfoldable pub after_tasks : Loop PollPoller S → Loop PollPoller S
  unfolding run_each
  after_tasks l =
      record (run_each l.task_vec (record l { doing_the_tasks = true; task_vec = [] })) {
        doing_the_tasks = false;
      }

  run_tmp_vec-run_each :
      (fs : List Functor) (l : Loop PollPoller S)
      → run_tmp_vec poll_poller handlers run fs l ≡ run_each fs l
  unfolding run_tmp_vec run_each
  run_tmp_vec-run_each [] l = refl
  run_tmp_vec-run_each (f ∷ fs) l = run_tmp_vec-run_each fs (run f l)

  do_tasks-after_tasks :
      (l : Loop PollPoller S) → do_tasks poll_poller handlers run l ≡ after_tasks l
  unfolding do_tasks after_tasks
  do_tasks-after_tasks l =
      ap (λ (x : Loop PollPoller S). record x { doing_the_tasks = false })
        (run_tmp_vec-run_each l.task_vec (record l { doing_the_tasks = true; task_vec = [] }))

  module _ (keeps : KeepsRevents) where
    on_events-keeps :
        (p time : ℕ) (evs : List Event) (l : Loop PollPoller S) (q : ℕ)
        → ((on_events (handlers p) time evs l).poller.store q).revents ≡ (l.poller.store q).revents
    unfolding on_events
    on_events-keeps p time [] l q = refl
    on_events-keeps p time (ev ∷ evs) l q =
        on_events-keeps p time evs (on_event (handlers p) time ev l) q ∙ keeps p time ev l q

    Told-kept :
        (w w' : PollPoller) (rs : List (ℕ × Flags))
        → ((q : ℕ) → (w'.store q).revents ≡ (w.store q).revents)
        → Told w rs
        → Told w' rs
    Told-kept w w' [] same told = tt
    Told-kept w w' ((p, f) ∷ rs) same (here, rest) = (same p ∙ here, Told-kept w w' rs same rest)

    handle_channels-Reported :
        (time : ℕ) (rs : List (ℕ × Flags)) (l : Loop PollPoller S)
        → Told l.poller rs
        → handle_channels poll_poller handlers run time (addresses rs) l ≡ handle_reported time rs l
    unfolding handle_channels handle_reported poll_poller
    handle_channels-Reported time [] l told = refl
    handle_channels-Reported time ((p, f) ∷ rs) l (here, rest) =
        let l' : Loop PollPoller S =
          on_events (handlers p) time (events_of f) (record l { cur_channel = some p }) in
        ap
          (λ (x : Loop PollPoller S).
            handle_channels poll_poller handlers run time (addresses rs) x)
          (ap (λ r. handle_channel (handlers p) r time (record l { cur_channel = some p })) here
            ∙ handle_channel-on_events (handlers p) time f (record l { cur_channel = some p }))
        ∙ handle_channels-Reported time rs l' (
            Told-kept l.poller l'.poller rs
              (on_events-keeps p time (events_of f) (record l { cur_channel = some p })) rest)

    -- If callbacks do not change the flags of channels and `::poll` reported some results, and none
    -- for an entry that it has to ignore, then a turn of the loop over a valid poller does not crash:
    -- the callbacks of each channel that was reported run for the events that the flags of its own
    -- entry stand for, in the order of the entries, and then the tasks that are queued by then, in
    -- order, each once, while the loop is known to be doing its tasks.
    pub loop_turn-Reported :
        (r time : ℕ) (revents : List ℕ) (rs : List (ℕ × Flags)) (l : Loop PollPoller S)
        → IsValid l.poller
        → 0 < r
        → IgnoresNegative (store_revents l.poller.pollfds revents)
        → Reported l.poller.channels (store_revents l.poller.pollfds revents) rs
        → (w : PollPoller) × IsValid w
          × (loop_turn poll_poller handlers run
                (record { ret = pos r; revents = revents; recv_time = time })
                l
              ≡ some (
                  after_tasks
                    (record (handle_reported time rs
                      (record l { poller = w; active_channels = addresses rs })) {
                        cur_channel = none;
                      })))
    unfolding loop_turn poll_poller
    loop_turn-Reported r time revents rs l v some_came silent reported =
        let (w, listed, polled, filled, valid) = poll-Filled revents v r some_came silent in
        let ends : Loop PollPoller S → Option (Loop PollPoller S) =
          λ x. some (do_tasks poll_poller handlers run (record x { cur_channel = none })) in
        (
          w,
          valid,
          ap
                (λ (o : Option (PollPoller × List ℕ)). o >>= λ (x : PollPoller × List ℕ). ends (
                  handle_channels poll_poller handlers run time x.1
                    (record l { poller = x.0; active_channels = x.1 })))
                polled
              ∙ ap
                  (λ (ps : List ℕ). ends (
                    handle_channels poll_poller handlers run time ps
                      (record l { poller = w; active_channels = ps })))
                  (Reported-Active reported filled.active)
              ∙ ap ends (
                  handle_channels-Reported time rs
                    (record l { poller = w; active_channels = addresses rs })
                    (Reported-Told w reported filled.told))
              ∙ ap some (do_tasks-after_tasks _),
        )
