-- ===== src/Channel/Calls.antt =====
-- The public functions of a channel, called in any order on a new one.
use bounce.Prelude.{ℕ, ◌≡◌, ◌↔◌, refl, ap, ◌∙◌, true, false, Option, List, [], ◌∷◌}
use bounce.Prelude.Int.{ℤ}
use bounce.Channel.{
  Channel, Change, EventCallback, ReadEventCallback, Callbacks, no_callbacks, init, set_revents,
  set_index, change, change_events, is_reading, is_writing, is_none_event, set_read_callback,
  set_write_callback, set_close_callback, set_error_callback, handle_channel,
}
use bounce.Channel.Events.{Interest, apply, apply_all, bits, change_events-bits, bits_flags}

-- A channel with its callbacks, which change a state `S`.
pub record Watcher (S : Type 0) : Type 0 where
  pub channel : Channel
  pub callbacks : Callbacks S

-- `enableReading` and its like are `changes`; what `update` and `remove` tell the loop is in Poller.
pub data Call (S : Type 0) : Type 0 where
  handles : ℕ → Call S
  sets_revents : ℕ → Call S
  sets_read_callback : Option (ReadEventCallback S) → Call S
  sets_write_callback : Option (EventCallback S) → Call S
  sets_close_callback : Option (EventCallback S) → Call S
  sets_error_callback : Option (EventCallback S) → Call S
  sets_index : ℕ → Call S
  changes : Change → Call S

module _ {S : Type 0} where
  abbrev pub on_channel : (Channel → Channel) → Watcher S × S → Watcher S × S
  on_channel f (w, s) = (record w { channel = f w.channel }, s)

  abbrev pub on_callbacks : (Callbacks S → Callbacks S) → Watcher S × S → Watcher S × S
  on_callbacks f (w, s) = (record w { callbacks = f w.callbacks }, s)

  unfoldable pub run_call : Call S → Watcher S × S → Watcher S × S
  unfolding handle_channel set_revents set_read_callback set_write_callback set_close_callback
      set_error_callback set_index change
  run_call (handles recv_time) (w, s) =
      (w, handle_channel w.callbacks w.channel.revents recv_time s)
  run_call (sets_revents revents) x = on_channel (set_revents revents) x
  run_call (sets_read_callback cb) x = on_callbacks (set_read_callback cb) x
  run_call (sets_write_callback cb) x = on_callbacks (set_write_callback cb) x
  run_call (sets_close_callback cb) x = on_callbacks (set_close_callback cb) x
  run_call (sets_error_callback cb) x = on_callbacks (set_error_callback cb) x
  run_call (sets_index index) x = on_channel (set_index index) x
  run_call (changes ch) x = on_channel (change ch) x

  unfoldable pub run_calls : List (Call S) → Watcher S × S → Watcher S × S
  unfolding run_call
  run_calls [] x = x
  run_calls (call ∷ calls) x = run_calls calls (run_call call x)

  -- The constructor, and then calls.
  unfoldable pub life : ℤ → List (Call S) → S → Watcher S × S
  unfolding init run_calls
  life fd calls s = run_calls calls (record { channel = init fd; callbacks = no_callbacks }, s)

  -- The changes among calls, in order.
  unfoldable pub changes_of : List (Call S) → List Change
  changes_of [] = []
  changes_of (changes ch ∷ calls) = ch ∷ changes_of calls
  changes_of (_ ∷ calls) = changes_of calls

  -- A call keeps the descriptor, and the events stand for what the changes so far asked for.
  record Means (fd : ℤ) (i : Interest) (w : Watcher S) : Type 0 where
    fd_same : w.channel.fd ≡ fd
    events : w.channel.events ≡ bits i

  run_calls-Means :
      (calls : List (Call S)) (fd : ℤ) (i : Interest) (w : Watcher S) (s : S)
      → Means fd i w
      → Means fd (apply_all (changes_of calls) i) (run_calls calls (w, s)).0
  unfolding run_calls run_call changes_of apply_all change set_revents set_index
  run_calls-Means [] fd i w s m = m
  run_calls-Means (handles t ∷ calls) fd i w s m = run_calls-Means calls fd i w _ m
  run_calls-Means (sets_revents r ∷ calls) fd i w s m =
      run_calls-Means calls fd i _ s (record { fd_same = m.fd_same; events = m.events })
  run_calls-Means (sets_read_callback cb ∷ calls) fd i w s m =
      run_calls-Means calls fd i _ s (record { fd_same = m.fd_same; events = m.events })
  run_calls-Means (sets_write_callback cb ∷ calls) fd i w s m =
      run_calls-Means calls fd i _ s (record { fd_same = m.fd_same; events = m.events })
  run_calls-Means (sets_close_callback cb ∷ calls) fd i w s m =
      run_calls-Means calls fd i _ s (record { fd_same = m.fd_same; events = m.events })
  run_calls-Means (sets_error_callback cb ∷ calls) fd i w s m =
      run_calls-Means calls fd i _ s (record { fd_same = m.fd_same; events = m.events })
  run_calls-Means (sets_index index ∷ calls) fd i w s m =
      run_calls-Means calls fd i _ s (record { fd_same = m.fd_same; events = m.events })
  run_calls-Means (changes ch ∷ calls) fd i w s m =
      run_calls-Means calls fd (apply ch i) _ s (record {
        fd_same = m.fd_same;
        events = ap (change_events ch) m.events ∙ change_events-bits ch i;
      })

  -- After any calls of the public functions of a new channel, in any order, its descriptor is the
  -- constructor's, and isReading, isWriting and isNoneEvent tell what the last enabling or disabling of
  -- reading and of writing among them asked for, whatever events were reported and handled meanwhile.
  pub life_flags :
      (fd : ℤ) (calls : List (Call S)) (s : S)
      → let c = (life fd calls s).0.channel in
        let i = apply_all (changes_of calls) (record { reading = false; writing = false }) in
        (c.fd ≡ fd)
        × (is_reading c ≡ i.reading)
        × (is_writing c ≡ i.writing)
        × ((is_none_event c ≡ true) ↔ ((i.reading ≡ false) × (i.writing ≡ false)))
  unfolding life init
  life_flags fd calls s =
      let m =
        run_calls-Means calls fd (record { reading = false; writing = false })
          (record { channel = init fd; callbacks = no_callbacks }) s
          (record { fd_same = refl; events = refl }) in
      let flags = bits_flags _ _ m.events in (m.fd_same, flags.0, flags.1, flags.2)
