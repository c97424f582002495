-- ===== src/Channel/Tests.antt =====
-- Runs of a channel, and its theorems at concrete flags.
use bounce.Prelude.{◌+◌, ◌≡◌, refl, true, false, List, [], ◌∷◌, none, some, ◌++◌}
use bounce.Prelude.Int.{pos}
use bounce.Channel.{
  Callbacks, Change, enable_reading, disable_reading, enable_writing, change, init, handle_channel,
  pollin, pollhup,
}
use bounce.Channel.Events.{change_all}
use bounce.Channel.Dispatch.{
  Flags, Event, closed, readable, writable, revents_of, events_of, on_event, on_events,
  handle_channel-on_events,
}

abbrev changes : List Change
changes = enable_reading ∷ enable_writing ∷ disable_reading ∷ []

watches_writing : (change_all changes (init (pos 5))).events ≡ 4
unfolding change_all change init
watches_writing = refl

-- Each callback but that for errors, which is empty, notes its event.
abbrev noting : Callbacks (List Event)
noting = record {
  read_cb = some (λ _ l. l ++ readable ∷ []);
  write_cb = some (λ l. l ++ writable ∷ []);
  close_cb = some (λ l. l ++ closed ∷ []);
  error_cb = none;
}

-- A peer that hung up with bytes left to read is not closed yet.
hup_after_data : handle_channel noting (pollin + pollhup) 0 [] ≡ readable ∷ []
unfolding handle_channel
hup_after_data = refl

abbrev hung_up : Flags
hung_up = record {
  in_ = false;
  pri = false;
  out = true;
  err = true;
  hup = true;
  nval = false;
  rdhup = false;
}

handle_channel-on_events_example :
    handle_channel noting (revents_of hung_up) 7 [] ≡ closed ∷ writable ∷ []
unfolding on_events on_event events_of
handle_channel-on_events_example = handle_channel-on_events noting 7 hung_up []
