-- ===== src/PollPoller/Tests.antt =====
-- Runs of a poller, and its theorems at a concrete one.
use bounce.Prelude.{
  ℕ, zero, suc, ◌≡◌, ◌≢◌, refl, sym, ap, ◌⊎◌, inl, inr, none, some, List, [], ◌∷◌, get_elem?, ◌==◌,
  if◌then◌else◌, arith, some_eq, ◌∙◌,
}
use bounce.Prelude.Int.{ℤ, pos, negsuc}
use bounce.Channel.{Channel, set_index}
use bounce.PollPoller.{
  PollFd, PollPoller, put_channel, update_channel, remove_channel, poll, store_revents,
}
use bounce.PollPoller.Inv.{owner, HasEntry, HasChannel, IsValid}
use bounce.PollPoller.Update.{Updated, update_channel-Updated}
use bounce.PollPoller.Remove.{Removed, remove_channel-Removed, remove_channel-none}
use bounce.PollPoller.Fill.{Filled}
use bounce.Channel.{change, enable_writing}
use bounce.Poller.Watching.{Watching}
use bounce.PollPoller.{modify}
use bounce.PollPoller.Poll.{IgnoresNegative, poll-Filled}

-- The channel at the address 0 reads from descriptor 5. The one at 1, of descriptor 6, watches for
-- nothing if `off`, and the one at 2 is not registered yet.
abbrev reader : Channel
reader = record { fd = pos 5; events = 3; revents = 0; index = 0 }

abbrev other : ℕ → Channel
other events = record { fd = pos 6; events = events; revents = 0; index = 1 }

abbrev newcomer : Channel
newcomer = record { fd = pos 7; events = 4; revents = 0; index = 0 }

abbrev two : ℤ → ℕ → PollPoller
two fd events = record {
  channels = put_channel (pos 5) (some 0) (put_channel (pos 6) (some 1) (λ _. none));
  pollfds =
      record { fd = pos 5; events = 3; revents = 0 }
      ∷ record { fd = fd; events = events; revents = 0 }
      ∷ [];
  store = λ q. if q == 0 then reader else (if q == 1 then other events else newcomer);
}

two-known :
    (fd : ℤ) (events n p : ℕ)
    → (two fd events).channels (pos n) ≡ some p
    → ((n ≡ 5) × (p ≡ 0)) ⊎ ((n ≡ 6) × (p ≡ 1))
two-known fd events n p h = ground arith

module _ (fd : ℤ) (events : ℕ) (owns : owner fd ≡ 6) where
  second : PollFd
  second = record { fd = fd; events = events; revents = 0 }

  two-entry : (n p : ℕ) → (two fd events).channels (pos n) ≡ some p → HasEntry (two fd events) n p
  unfolding second
  two-entry n p h = elim (two-known fd events n p h) [
    | inl (at_n, at_p) ↦
        rw (at_n, at_p) (record { fd = pos 5; events = 3; revents = 0 }, refl, refl)
    | inr (at_n, at_p) ↦ rw (at_n, at_p) (second, refl, owns)
  ]

  two-channel :
      (i : ℕ) (e : PollFd)
      → get_elem? (two fd events).pollfds i ≡ some e
      → HasChannel (two fd events) i e
  two-channel zero e h =
      (0, ap (λ (x : PollFd). (two fd events).channels (pos (owner x.fd))) (sym (some_eq h)), refl)
  two-channel (suc zero) e h = (
    1,
    ap (λ (x : PollFd). (two fd events).channels (pos (owner x.fd))) (sym (some_eq h))
        ∙ ap (λ n. (two fd events).channels (pos n)) owns,
    refl,
  )
  two-channel (suc (suc i)) e h = cc

  two-IsValid : IsValid (two fd events)
  two-IsValid = record {
    keyed = λ n p h. elim (two-known fd events n p h) [
      | inl (at_n, at_p) ↦ rw (at_n, at_p) refl
      | inr (at_n, at_p) ↦ rw (at_n, at_p) refl
    ];
    entry = two-entry;
    natural = λ n. refl;
    channel = two-channel;
  }

-- A new channel gets an entry at the end.
registers : update_channel 2 (two (pos 6) 3) ≢ none
unfolding update_channel set_index
registers h = cc

update_channel-Updated_example :
    (w' : PollPoller) × (update_channel 2 (two (pos 6) 3) ≡ some w')
    × Updated (two (pos 6) 3) 2 7 w'
update_channel-Updated_example =
    update_channel-Updated 2 7 (two-IsValid (pos 6) 3 refl) refl (inl refl)

remove_channel-Removed_example :
    (w' : PollPoller) × (remove_channel 0 (two (pos 6) 3) ≡ some w') × Removed (two (pos 6) 3) 5 w'
remove_channel-Removed_example =
    remove_channel-Removed 0 5 (two-IsValid (pos 6) 3 refl) refl 6
      (inr (record { fd = pos 6; events = 3; revents = 0 }, refl, refl))

remove_channel-none_example : remove_channel 0 (two (negsuc 6) 0) ≡ none
remove_channel-none_example =
    remove_channel-none 0 5 (two-IsValid (negsuc 6) 0 refl) refl 6 (omega arith)
      (record { fd = negsuc 6; events = 0; revents = 0 }, refl, refl)

abbrev results : List ℕ
results = 1 ∷ 0 ∷ []

results-IgnoresNegative : IgnoresNegative (store_revents (two (negsuc 6) 0).pollfds results)
unfolding store_revents
results-IgnoresNegative zero m e h neg = cc
results-IgnoresNegative (suc zero) m e h neg = ap (λ (x : PollFd). x.revents) (sym (some_eq h))
results-IgnoresNegative (suc (suc j)) m e h neg = cc

poll-Filled_example :
    (w' : PollPoller) × (listed : List ℕ) × (poll (pos 1) results (two (negsuc 6) 0)
      ≡ some (w', listed))
    × Filled 0
        (store_revents (two (negsuc 6) 0).pollfds results)
        (record (two (negsuc 6) 0) { pollfds = store_revents (two (negsuc 6) 0).pollfds results })
        w'
        listed
    × IsValid w'
poll-Filled_example =
    poll-Filled results (two-IsValid (negsuc 6) 0 refl) 1 (omega arith) results-IgnoresNegative

abbrev wider : PollPoller
wider = record (two (pos 6) 3) {
  pollfds =
      record { fd = pos 5; events = 7; revents = 0 }
      ∷ record { fd = pos 6; events = 3; revents = 0 }
      ∷ [];
  store = modify 0 (change enable_writing) (two (pos 6) 3).store;
}
