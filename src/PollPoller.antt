-- ===== src/PollPoller.antt =====
-- bounce/poller.h, bounce/poll_poller.h and bounce/poll_poller.cc: the channels that a loop watches,
-- and the array that `::poll` is given. `none` is a crash: a null pointer, the end iterator or an
-- index outside the array is used.
pub mod Inv
pub mod Renew
pub mod Insert
pub mod Update
pub mod Pop
pub mod FillGap
pub mod Remove
pub mod Fill
pub mod Poll
pub mod Asked
pub mod Implements
mod Tests
use bounce.Prelude.{
  ℕ, zero, suc, ◌+◌, ◌-◌, ◌≤◌, Bool, true, false, Option, none, some, List, [], ◌∷◌, ◌++◌, length,
  get_elem?, set, take, ltb, leb, ◌==◌, if◌then◌else◌, ◌>>=◌,
}
use bounce.Prelude.Int.{ℤ, pos, negsuc, eq_int}
use bounce.Channel.{Channel, set_revents, set_index, is_none_event}

-- `struct pollfd`.
pub record PollFd : Type 0 where
  pub fd : ℤ
  pub events : ℕ
  pub revents : ℕ

-- `channels_` maps a file descriptor to the address of its channel, and `store` is the channel that
-- lies at each address.
pub record PollPoller : Type 0 where
  pub channels : ℤ → Option ℕ
  pub pollfds : List PollFd
  pub store : ℕ → Channel

-- Changing the map, and the channel at an address.
abbrev pub put_channel : ℤ → Option ℕ → (ℤ → Option ℕ) → ℤ → Option ℕ
put_channel fd p channels other = if eq_int fd other then p else channels other

abbrev pub modify : ℕ → (Channel → Channel) → (ℕ → Channel) → ℕ → Channel
modify p f store q = if p == q then f (store q) else store q

unfoldable pub init : (ℕ → Channel) → PollPoller
init store = record { channels = λ _. none; pollfds = []; store = store }

-- `-(fd) - 1`, which `::poll` ignores where `fd` is a descriptor.
abbrev pub ignored : ℤ → ℤ
ignored (pos n) = negsuc n
ignored (negsuc n) = pos n

-- The entry that `updateChannel` writes for a channel that is already known.
unfoldable pub entry_of : Channel → PollFd
unfolding is_none_event
entry_of c = record {
  fd = if is_none_event c then ignored c.fd else c.fd;
  events = c.events;
  revents = 0;
}

-- The two branches of `updateChannel`, for the channel `c` at the address `p`.
unfoldable pub renew_entry : Channel → PollPoller → Option PollPoller
unfolding entry_of
renew_entry c w = elim (get_elem? w.pollfds c.index) [
  | none ↦ none
  | some _ ↦ some (record w { pollfds = set w.pollfds c.index (entry_of c) })
]

unfoldable pub insert_entry : ℕ → Channel → PollPoller → PollPoller
unfolding set_index
insert_entry p c w = record {
  channels = put_channel c.fd (some p) w.channels;
  pollfds = w.pollfds ++ record { fd = c.fd; events = c.events; revents = 0 } ∷ [];
  store =
      modify p
        (set_index
          (length (w.pollfds ++ record { fd = c.fd; events = c.events; revents = 0 } ∷ []) - 1))
        w.store;
}

unfoldable pub update_channel : ℕ → PollPoller → Option PollPoller
unfolding renew_entry insert_entry
update_channel p w = elim (w.channels (w.store p).fd) [
  | none ↦ some (insert_entry p (w.store p) w)
  | some _ ↦ renew_entry (w.store p) w
]

-- `channels_[fd]->setIndex(idx)`, which crashes where `fd` has no channel.
unfoldable pub reindex : ℤ → ℕ → PollPoller → Option PollPoller
unfolding set_index
reindex fd idx w = elim (w.channels fd) [
  | none ↦ none
  | some q ↦ some (record w { store = modify q (set_index idx) w.store })
]

-- `std::iter_swap(&pollfds_[idx], &pollfds_[last])`.
unfoldable pub swap_entries : ℕ → ℕ → List PollFd → Option (List PollFd)
swap_entries idx last es = elim (get_elem? es idx) [
  | none ↦ none
  | some a ↦ elim (get_elem? es last) [ none ↦ none | some b ↦ some (set (set es idx b) last a) ]
]

-- `pop_back`.
abbrev pub pop_back : List PollFd → List PollFd
pop_back es = take (length es - 1) es

-- Gives the last entry the index that falls free.
unfoldable pub fill_gap : ℕ → ℕ → PollPoller → Option PollPoller
unfolding reindex swap_entries
fill_gap idx last w = do
  e ← get_elem? w.pollfds last
  w' ← reindex e.fd idx w
  es ← swap_entries idx last w'.pollfds
  some (record w' { pollfds = es })

-- `pollfds_.size() - 1`, which wraps around where the array is empty: no entry has that index.
abbrev pub last_index : List PollFd → Option ℕ
last_index [] = none
last_index (e ∷ es) = some (length es)

-- The part of `removeChannel` for a channel that is known.
unfoldable pub remove_known : Channel → PollPoller → Option PollPoller
unfolding fill_gap
remove_known c w = do
  last ← last_index w.pollfds
  let erased = record w { channels = put_channel c.fd none w.channels }
  w' ← if c.index == last then some erased else fill_gap c.index last erased
  some (record w' { pollfds = pop_back w'.pollfds })

unfoldable pub remove_channel : ℕ → PollPoller → Option PollPoller
unfolding remove_known
remove_channel p w = elim (w.channels (w.store p).fd) [
  | none ↦ some w
  | some _ ↦ remove_known (w.store p) w
]

-- The kernel stores a `revents` in each entry.
unfoldable pub store_revents : List PollFd → List ℕ → List PollFd
store_revents [] rs = []
store_revents (e ∷ es) [] = e ∷ es
store_revents (e ∷ es) (r ∷ rs) = record e { revents = r } ∷ store_revents es rs

-- A `revents` is a `short`; all the flags that `::poll` reports lie below 2 ^ 15, so that it is positive
-- exactly if it is not zero. The loop of `poll` over the entries: `count` stays 0, so it never stops early. It stores each
-- `revents` in its channel, and lists the addresses of the channels that are active.
unfoldable pub fill_channels :
    ℕ → ℕ → List PollFd → PollPoller → List ℕ → Option (PollPoller × List ℕ)
unfolding set_revents
fill_channels count r_num [] w active = some (w, active)
fill_channels count r_num (e ∷ es) w active =
    let stopped : Option (PollPoller × List ℕ) = some (w, active) in
    let skipped = fill_channels count r_num es w active in
    if leb r_num count
    then stopped
    else (if ltb 0 e.revents
        then elim (w.channels e.fd) [
          | none ↦ none
          | some p ↦
              fill_channels count r_num es
                (record w { store = modify p (set_revents e.revents) w.store }) (active ++ p ∷ [])
        ]
        else skipped)

-- `poll`, where `::poll` returned `r_num` after it stored `rs`.
unfoldable pub poll : ℤ → List ℕ → PollPoller → Option (PollPoller × List ℕ)
unfolding fill_channels store_revents
poll (pos r_num) rs w =
    let after = record w { pollfds = store_revents w.pollfds rs } in
    if ltb 0 r_num then fill_channels 0 r_num after.pollfds after [] else some (after, [])
poll (negsuc _) rs w = some (w, [])
