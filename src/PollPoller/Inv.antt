-- ===== src/PollPoller/Inv.antt =====
-- The representation invariant of a poller: its map and its array hold the same descriptors, and
-- each channel knows the index of its entry.
use bounce.Prelude.{ℕ, ◌≡◌, none, some, get_elem?}
use bounce.Prelude.Int.{ℤ, pos, negsuc}
use bounce.PollPoller.{PollFd, PollPoller}

-- The descriptor that an entry is about, ignored or not.
abbrev pub owner : ℤ → ℕ
owner (pos n) = n
owner (negsuc n) = n

-- The entry that the channel at `p` has for the descriptor `n`.
abbrev pub HasEntry : PollPoller → ℕ → ℕ → Type 0
HasEntry w n p = (e : PollFd) × (get_elem? w.pollfds (w.store p).index ≡ some e) × (owner e.fd ≡ n)

-- The channel of the entry `e` at the index `i`.
abbrev pub HasChannel : PollPoller → ℕ → PollFd → Type 0
HasChannel w i e = (p : ℕ) × (w.channels (pos (owner e.fd)) ≡ some p) × ((w.store p).index ≡ i)

pub record IsValid (w : PollPoller) : Type 0 where
  pub keyed : (n p : ℕ) → w.channels (pos n) ≡ some p → (w.store p).fd ≡ pos n
  pub entry : (n p : ℕ) → w.channels (pos n) ≡ some p → HasEntry w n p
  pub natural : (n : ℕ) → w.channels (negsuc n) ≡ none
  pub channel : (i : ℕ) (e : PollFd) → get_elem? w.pollfds i ≡ some e → HasChannel w i e
