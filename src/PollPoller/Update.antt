-- ===== src/PollPoller/Update.antt =====
-- `updateChannel`: it never crashes, keeps the invariant, and the entry of the channel then says
-- what the channel is watched for.
use bounce.Prelude.{
  ℕ, ◌≡◌, ◌≢◌, refl, ap, ◌∙◌, ◌⊎◌, inl, inr, none, some, get_elem?, ◌==◌, Bool-cases, arith,
}
use bounce.Prelude.Int.{pos, negsuc}
use bounce.Channel.{Channel, is_none_event}
use bounce.PollPoller.{PollFd, PollPoller, update_channel, entry_of}
use bounce.PollPoller.Inv.{IsValid}
use bounce.PollPoller.Asked.{
  asked, renewed-asked, renewed_others-asked, inserted-asked, inserted_others-asked,
}
use bounce.PollPoller.Renew.{renewed, renewed-IsValid, update_channel-renewed, renewed-watched}
use bounce.PollPoller.Insert.{
  inserted, added, inserted-IsValid, update_channel-inserted, inserted-watched, inserted-fd,
  inserted-new_key, inserted-old_key, added_fields,
}

-- The poller `w'` watches the channel at `p`, for the descriptor `n`, as `w` says that it should be,
-- and all other descriptors as before. What `::poll` is asked for a descriptor, `asked`, heeds the sign
-- in the entry.
pub record Updated (w : PollPoller) (p n : ℕ) (w' : PollPoller) : Type 0 where
  pub valid : IsValid w'
  pub known : w'.channels (pos n) ≡ some p
  pub watched :
      (e : PollFd) × (get_elem? w'.pollfds (w'.store p).index ≡ some e)
      × ((e.fd ≡ pos n) ⊎ ((e.fd ≡ negsuc n) × ((w.store p).events ≡ 0)))
      × (e.events ≡ (w.store p).events)
      × (e.revents ≡ 0)
  pub asks : asked w' n ≡ some (w.store p).events
  pub others :
      (m : ℕ) → m ≢ n → (w'.channels (pos m) ≡ w.channels (pos m)) × (asked w' m ≡ asked w m)
  pub fds : (q : ℕ) → (w'.store q).fd ≡ (w.store q).fd

sign :
    (c : Channel) (n : ℕ)
    → c.fd ≡ pos n
    → ((entry_of c).fd ≡ pos n) ⊎ (((entry_of c).fd ≡ negsuc n) × (c.events ≡ 0))
unfolding entry_of is_none_event
sign c n e = elim (Bool-cases (c.events == 0)) [
  | inl off ↦ inr (rw (off, e) refl, ground (arith, off))
  | inr on ↦ inl (rw (on, e) refl)
]

-- For a channel with a descriptor that the poller knows under this channel or not at all,
-- `updateChannel` does not crash and keeps the invariant: the channel is then known, its entry has
-- its events and no result and its descriptor, as the one that `::poll` ignores only if there are no
-- events, so that `::poll` is asked for the events of the channel; and for every other descriptor the
-- channel and what `::poll` is asked are as they were.
pub update_channel-Updated :
    {w : PollPoller} (p n : ℕ)
    → IsValid w
    → (w.store p).fd ≡ pos n
    → (w.channels (pos n) ≡ none) ⊎ (w.channels (pos n) ≡ some p)
    → (w' : PollPoller) × (update_channel p w ≡ some w') × Updated w p n w'
unfolding entry_of added
update_channel-Updated {w} p n v fd_p (inl unknown) = (
  inserted v p n fd_p unknown,
  update_channel-inserted v p n fd_p unknown,
  record {
    valid = inserted-IsValid v p n fd_p unknown;
    known = inserted-new_key v p n fd_p unknown;
    watched = (
      added v p n fd_p unknown,
      inserted-watched v p n fd_p unknown,
      inl fd_p,
      (added_fields v p n fd_p unknown).0,
      (added_fields v p n fd_p unknown).1,
    );
    asks = inserted-asked v p n fd_p unknown;
    others = λ m ne.
        (inserted-old_key v p n fd_p unknown m ne, inserted_others-asked v p n fd_p unknown m ne);
    fds = inserted-fd v p n fd_p unknown;
  },
)
update_channel-Updated {w} p n v fd_p (inr known) =
    let same = renewed-watched v p n known in
    (
      renewed v p n known,
      update_channel-renewed v p n known,
      record {
        valid = renewed-IsValid v p n known;
        known = ap (λ f. f (pos n)) same.1 ∙ known;
        watched = (entry_of (w.store p), same.0, sign (w.store p) n fd_p, refl, refl);
        asks = renewed-asked v p n known;
        others = λ m ne. (ap (λ f. f (pos m)) same.1, renewed_others-asked v p n known m ne);
        fds = λ q. ap (λ (f : ℕ → Channel). (f q).fd) same.2;
      },
    )
