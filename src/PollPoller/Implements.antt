-- ===== src/PollPoller/Implements.antt =====
-- `PollPoller` is a poller: its operations obey the laws that the clients of the abstract class use.
use native.Mathlib.Decide.{ℕ_discrete}
use bounce.Prelude.{
  ℕ, suc, ◌-◌, ◌<◌, ◌≡◌, ◌≢◌, refl, sym, ap, ◌∙◌, ◌⊎◌, inl, inr, none, some, arith, length,
  get_elem?,
}
use bounce.Prelude.Int.{pos}
use bounce.Channel.{Change, change}
use bounce.Poller.{Poller, PollerLaws, Updates, Removes}
use bounce.PollPoller.{PollPoller, modify, poll, update_channel, remove_channel}
use bounce.PollPoller.Inv.{owner, IsValid}
use bounce.PollPoller.Renew.{renewed, renewed-IsValid, update_channel-renewed}
use bounce.PollPoller.Insert.{
  inserted, inserted-IsValid, update_channel-inserted, inserted-new_key, inserted-old_key,
  inserted-fd, inserted-events,
}
use bounce.PollPoller.Pop.{
  index-lt, erased_self, erased_other, popped, popped-IsValid, popped_keys, remove_channel-popped,
}
use bounce.PollPoller.FillGap.{
  filled, filled-IsValid, filled_keys, filled-fd, filled-events, remove_channel-filled,
}
use bounce.PollPoller.Remove.{LastWatches}
use bounce.PollPoller.Asked.{
  asked, asked-same, renewed-asked, renewed_others-asked, inserted-asked, inserted_others-asked,
  popped-asked, filled-asked,
}

-- The operations, as the class overrides them.
unfoldable pub poll_poller : Poller PollPoller
poll_poller = record {
  channels = λ w. w.channels;
  channel_at = λ w. w.store;
  asked = asked;
  change_at = λ ch p w. record w { store = modify p (change ch) w.store };
  poll = poll;
  update_channel = update_channel;
  remove_channel = remove_channel;
}

-- The channel has the last entry, or `::poll` does not ignore the last entry.
abbrev pub IsRemovable : ℕ → ℕ → PollPoller → Type 0
IsRemovable p n w = (suc (w.store p).index ≡ length w.pollfds) ⊎ ((m : ℕ) × LastWatches w (pos m))

module _ (ch : Change) (p : ℕ) (w : PollPoller) where
  abbrev pub after : PollPoller
  after = record w { store = modify p (change ch) w.store }

  after-fd : (q : ℕ) → (after.store q).fd ≡ (w.store q).fd
  unfolding change
  after-fd q = ground arith

  after-index : (q : ℕ) → (after.store q).index ≡ (w.store q).index
  unfolding change
  after-index q = ground arith

  pub after-kept : (q : ℕ) → q ≢ p → after.store q ≡ w.store q
  after-kept q ne = ground arith

  pub after-changed : after.store p ≡ change ch (w.store p)
  after-changed = ground arith

  pub after-IsValid : IsValid w → IsValid after
  after-IsValid v = record {
    keyed = λ n q h. after-fd q ∙ v.keyed n q h;
    entry = λ n q h.
        let e = v.entry n q h in (e.0, ap (get_elem? w.pollfds) (after-index q) ∙ e.1, e.2);
    natural = v.natural;
    channel = λ i e h. let c = v.channel i e h in (c.0, c.1, after-index c.0 ∙ c.2);
  }

  pub after-asked : (n : ℕ) → asked after n ≡ asked w n
  after-asked n = asked-same w after n refl (λ q h. ap (get_elem? w.pollfds) (after-index q))

module _ (p n : ℕ) (w : PollPoller) (v : IsValid w) where
  pub updates :
      (w.store p).fd ≡ pos n
      → (w.channels (pos n) ≡ none) ⊎ (w.channels (pos n) ≡ some p)
      → (w' : PollPoller) × (update_channel p w ≡ some w')
        × IsValid w'
        × Updates poll_poller p n w w'
  unfolding poll_poller renewed
  updates fd_p (inl unknown) = (
    inserted v p n fd_p unknown,
    update_channel-inserted v p n fd_p unknown,
    inserted-IsValid v p n fd_p unknown,
    record {
      known = inserted-new_key v p n fd_p unknown;
      asked = inserted-asked v p n fd_p unknown;
      others = λ m ne.
          (inserted-old_key v p n fd_p unknown m ne, inserted_others-asked v p n fd_p unknown m ne);
      same = λ q. (inserted-fd v p n fd_p unknown q, inserted-events v p n fd_p unknown q);
    },
  )
  updates fd_p (inr known) = (
    renewed v p n known,
    update_channel-renewed v p n known,
    renewed-IsValid v p n known,
    record {
      known = known;
      asked = renewed-asked v p n known;
      others = λ m ne. (refl, renewed_others-asked v p n known m ne);
      same = λ q. (refl, refl);
    },
  )

  module _ (known : w.channels (pos n) ≡ some p) where
    pops :
        suc (w.store p).index ≡ length w.pollfds
        → (w' : PollPoller) × (remove_channel p w ≡ some w')
          × IsValid w'
          × Removes poll_poller n w w'
    unfolding poll_poller popped
    pops last = (
      popped v p n known last,
      remove_channel-popped v p n known last,
      popped-IsValid v p n known last,
      record {
        unknown = popped_keys v p n known last n ∙ erased_self v p n known;
        others = λ m ne. (
          popped_keys v p n known last m ∙ erased_other v p n known m ne,
          popped-asked v p n known last m ne,
        );
        same = λ q. (refl, refl);
      },
    )

    fills :
        (m : ℕ)
        → suc (w.store p).index ≢ length w.pollfds
        → LastWatches w (pos m)
        → (w' : PollPoller) × (remove_channel p w ≡ some w')
          × IsValid w'
          × Removes poll_poller n w w'
    unfolding poll_poller
    fills m inside (b, at_last, active) =
        let e = v.entry n p known in
        let lt = index-lt v p n known in
        let last = length w.pollfds - 1 in
        let ends : suc last ≡ length w.pollfds = omega arith in
        let before : (w.store p).index < last = omega arith in
        (
          filled v p n known last ends before e.0 b at_last e.1,
          remove_channel-filled v p n known last ends before e.0 b at_last e.1
              (active ∙ ap (λ fd. pos (owner fd)) (sym active)),
          filled-IsValid v p n known last ends before e.0 b at_last e.1,
          record {
            unknown =
                filled_keys v p n known last ends before e.0 b at_last e.1 n
                ∙ erased_self v p n known;
            others = λ k ne. (
              filled_keys v p n known last ends before e.0 b at_last e.1 k
                  ∙ erased_other v p n known k ne,
              filled-asked v p n known last ends before e.0 b at_last e.1 k ne,
            );
            same = λ q. (
              filled-fd v p n known last ends before e.0 b at_last e.1 q,
              filled-events v p n known last ends before e.0 b at_last e.1 q,
            );
          },
        )

    pub removes :
        IsRemovable p n w
        → (w' : PollPoller) × (remove_channel p w ≡ some w')
          × IsValid w'
          × Removes poll_poller n w w'
    removes can = elim (ℕ_discrete (suc (w.store p).index) (length w.pollfds)) [
      | yes last ↦ pops last
      | no inside ↦ elim can [ inl last ↦ pops last | inr (m, b) ↦ fills m inside b ]
    ]

unfoldable pub poll_poller_laws : PollerLaws poll_poller
unfolding poll_poller
poll_poller_laws = record {
  IsValid = IsValid;
  IsRemovable = IsRemovable;
  keyed = λ w n p v known. v.keyed n p known;
  change_at-Changes = λ ch p w v. (
    after-IsValid ch p w v,
    record {
      channels = λ fd. refl;
      asked = after-asked ch p w;
      changed = after-changed ch p w;
      kept = after-kept ch p w;
    },
  );
  update_channel-Updates = λ p n w v fd_p free. updates p n w v fd_p free;
  remove_channel-Removes = λ p n w v known can. removes p n w v known can;
}
