-- ===== src/PollPoller/Asked.antt =====
-- What the kernel is asked for a descriptor, before and after each operation of a poller.
use native.Mathlib.Decide.{ℕ_discrete}
use bounce.Prelude.{
  ℕ, suc, ◌<◌, ◌≡◌, ◌≢◌, refl, sym, ap, ◌∙◌, Option, none, some, [], ◌∷◌, arith, length, get_elem?,
  some_eq, get_elem?-lt, get_elem?-set_ne, get_elem?-append_lt,
}
use bounce.Prelude.Int.{ℤ, pos, negsuc}
use bounce.Channel.{Channel}
use bounce.PollPoller.{PollFd, PollPoller, entry_of}
use bounce.PollPoller.Inv.{owner, IsValid}
use bounce.PollPoller.Renew.{renewed, renewed-watched}
use bounce.PollPoller.Insert.{
  inserted, added, inserted-old_key, inserted-old_index, other_channel, inserted-pollfds,
  inserted-new_key, inserted-watched,
}
use bounce.PollPoller.Pop.{index_ne, erased_other, popped, popped_before, popped_keys}
use bounce.PollPoller.FillGap.{
  filled, filled_keys, filled-moved, filled-kept, filled-gap, filled-same, q₀-known, q₀-index,
  other_index,
}
use bounce.PollPoller.FillGap

-- The events that an entry asks for: none where the descriptor is negative.
unfoldable pub events_of : PollFd → ℕ
events_of e = elim e.fd [ pos _ ↦ e.events | negsuc _ ↦ 0 ]

abbrev pub entry_asks : Option PollFd → Option ℕ
entry_asks none = none
entry_asks (some e) = some (events_of e)

-- Through the channel of the descriptor, and its index.
abbrev pub asked_through : PollPoller → Option ℕ → Option ℕ
asked_through w none = none
asked_through w (some p) = entry_asks (get_elem? w.pollfds (w.store p).index)

abbrev pub asked : PollPoller → ℕ → Option ℕ
asked w n = asked_through w (w.channels (pos n))

pub events_of-entry_of : (c : Channel) (n : ℕ) → c.fd ≡ pos n → events_of (entry_of c) ≡ c.events
unfolding events_of entry_of
events_of-entry_of c n fd_c = ground arith

-- Two pollers ask the same for `n` if they agree on its channel and on the entry of that.
pub asked-same :
    (w w' : PollPoller) (n : ℕ)
    → w'.channels (pos n) ≡ w.channels (pos n)
    → ((q : ℕ)
        → w.channels (pos n) ≡ some q
        → get_elem? w'.pollfds (w'.store q).index ≡ get_elem? w.pollfds (w.store q).index)
    → asked w' n ≡ asked w n
asked-same w w' n same entries = ap (asked_through w') same ∙ by_channel (w.channels (pos n)) refl
  where
    by_channel : (o : Option ℕ) → w.channels (pos n) ≡ o → asked_through w' o ≡ asked_through w o
    by_channel none e = refl
    by_channel (some q) e = ap entry_asks (entries q e)

module _ {w : PollPoller} (v : IsValid w) (p n : ℕ) where
  pub renewed-asked :
      (known : w.channels (pos n) ≡ some p)
      → asked (renewed v p n known) n ≡ some (w.store p).events
  renewed-asked known =
      let k = renewed-watched v p n known in
      ap (λ (c : ℤ → Option ℕ). asked_through (renewed v p n known) (c (pos n))) k.1
      ∙ ap (asked_through (renewed v p n known)) known
      ∙ ap entry_asks k.0
      ∙ ap some (events_of-entry_of (w.store p) n (v.keyed n p known))

  pub renewed_others-asked :
      (known : w.channels (pos n) ≡ some p) (m : ℕ)
      → m ≢ n
      → asked (renewed v p n known) m ≡ asked w m
  unfolding renewed
  renewed_others-asked known m ne = asked-same w (renewed v p n known) m refl (λ q h.
      get_elem?-set_ne w.pollfds (w.store p).index (w.store q).index (entry_of (w.store p))
        (λ same. index_ne v p n known m q ne h (sym same)))

  added-events :
      (fd_p : (w.store p).fd ≡ pos n) (unknown : w.channels (pos n) ≡ none)
      → events_of (added v p n fd_p unknown) ≡ (w.store p).events
  unfolding events_of added
  added-events fd_p unknown = ground (arith, fd_p)

  pub inserted-asked :
      (fd_p : (w.store p).fd ≡ pos n) (unknown : w.channels (pos n) ≡ none)
      → asked (inserted v p n fd_p unknown) n ≡ some (w.store p).events
  inserted-asked fd_p unknown =
      ap (asked_through (inserted v p n fd_p unknown)) (inserted-new_key v p n fd_p unknown)
      ∙ ap entry_asks (inserted-watched v p n fd_p unknown)
      ∙ ap some (added-events fd_p unknown)

  pub inserted_others-asked :
      (fd_p : (w.store p).fd ≡ pos n) (unknown : w.channels (pos n) ≡ none) (m : ℕ)
      → m ≢ n
      → asked (inserted v p n fd_p unknown) m ≡ asked w m
  inserted_others-asked fd_p unknown m ne =
      asked-same w (inserted v p n fd_p unknown) m (inserted-old_key v p n fd_p unknown m ne)
        (λ q h.
          let e = v.entry m q h in
          ap (get_elem? (inserted v p n fd_p unknown).pollfds)
            (inserted-old_index v p n fd_p unknown q (other_channel v p n fd_p unknown m q ne h))
          ∙ ap (λ es. get_elem? es (w.store q).index) (inserted-pollfds v p n fd_p unknown)
          ∙ get_elem?-append_lt w.pollfds (added v p n fd_p unknown ∷ []) (w.store q).index
              (get_elem?-lt w.pollfds (w.store q).index e.1))

  module _ (known : w.channels (pos n) ≡ some p) where
    pub popped-asked :
        (last : suc (w.store p).index ≡ length w.pollfds) (m : ℕ)
        → m ≢ n
        → asked (popped v p n known last) m ≡ asked w m
    unfolding popped
    popped-asked last m ne =
        asked-same w (popped v p n known last) m
          (popped_keys v p n known last m ∙ erased_other v p n known m ne)
          (λ q h. popped_before v p n known last (w.store q).index (
            omega (
              arith,
              get_elem?-lt w.pollfds (w.store q).index (v.entry m q h).1,
              index_ne v p n known m q ne h,
            )))

    pub filled-asked :
        (last : ℕ) (ends : suc last ≡ length w.pollfds) (inside : (w.store p).index < last)
        (a b : PollFd) (at_last : get_elem? w.pollfds last ≡ some b)
        (at_index : get_elem? w.pollfds (w.store p).index ≡ some a) (m : ℕ)
        → m ≢ n
        → asked (filled v p n known last ends inside a b at_last at_index) m ≡ asked w m
    filled-asked last ends inside a b at_last at_index m ne =
        asked-same w (filled v p n known last ends inside a b at_last at_index) m
          (filled_keys v p n known last ends inside a b at_last at_index m
            ∙ erased_other v p n known m ne)
          entries
      where
        f : PollPoller
        f = filled v p n known last ends inside a b at_last at_index

        moved : ℕ
        moved = (v.channel last b at_last).0

        entries :
            (q : ℕ)
            → w.channels (pos m) ≡ some q
            → get_elem? f.pollfds (f.store q).index ≡ get_elem? w.pollfds (w.store q).index
        entries q h = elim (ℕ_discrete m (owner b.fd)) [
          | yes same ↦
              let at : q ≡ moved =
                some_eq
                  (sym h ∙ ap (λ k. w.channels (pos k)) same ∙ (v.channel last b at_last).1) in
              ap (λ r. get_elem? f.pollfds (f.store r).index) at
              ∙ ap (get_elem? f.pollfds)
                  (filled-moved v p n known last ends inside a b at_last at_index)
              ∙ filled-gap v p n known last ends inside a b at_last at_index
              ∙ sym at_last
              ∙ ap (get_elem? w.pollfds)
                  (sym (ap (λ r. (w.store r).index) at ∙ (v.channel last b at_last).2))
          | no other ↦
              ap (get_elem? f.pollfds) (
                filled-kept v p n known last ends inside a b at_last at_index q (
                  FillGap.other_channel v p n known last ends inside a b at_last at_index m q other
                    h))
              ∙ filled-same v p n known last ends inside a b at_last at_index (w.store q).index
                  (other_index v p n known last ends inside a b at_last at_index m q other h)
                  (index_ne v p n known m q ne h)
        ]
