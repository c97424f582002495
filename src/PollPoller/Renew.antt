-- ===== src/PollPoller/Renew.antt =====
-- `updateChannel` for a channel that is already known: the poller after it is valid.
use native.Mathlib.Decide.{ℕ_discrete}
use bounce.Prelude.{
  ℕ, ◌<◌, ◌≡◌, refl, sym, ap, ◌∙◌, some, arith, length, get_elem?, set, some_eq, get_elem?-lt,
  subst, get_elem?-set_self, get_elem?-set_ne,
}
use bounce.Prelude.Int.{pos}
use bounce.Channel.{Channel}
use bounce.PollPoller.{PollFd, PollPoller, entry_of, update_channel}
use bounce.PollPoller.Inv.{owner, HasEntry, HasChannel, IsValid}

pub owner-entry_of : (c : Channel) (n : ℕ) → c.fd ≡ pos n → owner (entry_of c).fd ≡ n
unfolding entry_of
owner-entry_of c n e = ground arith

module _ {w : PollPoller} (v : IsValid w) (p n : ℕ) (known : w.channels (pos n) ≡ some p) where
  index : ℕ
  index = (w.store p).index

  unfoldable pub renewed : PollPoller
  unfolding index
  renewed = record w { pollfds = set w.pollfds index (entry_of (w.store p)) }

  in_range : index < length w.pollfds
  unfolding index
  in_range = get_elem?-lt w.pollfds index (v.entry n p known).1

  owned : owner (entry_of (w.store p)).fd ≡ n
  owned = owner-entry_of (w.store p) n (v.keyed n p known)

  renewed-entry : (m q : ℕ) → w.channels (pos m) ≡ some q → HasEntry renewed m q
  unfolding renewed index
  renewed-entry m q h = elim (ℕ_discrete index (w.store q).index) [
    | yes same ↦ (
      entry_of (w.store p),
      subst
          (λ i.
            get_elem? (set w.pollfds index (entry_of (w.store p))) i ≡ some (entry_of (w.store p)))
          same (get_elem?-set_self w.pollfds index (entry_of (w.store p)) in_range),
      owned ∙ cc ((v.entry n p known).2, (v.entry m q h).2, same_entry same),
    )
    | no other ↦
        let e = v.entry m q h in
        (e.0, get_elem?-set_ne w.pollfds index _ (entry_of (w.store p)) other ∙ e.1, e.2)
  ]
    where
      same_entry : index ≡ (w.store q).index → (v.entry n p known).0 ≡ (v.entry m q h).0
      same_entry same =
          some_eq (sym (v.entry n p known).1 ∙ ap (get_elem? w.pollfds) same ∙ (v.entry m q h).1)

  renewed-channel :
      (i : ℕ) (e : PollFd) → get_elem? renewed.pollfds i ≡ some e → HasChannel renewed i e
  unfolding renewed index
  renewed-channel i e h = elim (ℕ_discrete index i) [
    | yes same ↦ (p, ap (λ k. w.channels (pos k)) (mine same) ∙ known, same)
    | no other ↦
        v.channel i e (sym (get_elem?-set_ne w.pollfds index i (entry_of (w.store p)) other) ∙ h)
  ]
    where
      mine : index ≡ i → owner e.fd ≡ n
      mine same =
          ap (λ (x : PollFd). owner x.fd)
            (some_eq (
              sym h
              ∙ ap (get_elem? (set w.pollfds index (entry_of (w.store p)))) (sym same)
              ∙ get_elem?-set_self w.pollfds index (entry_of (w.store p)) in_range))
          ∙ owned

  pub renewed-IsValid : IsValid renewed
  unfolding renewed
  renewed-IsValid = record {
    keyed = v.keyed;
    entry = renewed-entry;
    natural = v.natural;
    channel = renewed-channel;
  }

  pub update_channel-renewed : update_channel p w ≡ some renewed
  unfolding update_channel renewed index
  update_channel-renewed = ground (arith, v.keyed n p known, (v.entry n p known).1)

  -- The entry of the channel is the one that its events ask for, and nothing else has changed.
  pub renewed-watched :
      (get_elem? renewed.pollfds (renewed.store p).index ≡ some (entry_of (w.store p)))
      × (renewed.channels ≡ w.channels)
      × (renewed.store ≡ w.store)
  unfolding renewed index
  renewed-watched = (get_elem?-set_self w.pollfds index (entry_of (w.store p)) in_range, refl, refl)
