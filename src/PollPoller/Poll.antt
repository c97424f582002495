-- ===== src/PollPoller/Poll.antt =====
-- `poll` on a valid poller.
use bounce.Prelude.{
  ℕ, zero, suc, ◌+◌, ◌<◌, ◌≡◌, refl, sym, ap, ◌∙◌, some, List, [], ◌∷◌, get_elem?, arith, some_eq,
  lt→ltb,
}
use bounce.Prelude.Int.{ℤ, pos, negsuc}
use bounce.PollPoller.{PollFd, PollPoller, store_revents, poll}
use bounce.PollPoller.Inv.{owner, IsValid, HasEntry, HasChannel}
use bounce.PollPoller.Fill.{Ready, Filled, fill_channels-Filled}

store_revents-old :
    (es : List PollFd) (rs : List ℕ) (j : ℕ) (e : PollFd)
    → get_elem? (store_revents es rs) j ≡ some e
    → (o : PollFd) × (get_elem? es j ≡ some o) × (o.fd ≡ e.fd)
unfolding store_revents
store_revents-old [] rs j e h = cc
store_revents-old (o ∷ es) [] j e h = (e, h, refl)
store_revents-old (o ∷ es) (r ∷ rs) zero e h = (o, refl, ap (λ (x : PollFd). x.fd) (some_eq h))
store_revents-old (o ∷ es) (r ∷ rs) (suc j) e h = store_revents-old es rs j e h

store_revents-new :
    (es : List PollFd) (rs : List ℕ) (j : ℕ) (o : PollFd)
    → get_elem? es j ≡ some o
    → (e : PollFd) × (get_elem? (store_revents es rs) j ≡ some e) × (e.fd ≡ o.fd)
unfolding store_revents
store_revents-new [] rs j o h = cc
store_revents-new (x ∷ es) [] j o h = (o, h, refl)
store_revents-new (x ∷ es) (r ∷ rs) zero o h =
    (record x { revents = r }, refl, ap (λ (y : PollFd). y.fd) (some_eq h))
store_revents-new (x ∷ es) (r ∷ rs) (suc j) o h = store_revents-new es rs j o h

-- `::poll` reports nothing for an entry with a negative descriptor.
abbrev pub IgnoresNegative : List PollFd → Type 0
IgnoresNegative es =
    (j m : ℕ) (e : PollFd) → get_elem? es j ≡ some e → e.fd ≡ negsuc m → e.revents ≡ 0

module _ {w : PollPoller} (rs : List ℕ) (v : IsValid w) where
  -- The poller with the kernel's answer stored in its entries.
  abbrev pub answered : PollPoller
  answered = record w { pollfds = store_revents w.pollfds rs }

  answered-entry : (n p : ℕ) → w.channels (pos n) ≡ some p → HasEntry answered n p
  answered-entry n p known =
      let e = v.entry n p known in
      let x = store_revents-new w.pollfds rs (w.store p).index e.0 e.1 in
      (x.0, x.1, ap owner x.2 ∙ e.2)

  answered-channel :
      (i : ℕ) (e : PollFd) → get_elem? answered.pollfds i ≡ some e → HasChannel answered i e
  answered-channel i e h =
      let o = store_revents-old w.pollfds rs i e h in
      let c = v.channel i o.0 o.1 in
      (c.0, ap (λ fd. w.channels (pos (owner fd))) (sym o.2) ∙ c.1, c.2)

  answered-IsValid : IsValid answered
  answered-IsValid = record {
    keyed = v.keyed;
    entry = answered-entry;
    natural = v.natural;
    channel = answered-channel;
  }

  answered-Ready : IgnoresNegative answered.pollfds → Ready 0 answered.pollfds answered
  answered-Ready silent j e h came = by_sign e.fd refl
    where
      by_sign :
          (fd : ℤ)
          → e.fd ≡ fd
          → (p : ℕ) × (answered.channels e.fd ≡ some p) × ((answered.store p).index ≡ 0 + j)
      by_sign (pos m) is =
          let c = answered-IsValid.channel j e h in
          (
            c.0,
            ap answered.channels (is ∙ ap (λ fd. pos (owner fd)) (sym is)) ∙ c.1,
            c.2 ∙ omega arith,
          )
      by_sign (negsuc m) is = absurd (omega (arith, silent j m e h is))

  Filled-IsValid :
      (k : ℕ) (es : List PollFd) (u u' : PollPoller) (listed : List ℕ)
      → Filled k es u u' listed
      → IsValid u
      → IsValid u'
  Filled-IsValid k es u u' listed f i = record {
    keyed = λ n p h. f.fd p ∙ i.keyed n p (key (pos n) p h);
    entry = λ n p h.
        let e = i.entry n p (key (pos n) p h) in
        (
          e.0,
          ap (λ j. get_elem? u'.pollfds j) (f.index p)
              ∙ ap (λ x. get_elem? x (u.store p).index) f.pollfds
              ∙ e.1,
          e.2,
        );
    natural = λ n. ap (λ c. c (negsuc n)) f.channels ∙ i.natural n;
    channel = λ j e h.
        let c = i.channel j e (ap (λ x. get_elem? x j) (sym f.pollfds) ∙ h) in
        (c.0, ap (λ x. x (pos (owner e.fd))) f.channels ∙ c.1, f.index c.0 ∙ c.2);
  }
    where
      key : (fd : ℤ) (p : ℕ) → u'.channels fd ≡ some p → u.channels fd ≡ some p
      key fd p h = ap (λ c. c fd) (sym f.channels) ∙ h

  -- If `::poll` reported some results, and none for an entry that it has to ignore, `poll` does not
  -- crash: it lists the channels of the entries with a result, in the order of the entries and
  -- whatever their number, stores in each channel the result of its own entry, and keeps the
  -- invariant and the descriptors and indices of all channels.
  pub poll-Filled :
      (r : ℕ)
      → 0 < r
      → IgnoresNegative (store_revents w.pollfds rs)
      → (w' : PollPoller) × (listed : List ℕ) × (poll (pos r) rs w ≡ some (w', listed))
        × Filled 0 (store_revents w.pollfds rs) answered w' listed
        × IsValid w'
  unfolding poll
  poll-Filled r h silent =
      let f =
        fill_channels-Filled 0 r (store_revents w.pollfds rs) answered [] h
          (answered-Ready silent) in
      (f.0, f.1, rw (lt→ltb 0 r h) f.2, f.3, Filled-IsValid 0 _ _ _ f.1 f.3 answered-IsValid)

-- An error or no result at all leaves the channels as they are, and none is listed.
pub poll-nothing :
    (rs : List ℕ) (n : ℕ) (w : PollPoller)
    → (poll (negsuc n) rs w ≡ some (w, []))
      × (poll (pos 0) rs w ≡ some (record w { pollfds = store_revents w.pollfds rs }, []))
unfolding poll
poll-nothing rs n w = (refl, refl)
