-- ===== src/PollPoller/Fill.antt =====
-- The loop of `poll`: it finds the channel of every entry with a result, and tells each its own.
use mathlib.Core.List.{append_assoc, append-nil}
use bounce.Prelude.{
  ℕ, zero, suc, ◌+◌, ◌<◌, ◌≡◌, ◌≢◌, refl, sym, ap, ◌∙◌, inl, inr, true, false, Option, some, List,
  [], ◌∷◌, ◌++◌, get_elem?, arith, ltb, leb, Bool-cases, some_eq, ltb→lt,
}
use bounce.Prelude.Int.{ℤ}
use bounce.Channel.{Channel, set_revents}
use bounce.PollPoller.{PollFd, PollPoller, modify, fill_channels}

-- The addresses of the channels of the entries that have a result, in the order of the entries.
pub data Active (channels : ℤ → Option ℕ) : List PollFd → List ℕ → Type 0 where
  nil : Active channels [] []
  idle :
      {e : PollFd} {es : List PollFd} {ps : List ℕ}
      → e.revents ≡ 0
      → Active channels es ps
      → Active channels (e ∷ es) ps
  ready :
      {e : PollFd} {es : List PollFd} {ps : List ℕ} (p : ℕ)
      → 0 < e.revents
      → channels e.fd ≡ some p
      → Active channels es ps
      → Active channels (e ∷ es) (p ∷ ps)

-- Each entry with a result has a channel, whose index is that of the entry, counted from `k`.
abbrev pub Ready : ℕ → List PollFd → PollPoller → Type 0
Ready k es w =
    (j : ℕ) (e : PollFd)
    → get_elem? es j ≡ some e
    → 0 < e.revents
    → (p : ℕ) × (w.channels e.fd ≡ some p) × ((w.store p).index ≡ k + j)

-- What the loop over `es` has done.
pub record Filled (k : ℕ) (es : List PollFd) (w w' : PollPoller) (listed : List ℕ) : Type 0 where
  pub active : Active w.channels es listed
  pub channels : w'.channels ≡ w.channels
  pub pollfds : w'.pollfds ≡ w.pollfds
  pub index : (q : ℕ) → (w'.store q).index ≡ (w.store q).index
  pub fd : (q : ℕ) → (w'.store q).fd ≡ (w.store q).fd
  pub told :
      (j : ℕ) (e : PollFd)
      → get_elem? es j ≡ some e
      → 0 < e.revents
      → (p : ℕ) × (w.channels e.fd ≡ some p) × ((w'.store p).revents ≡ e.revents)
  pub earlier : (q : ℕ) → (w.store q).index < k → w'.store q ≡ w.store q

abbrev tell : ℕ → ℕ → PollPoller → PollPoller
tell p r w = record w { store = modify p (set_revents r) w.store }

tell-index : (p r q : ℕ) (w : PollPoller) → ((tell p r w).store q).index ≡ (w.store q).index
unfolding set_revents
tell-index p r q w = ground arith

tell-fd : (p r q : ℕ) (w : PollPoller) → ((tell p r w).store q).fd ≡ (w.store q).fd
unfolding set_revents
tell-fd p r q w = ground arith

tell-other : (p r q : ℕ) (w : PollPoller) → q ≢ p → (tell p r w).store q ≡ w.store q
tell-other p r q w h = ground arith

tell_self : (p r : ℕ) (w : PollPoller) → ((tell p r w).store p).revents ≡ r
unfolding set_revents
tell_self p r w = ground arith

nothing-Filled : (k : ℕ) (w : PollPoller) → Filled k [] w w []
nothing-Filled k w = record {
  active = nil;
  channels = refl;
  pollfds = refl;
  index = λ q. refl;
  fd = λ q. refl;
  told = λ j e h. cc;
  earlier = λ q h. refl;
}

-- An entry without a result is skipped.
skip-Filled :
    {k : ℕ} {e : PollFd} {es : List PollFd} {w w' : PollPoller} {listed : List ℕ}
    → e.revents ≡ 0
    → Filled (suc k) es w w' listed
    → Filled k (e ∷ es) w w' listed
skip-Filled {k} {e} {es} {w} {w'} none_came f = record {
  active = idle none_came f.active;
  channels = f.channels;
  pollfds = f.pollfds;
  index = f.index;
  fd = f.fd;
  told = told_here;
  earlier = λ q h. f.earlier q (omega arith);
}
  where
    told_here :
        (j : ℕ) (x : PollFd)
        → get_elem? (e ∷ es) j ≡ some x
        → 0 < x.revents
        → (p : ℕ) × (w.channels x.fd ≡ some p) × ((w'.store p).revents ≡ x.revents)
    told_here zero x h came =
        absurd (omega (arith, none_came, ap (λ (y : PollFd). y.revents) (some_eq h)))
    told_here (suc j) x h came = f.told j x h came

-- The channel of an entry with a result is told, and no later entry is that channel's.
tell-Filled :
    {k : ℕ} {e : PollFd} {es : List PollFd} {w w' : PollPoller} {listed : List ℕ} (p : ℕ)
    → 0 < e.revents
    → w.channels e.fd ≡ some p
    → (w.store p).index ≡ k
    → Filled (suc k) es (tell p e.revents w) w' listed
    → Filled k (e ∷ es) w w' (p ∷ listed)
tell-Filled {k} {e} {es} {w} {w'} p came known at f = record {
  active = ready p came known f.active;
  channels = f.channels;
  pollfds = f.pollfds;
  index = λ q. f.index q ∙ tell-index p e.revents q w;
  fd = λ q. f.fd q ∙ tell-fd p e.revents q w;
  told = told_here;
  earlier = λ q h.
      f.earlier q (omega (arith, tell-index p e.revents q w))
      ∙ tell-other p e.revents q w
          (λ same. absurd (omega (arith, at, ap (λ x. (w.store x).index) same)));
}
  where
    told_self : (w'.store p).revents ≡ e.revents
    told_self =
        ap (λ (c : Channel). c.revents)
          (f.earlier p (omega (arith, at, tell-index p e.revents p w)))
        ∙ tell_self p e.revents w

    told_here :
        (j : ℕ) (x : PollFd)
        → get_elem? (e ∷ es) j ≡ some x
        → 0 < x.revents
        → (q : ℕ) × (w.channels x.fd ≡ some q) × ((w'.store q).revents ≡ x.revents)
    told_here zero x h c = (
      p,
      ap (λ (y : PollFd). w.channels y.fd) (sym (some_eq h)) ∙ known,
      told_self ∙ ap (λ (y : PollFd). y.revents) (some_eq h),
    )
    told_here (suc j) x h c = f.told j x h c

Ready-skip :
    (k : ℕ) (e : PollFd) (es : List PollFd) (w : PollPoller)
    → Ready k (e ∷ es) w
    → Ready (suc k) es w
Ready-skip k e es w all j x h came = let r = all (suc j) x h came in (r.0, r.1, r.2 ∙ omega arith)

Ready-tell :
    (k : ℕ) (es : List PollFd) (w : PollPoller) (p r : ℕ) → Ready k es w → Ready k es (tell p r w)
Ready-tell k es w p r all j x h came =
    let c = all j x h came in (c.0, c.1, tell-index p r c.0 w ∙ c.2)

-- With a positive `r_num` the loop does not crash and goes through all the entries.
pub fill_channels-Filled :
    (k r : ℕ) (es : List PollFd) (w : PollPoller) (active : List ℕ)
    → 0 < r
    → Ready k es w
    → (w' : PollPoller) × (listed : List ℕ) × (fill_channels 0 r es w active
        ≡ some (w', active ++ listed))
      × Filled k es w w' listed
unfolding fill_channels
fill_channels-Filled k r [] w active h all =
    (w, [], ap (λ ps. some (w, ps)) (sym (append-nil active)), nothing-Filled k w)
fill_channels-Filled k r (e ∷ es) w active h all = elim (Bool-cases (ltb 0 e.revents)) [
  | inl came ↦
      let c = all zero e refl (ltb→lt 0 e.revents came) in
      let rest =
        fill_channels-Filled (suc k) r es (tell c.0 e.revents w) (active ++ c.0 ∷ []) h
          (Ready-tell (suc k) es w c.0 e.revents (Ready-skip k e es w all)) in
      (
        rest.0,
        c.0 ∷ rest.1,
        going came c.0 c.1
            ∙ rest.2
            ∙ ap (λ ps. some (rest.0, ps)) (append_assoc active (c.0 ∷ []) rest.1),
        tell-Filled c.0 (ltb→lt 0 e.revents came) c.1 (c.2 ∙ omega arith) rest.3,
      )
  | inr idle_ ↦
      let rest = fill_channels-Filled (suc k) r es w active h (Ready-skip k e es w all) in
      (rest.0, rest.1, skipping idle_ ∙ rest.2, skip-Filled (ground arith) rest.3)
]
  where
    on : leb r 0 ≡ false
    on = ground arith

    going :
        ltb 0 e.revents ≡ true
        → (p : ℕ) → w.channels e.fd ≡ some p
        → fill_channels 0 r (e ∷ es) w active
          ≡ fill_channels 0 r es (tell p e.revents w) (active ++ p ∷ [])
    going came p known = rw (on, came, fill_channels, known) refl

    skipping :
        ltb 0 e.revents ≡ false
        → fill_channels 0 r (e ∷ es) w active ≡ fill_channels 0 r es w active
    skipping none_came = rw (on, none_came) refl
