-- ===== src/PollPoller/FillGap.antt =====
-- `removeChannel` for a channel whose entry is not the last: the last entry takes its place.
use native.Mathlib.Decide.{ℕ_discrete}
use bounce.Prelude.{
  ℕ, suc, ◌-◌, ◌<◌, ◌≡◌, ◌≢◌, refl, sym, ap, ◌∙◌, none, some, List, arith, length, get_elem?, set,
  some_eq, length-set, get_elem?-lt, length-take, get_elem?-take, get_elem?-set_self,
  get_elem?-set_ne,
}
use bounce.Prelude.Int.{pos, negsuc, pos_eq}
use bounce.Channel.{set_index}
use bounce.PollPoller.{PollFd, PollPoller, modify, pop_back, remove_channel}
use bounce.PollPoller.Inv.{owner, HasEntry, HasChannel, IsValid}
use bounce.PollPoller.Pop.{
  index_ne, owner_ne, erased, erased_other, erased-natural, erased-known, last_index-some,
}

-- The entries after the swap and `pop_back`.
module _ (es : List PollFd) (idx last : ℕ) (a b : PollFd) (ends : suc last ≡ length es)
    (inside : idx < last) (at_last : get_elem? es last ≡ some b) where
  abbrev pub swapped : List PollFd
  swapped = pop_back (set (set es idx b) last a)

  length-swapped : length (set (set es idx b) last a) ≡ suc last
  length-swapped = omega (arith, length-set (set es idx b) last a, length-set es idx b)

  pub swapped_lt : (i : ℕ) (e : PollFd) → get_elem? swapped i ≡ some e → i < last
  swapped_lt i e h = omega (
    arith,
    get_elem?-lt swapped i h,
    length-take (length (set (set es idx b) last a) - 1) (set (set es idx b) last a),
    length-swapped,
  )

  pub swapped_gap : get_elem? swapped idx ≡ some b
  swapped_gap =
      get_elem?-take (set (set es idx b) last a) (length (set (set es idx b) last a) - 1) idx
        (omega (arith, length-swapped))
      ∙ get_elem?-set_ne (set es idx b) last idx a (omega arith)
      ∙ get_elem?-set_self es idx b (omega arith)

  pub swapped_other : (i : ℕ) → i < last → i ≢ idx → get_elem? swapped i ≡ get_elem? es i
  swapped_other i h other =
      get_elem?-take (set (set es idx b) last a) (length (set (set es idx b) last a) - 1) i
        (omega (arith, length-swapped))
      ∙ get_elem?-set_ne (set es idx b) last i a (omega arith)
      ∙ get_elem?-set_ne es idx i b (omega arith)

module _ {w : PollPoller} (v : IsValid w) (p n : ℕ) (known : w.channels (pos n) ≡ some p) (last : ℕ)
    (ends : suc last ≡ length w.pollfds) (inside : (w.store p).index < last) (a b : PollFd)
    (at_last : get_elem? w.pollfds last ≡ some b)
    (at_index : get_elem? w.pollfds (w.store p).index ≡ some a) where
  abbrev idx : ℕ
  idx = (w.store p).index

  -- The channel of the last entry, and its descriptor.
  abbrev q₀ : ℕ
  q₀ = (v.channel last b at_last).0

  abbrev m₀ : ℕ
  m₀ = owner b.fd

  pub q₀-known : w.channels (pos m₀) ≡ some q₀
  q₀-known = (v.channel last b at_last).1

  pub q₀-index : (w.store q₀).index ≡ last
  q₀-index = (v.channel last b at_last).2

  m₀_ne : m₀ ≢ n
  m₀_ne = owner_ne v p n known last b at_last (omega arith)

  pub filled : PollPoller
  filled = record {
    channels = erased v p n known;
    pollfds = swapped w.pollfds idx last a b ends inside at_last;
    store = modify q₀ (set_index idx) w.store;
  }

  pub filled-fd : (q : ℕ) → (filled.store q).fd ≡ (w.store q).fd
  unfolding filled set_index
  filled-fd q = ground arith

  pub filled-events : (q : ℕ) → (filled.store q).events ≡ (w.store q).events
  unfolding filled set_index
  filled-events q = ground arith

  pub filled-moved : (filled.store q₀).index ≡ idx
  unfolding filled set_index
  filled-moved = ground arith

  pub filled-kept : (q : ℕ) → q ≢ q₀ → (filled.store q).index ≡ (w.store q).index
  unfolding filled
  filled-kept q h = ground arith

  pub filled-gap : get_elem? filled.pollfds idx ≡ some b
  unfolding filled
  filled-gap = swapped_gap w.pollfds idx last a b ends inside at_last

  pub filled-same :
      (i : ℕ) → i < last → i ≢ idx → get_elem? filled.pollfds i ≡ get_elem? w.pollfds i
  unfolding filled
  filled-same = swapped_other w.pollfds idx last a b ends inside at_last

  filled-lt : (i : ℕ) (e : PollFd) → get_elem? filled.pollfds i ≡ some e → i < last
  unfolding filled
  filled-lt = swapped_lt w.pollfds idx last a b ends inside at_last

  -- A channel of another descriptor is another one, and its entry stands before the last.
  pub other_channel : (m q : ℕ) → m ≢ m₀ → w.channels (pos m) ≡ some q → q ≢ q₀
  other_channel m q other known_q same =
      other (
        pos_eq (sym (v.keyed m q known_q) ∙ ap (λ x. (w.store x).fd) same ∙ v.keyed m₀ q₀ q₀-known))

  pub other_index : (m q : ℕ) → m ≢ m₀ → w.channels (pos m) ≡ some q → (w.store q).index < last
  other_index m q other known_q = omega (
    arith,
    get_elem?-lt w.pollfds (w.store q).index (v.entry m q known_q).1,
    index_ne v q₀ m₀ q₀-known m q other known_q,
    q₀-index,
  )

  filled-entry : (m q : ℕ) → erased v p n known (pos m) ≡ some q → HasEntry filled m q
  filled-entry m q h = elim (ℕ_discrete m m₀) [
    | yes same ↦ (
      b,
      ap (get_elem? filled.pollfds)
            (ap (λ x. (filled.store x).index) (mover_at same) ∙ filled-moved)
          ∙ filled-gap,
      sym same,
    )
    | no other ↦
        let e = v.entry m q k.1 in
        (
          e.0,
          ap (get_elem? filled.pollfds) (filled-kept q (other_channel m q other k.1))
              ∙ filled-same (w.store q).index (other_index m q other k.1)
                  (index_ne v p n known m q k.0 k.1)
              ∙ e.1,
          e.2,
        )
  ]
    where
      k : (m ≢ n) × (w.channels (pos m) ≡ some q)
      k = erased-known v p n known m q h

      mover_at : m ≡ m₀ → q ≡ q₀
      mover_at same = some_eq (sym k.1 ∙ ap (λ j. w.channels (pos j)) same ∙ q₀-known)

  filled-channel :
      (i : ℕ) (e : PollFd) → get_elem? filled.pollfds i ≡ some e → HasChannel filled i e
  unfolding filled
  filled-channel i e h = elim (ℕ_discrete i idx) [
    | yes same ↦ (
      q₀,
      ap (λ (x : PollFd). erased v p n known (pos (owner x.fd))) (moved_entry same)
          ∙ erased_other v p n known m₀ m₀_ne
          ∙ q₀-known,
      filled-moved ∙ sym same,
    )
    | no other ↦ old other (v.channel i e (here other))
  ]
    where
      moved_entry : i ≡ idx → e ≡ b
      moved_entry same = some_eq (sym h ∙ ap (get_elem? filled.pollfds) same ∙ filled-gap)

      here : i ≢ idx → get_elem? w.pollfds i ≡ some e
      here other = sym (filled-same i (filled-lt i e h) other) ∙ h

      old : i ≢ idx → HasChannel w i e → HasChannel filled i e
      old other (q, known_q, at) = (
        q,
        erased_other v p n known (owner e.fd) (owner_ne v p n known i e (here other) other)
            ∙ known_q,
        filled-kept q (λ same.
              absurd
                (omega (arith, filled-lt i e h, ap (λ x. (w.store x).index) same, at, q₀-index)))
            ∙ at,
      )

  pub filled-IsValid : IsValid filled
  unfolding filled
  filled-IsValid = record {
    keyed = λ m q h. filled-fd q ∙ v.keyed m q (erased-known v p n known m q h).1;
    entry = filled-entry;
    natural = erased-natural v p n known;
    channel = filled-channel;
  }

  pub remove_channel-filled : b.fd ≡ pos m₀ → remove_channel p w ≡ some filled
  unfolding remove_channel filled erased
  remove_channel-filled active =
      ground (arith, v.keyed n p known, last_index-some w.pollfds last ends, q₀-known, m₀_ne)

  pub remove_channel-crash : b.fd ≡ negsuc m₀ → remove_channel p w ≡ none
  unfolding remove_channel erased
  remove_channel-crash off =
      ground (arith, v.keyed n p known, last_index-some w.pollfds last ends, v.natural m₀)

  pub filled_keys : (m : ℕ) → filled.channels (pos m) ≡ erased v p n known (pos m)
  unfolding filled
  filled_keys m = refl
