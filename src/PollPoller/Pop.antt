-- ===== src/PollPoller/Pop.antt =====
-- `removeChannel` for the channel of the last entry.
use native.Mathlib.Decide.{ℕ_discrete}
use bounce.Prelude.{
  ℕ, suc, ◌-◌, ◌<◌, ◌≡◌, ◌≢◌, refl, sym, ap, ◌∙◌, Option, none, some, List, [], ◌∷◌, arith, length,
  get_elem?, some_eq, get_elem?-lt, length-take, get_elem?-take,
}
use bounce.Prelude.Int.{ℤ, pos, negsuc}
use bounce.PollPoller.{PollFd, PollPoller, put_channel, pop_back, remove_channel, last_index}
use bounce.PollPoller.Inv.{owner, HasEntry, HasChannel, IsValid}

pub last_index-some : (es : List PollFd) (k : ℕ) → suc k ≡ length es → last_index es ≡ some k
last_index-some [] k h = absurd (omega arith)
last_index-some (e ∷ es) k h = ap some (omega arith)

module _ {w : PollPoller} (v : IsValid w) (p n : ℕ) (known : w.channels (pos n) ≡ some p) where
  pub index-lt : (w.store p).index < length w.pollfds
  index-lt = get_elem?-lt w.pollfds (w.store p).index (v.entry n p known).1

  -- Only the channel at `p` has the index that it has, and only its entry is about `n`.
  pub index_ne :
      (m q : ℕ) → m ≢ n → w.channels (pos m) ≡ some q → (w.store q).index ≢ (w.store p).index
  index_ne m q other h same = other (
      sym (v.entry m q h).2
      ∙ ap (λ (x : PollFd). owner x.fd)
          (some_eq (sym (v.entry m q h).1 ∙ ap (get_elem? w.pollfds) same ∙ (v.entry n p known).1))
      ∙ (v.entry n p known).2)

  pub owner_ne :
      (i : ℕ) (e : PollFd) → get_elem? w.pollfds i ≡ some e → i ≢ (w.store p).index → owner e.fd ≢ n
  owner_ne i e h other same =
      let c = v.channel i e h in
      other (
        sym c.2
        ∙ ap (λ q. (w.store q).index)
            (some_eq (sym c.1 ∙ ap (λ k. w.channels (pos k)) same ∙ known)))

  -- The map without `n`.
  unfoldable pub erased : ℤ → Option ℕ
  erased = put_channel (pos n) none w.channels

  pub erased_self : erased (pos n) ≡ none
  unfolding erased
  erased_self = ground arith

  pub erased_other : (m : ℕ) → m ≢ n → erased (pos m) ≡ w.channels (pos m)
  unfolding erased
  erased_other m h = ground arith

  pub erased-natural : (m : ℕ) → erased (negsuc m) ≡ none
  unfolding erased
  erased-natural m = ground (arith, v.natural m)

  pub erased-known : (m q : ℕ) → erased (pos m) ≡ some q → (m ≢ n) × (w.channels (pos m) ≡ some q)
  erased-known m q h = elim (ℕ_discrete m n) [
    | yes same ↦ cc (ap (λ k. erased (pos k)) same, erased_self, h)
    | no other ↦ (other, sym (erased_other m other) ∙ h)
  ]

  module _ (last : suc (w.store p).index ≡ length w.pollfds) where
    unfoldable pub popped : PollPoller
    unfolding erased
    popped = record w { channels = erased; pollfds = pop_back w.pollfds }

    pub popped_before :
        (i : ℕ) → i < (w.store p).index → get_elem? popped.pollfds i ≡ get_elem? w.pollfds i
    unfolding popped
    popped_before i h = get_elem?-take w.pollfds (length w.pollfds - 1) i (omega arith)

    popped_lt : (i : ℕ) (e : PollFd) → get_elem? popped.pollfds i ≡ some e → i < (w.store p).index
    unfolding popped
    popped_lt i e h =
        omega (
          arith,
          get_elem?-lt (pop_back w.pollfds) i h,
          length-take (length w.pollfds - 1) w.pollfds,
        )

    popped-entry : (m q : ℕ) → erased (pos m) ≡ some q → HasEntry popped m q
    unfolding popped
    popped-entry m q h =
        let k = erased-known m q h in
        let e = v.entry m q k.1 in
        (
          e.0,
          popped_before (w.store q).index
                (omega (arith, get_elem?-lt w.pollfds (w.store q).index e.1, index_ne m q k.0 k.1))
              ∙ e.1,
          e.2,
        )

    popped-channel :
        (i : ℕ) (e : PollFd) → get_elem? popped.pollfds i ≡ some e → HasChannel popped i e
    unfolding popped
    popped-channel i e h =
        let before = popped_lt i e h in
        let here = sym (popped_before i before) ∙ h in
        let c = v.channel i e here in
        (c.0, erased_other (owner e.fd) (owner_ne i e here (omega arith)) ∙ c.1, c.2)

    pub popped-IsValid : IsValid popped
    unfolding popped
    popped-IsValid = record {
      keyed = λ m q h. v.keyed m q (erased-known m q h).1;
      entry = popped-entry;
      natural = erased-natural;
      channel = popped-channel;
    }

    pub remove_channel-popped : remove_channel p w ≡ some popped
    unfolding remove_channel popped erased
    remove_channel-popped =
        ground (arith, v.keyed n p known, last_index-some w.pollfds (w.store p).index last)

    pub popped_keys : (m : ℕ) → popped.channels (pos m) ≡ erased (pos m)
    unfolding popped
    popped_keys m = refl
