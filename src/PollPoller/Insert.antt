-- ===== src/PollPoller/Insert.antt =====
-- `updateChannel` for a new channel: the poller after it is valid.
use native.Mathlib.Decide.{ℕ_discrete, dec_lt}
use bounce.Prelude.{
  ℕ, ◌<◌, ◌≡◌, ◌≢◌, refl, sym, ap, ◌∙◌, none, some, [], ◌∷◌, ◌++◌, arith, length, get_elem?,
  some_eq, length-append, get_elem?-lt, get_elem?-append_lt, get_elem?-append_length,
}
use bounce.Prelude.Int.{pos, negsuc}
use bounce.PollPoller.{PollFd, PollPoller, insert_entry, update_channel}
use bounce.PollPoller.Inv.{owner, HasEntry, HasChannel, IsValid}

module _ {w : PollPoller} (v : IsValid w) (p n : ℕ) (fd_p : (w.store p).fd ≡ pos n)
    (unknown : w.channels (pos n) ≡ none) where
  pub inserted : PollPoller
  inserted = insert_entry p (w.store p) w

  unfoldable pub added : PollFd
  added = record { fd = (w.store p).fd; events = (w.store p).events; revents = 0 }

  pub inserted-fd : (q : ℕ) → (inserted.store q).fd ≡ (w.store q).fd
  unfolding inserted insert_entry
  inserted-fd q = ground arith

  pub inserted-events : (q : ℕ) → (inserted.store q).events ≡ (w.store q).events
  unfolding inserted insert_entry
  inserted-events q = ground arith

  inserted-new_index : (inserted.store p).index ≡ length w.pollfds
  unfolding inserted insert_entry added
  inserted-new_index = ground (arith, length-append w.pollfds (added ∷ []))

  pub inserted-old_index : (q : ℕ) → q ≢ p → (inserted.store q).index ≡ (w.store q).index
  unfolding inserted insert_entry
  inserted-old_index q h = ground arith

  pub inserted-new_key : inserted.channels (pos n) ≡ some p
  unfolding inserted insert_entry
  inserted-new_key = ground arith

  pub inserted-old_key : (m : ℕ) → m ≢ n → inserted.channels (pos m) ≡ w.channels (pos m)
  unfolding inserted insert_entry
  inserted-old_key m h = ground arith

  -- A channel that was known before is another one.
  pub other_channel : (m q : ℕ) → m ≢ n → w.channels (pos m) ≡ some q → q ≢ p
  other_channel m q h known e = h (ground (arith, v.keyed m q known))

  inserted-keyed : (m q : ℕ) → inserted.channels (pos m) ≡ some q → (inserted.store q).fd ≡ pos m
  inserted-keyed m q h = elim (ℕ_discrete m n) [
    | yes same ↦ ground (arith, inserted-new_key, inserted-fd q)
    | no other ↦ ground (arith, inserted-old_key m other, inserted-fd q, v.keyed m q)
  ]

  pub inserted-pollfds : inserted.pollfds ≡ w.pollfds ++ added ∷ []
  unfolding inserted insert_entry added
  inserted-pollfds = refl

  pub owner-added : owner added.fd ≡ n
  unfolding added
  owner-added = ap owner fd_p

  inserted-entry : (m q : ℕ) → inserted.channels (pos m) ≡ some q → HasEntry inserted m q
  inserted-entry m q h = elim (ℕ_discrete m n) [
    | yes same ↦ (
      added,
      rw (inserted-pollfds) (
          ap (get_elem? (w.pollfds ++ added ∷ [])) (new_index same)
          ∙ get_elem?-append_length w.pollfds added),
      owner-added ∙ sym same,
    )
    | no other ↦ old other (sym (inserted-old_key m other) ∙ h)
  ]
    where
      new_index : m ≡ n → (inserted.store q).index ≡ length w.pollfds
      new_index same = ground (arith, inserted-new_key, inserted-new_index)

      old : m ≢ n → w.channels (pos m) ≡ some q → HasEntry inserted m q
      old other known =
          let e = v.entry m q known in
          (
            e.0,
            rw (inserted-pollfds, inserted-old_index q (other_channel m q other known))
                (get_elem?-append_lt w.pollfds (added ∷ []) (w.store q).index
                    (get_elem?-lt w.pollfds (w.store q).index e.1)
                  ∙ e.1),
            e.2,
          )

  inserted-channel :
      (i : ℕ) (e : PollFd) → get_elem? inserted.pollfds i ≡ some e → HasChannel inserted i e
  inserted-channel i e h = elim (dec_lt i (length w.pollfds)) [
    | yes before ↦ old (
        v.channel i e (
          sym (get_elem?-append_lt w.pollfds (added ∷ []) i before)
          ∙ ap (λ es. get_elem? es i) (sym inserted-pollfds)
          ∙ h))
    | no after ↦ (
      p,
      ap (λ k. inserted.channels (pos k))
            (ap (λ (x : PollFd). owner x.fd) (new after) ∙ owner-added)
          ∙ inserted-new_key,
      inserted-new_index ∙ sym (at_end after),
    )
  ]
    where
      old : HasChannel w i e → HasChannel inserted i e
      old (q, known, at) = (
        q,
        inserted-old_key (owner e.fd)
              (λ same. cc (ap (λ k. w.channels (pos k)) same, unknown, known))
            ∙ known,
        inserted-old_index q (
              other_channel (owner e.fd) q
                (λ same. cc (ap (λ k. w.channels (pos k)) same, unknown, known)) known)
            ∙ at,
      )

      at_end : (i < length w.pollfds → ⊥) → i ≡ length w.pollfds
      at_end after = omega (
        arith,
        get_elem?-lt inserted.pollfds i h,
        ap length inserted-pollfds,
        length-append w.pollfds (added ∷ []),
      )

      new : (i < length w.pollfds → ⊥) → e ≡ added
      new after = some_eq (
          sym h
          ∙ ap (get_elem? inserted.pollfds) (at_end after)
          ∙ ap (λ es. get_elem? es (length w.pollfds)) inserted-pollfds
          ∙ get_elem?-append_length w.pollfds added)

  inserted-natural : (m : ℕ) → inserted.channels (negsuc m) ≡ none
  unfolding inserted insert_entry
  inserted-natural m = ground (arith, v.natural m)

  pub added_fields : (added.events ≡ (w.store p).events) × (added.revents ≡ 0)
  unfolding added
  added_fields = (refl, refl)

  pub inserted-IsValid : IsValid inserted
  inserted-IsValid = record {
    keyed = inserted-keyed;
    entry = inserted-entry;
    natural = inserted-natural;
    channel = inserted-channel;
  }

  pub inserted-watched : get_elem? inserted.pollfds (inserted.store p).index ≡ some added
  inserted-watched =
      ap (get_elem? inserted.pollfds) inserted-new_index
      ∙ ap (λ es. get_elem? es (length w.pollfds)) inserted-pollfds
      ∙ get_elem?-append_length w.pollfds added

  pub update_channel-inserted : update_channel p w ≡ some inserted
  unfolding update_channel inserted
  update_channel-inserted = ground arith
