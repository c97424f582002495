-- ===== src/Poller/Watching.antt =====
-- Channels and their poller agree on what is watched, after any sequence of calls.
use native.Mathlib.Decide.{ℕ_discrete}
use bounce.Prelude.{ℕ, ◌≡◌, ◌≢◌, refl, sym, ap, ◌∙◌, ◌⊎◌, inl, inr, none, some, some_eq}
use bounce.Prelude.Int.{pos, pos_eq}
use bounce.Channel.{Channel, Change, change}
use bounce.Poller.{
  Poller, PollerLaws, Changes, Updates, change_and_update, remove, update, loop_update_channel,
  loop_remove_channel,
}

change-fd : (ch : Change) (c : Channel) → (change ch c).fd ≡ c.fd
unfolding change
change-fd ch c = refl

module _ {W : Type 0} {poller : Poller W} (laws : PollerLaws poller) where
  -- The kernel is asked for the events of every channel that is known.
  pub record Watching (w : W) : Type 0 where
    pub valid : laws.IsValid w
    pub asks :
        (n p : ℕ)
        → poller.channels w (pos n) ≡ some p
        → poller.asked w n ≡ some (poller.channel_at w p).events

  -- Calls of channels: a change of the events of one whose descriptor no other channel has, and the
  -- removal of one that is known.
  pub data Calls (w : W) : W → Type 0 where
    here : Calls w w
    changes :
        {u v : W} (ch : Change) (p n : ℕ)
        → Calls w u
        → (poller.channel_at u p).fd ≡ pos n
        → (poller.channels u (pos n) ≡ none) ⊎ (poller.channels u (pos n) ≡ some p)
        → change_and_update poller ch p u ≡ some v
        → Calls w v
    removes :
        {u v : W} (p n : ℕ)
        → Calls w u
        → poller.channels u (pos n) ≡ some p
        → laws.IsRemovable p n u
        → remove poller p u ≡ some v
        → Calls w v

  module _ {w w₁ w₂ : W} (ch : Change) (p n : ℕ) (before : Watching w)
      (fd_p : (poller.channel_at w p).fd ≡ pos n) (c : Changes poller ch p w w₁)
      (u : Updates poller p n w₁ w₂) where
    -- Only the descriptor `n` leads to the channel at `p`.
    other : (m q : ℕ) → m ≢ n → poller.channels w (pos m) ≡ some q → q ≢ p
    other m q ne known same = ne (
        pos_eq (
          sym (laws.keyed w m q before.valid known)
          ∙ ap (λ r. (poller.channel_at w r).fd) same
          ∙ fd_p))

    changed-asks :
        (m q : ℕ)
        → poller.channels w₂ (pos m) ≡ some q
        → poller.asked w₂ m ≡ some (poller.channel_at w₂ q).events
    changed-asks m q known = elim (ℕ_discrete m n) [
      | yes same ↦
          let at : p ≡ q =
            some_eq (sym u.known ∙ ap (λ k. poller.channels w₂ (pos k)) (sym same) ∙ known) in
          ap (poller.asked w₂) same
          ∙ u.asked
          ∙ ap some (sym (u.same p).1)
          ∙ ap (λ r. some (poller.channel_at w₂ r).events) at
      | no ne ↦
          let old : poller.channels w (pos m) ≡ some q =
            sym (c.channels (pos m)) ∙ sym (u.others m ne).0 ∙ known in
          (u.others m ne).1
          ∙ c.asked m
          ∙ before.asks m q old
          ∙ ap (λ (x : Channel). some x.events) (sym (c.kept q (other m q ne old)))
          ∙ ap some (sym (u.same q).1)
    ]

  -- A channel with a descriptor that no other channel has can change what it is watched for: the
  -- poller does not crash, channels and poller then agree again, and no other channel has changed.
  pub change_and_update-Watching :
      {w : W} (ch : Change) (p n : ℕ)
      → Watching w
      → (poller.channel_at w p).fd ≡ pos n
      → (poller.channels w (pos n) ≡ none) ⊎ (poller.channels w (pos n) ≡ some p)
      → (w' : W) × (change_and_update poller ch p w ≡ some w')
        × Watching w'
        × (poller.channels w' (pos n) ≡ some p)
        × ((poller.channel_at w' p).events ≡ (change ch (poller.channel_at w p)).events)
        × ((m : ℕ) → m ≢ n → poller.channels w' (pos m) ≡ poller.channels w (pos m))
        × ((q : ℕ)
            → q ≢ p
            → ((poller.channel_at w' q).fd ≡ (poller.channel_at w q).fd)
              × ((poller.channel_at w' q).events ≡ (poller.channel_at w q).events))
  unfolding change_and_update update loop_update_channel
  change_and_update-Watching {w} ch p n before fd_p free =
      let (valid₁, c) = laws.change_at-Changes ch p w before.valid in
      let fd₁ : (poller.channel_at (poller.change_at ch p w) p).fd ≡ pos n =
        ap (λ (x : Channel). x.fd) c.changed ∙ change-fd ch (poller.channel_at w p) ∙ fd_p in
      let (w', done, valid', u) =
        laws.update_channel-Updates p n (poller.change_at ch p w) valid₁ fd₁ (elim free [
          | inl none_ ↦ inl (c.channels (pos n) ∙ none_)
          | inr own ↦ inr (c.channels (pos n) ∙ own)
        ]) in
      (
        w',
        done,
        record { valid = valid'; asks = changed-asks ch p n before fd_p c u },
        u.known,
        (u.same p).1 ∙ ap (λ (x : Channel). x.events) c.changed,
        λ m ne. (u.others m ne).0 ∙ c.channels (pos m),
        λ q ne. (
          (u.same q).0 ∙ ap (λ (x : Channel). x.fd) (c.kept q ne),
          (u.same q).1 ∙ ap (λ (x : Channel). x.events) (c.kept q ne),
        ),
      )

  pub remove-Watching :
      {w : W} (p n : ℕ)
      → Watching w
      → poller.channels w (pos n) ≡ some p
      → laws.IsRemovable p n w
      → (w' : W) × (remove poller p w ≡ some w') × Watching w' × (poller.channels w' (pos n) ≡ none)
  unfolding remove loop_remove_channel
  remove-Watching {w} p n before known can =
      let (w', done, valid', r) = laws.remove_channel-Removes p n w before.valid known can in
      (
        w',
        done,
        record {
          valid = valid';
          asks = λ m q there. elim (ℕ_discrete m n) [
            | yes same ↦ cc (ap (λ k. poller.channels w' (pos k)) same, r.unknown, there)
            | no ne ↦
                (r.others m ne).1
                ∙ before.asks m q (sym (r.others m ne).0 ∙ there)
                ∙ ap some (sym (r.same q).1)
          ];
        },
        r.unknown,
      )
