-- ===== src/PollPoller/Remove.antt =====
-- `removeChannel`: where it keeps the invariant, and where it crashes.
use native.Mathlib.Decide.{ℕ_discrete}
use bounce.Prelude.{
  ℕ, suc, ◌-◌, ◌<◌, ◌≡◌, ◌≢◌, sym, ap, ◌∙◌, ◌⊎◌, inl, inr, none, some, get_elem?, length, arith,
}
use bounce.Prelude.Int.{ℤ, pos, negsuc}
use bounce.PollPoller.{PollFd, PollPoller, remove_channel}
use bounce.PollPoller.Inv.{owner, IsValid}
use bounce.PollPoller.Pop.{
  index-lt, erased_self, erased_other, popped, popped-IsValid, remove_channel-popped, popped_keys,
}
use bounce.PollPoller.FillGap.{
  filled, filled-IsValid, remove_channel-filled, remove_channel-crash, filled_keys,
}

-- The last entry is about the descriptor `m`, and `::poll` does not ignore it.
abbrev pub LastWatches : PollPoller → ℤ → Type 0
LastWatches w fd =
    (b : PollFd) × (get_elem? w.pollfds (length w.pollfds - 1) ≡ some b) × (b.fd ≡ fd)

-- `w'` is `w` without the descriptor `n`.
pub record Removed (w : PollPoller) (n : ℕ) (w' : PollPoller) : Type 0 where
  pub valid : IsValid w'
  pub unknown : w'.channels (pos n) ≡ none
  pub others : (m : ℕ) → m ≢ n → w'.channels (pos m) ≡ w.channels (pos m)

module _ {w : PollPoller} (p n : ℕ) (v : IsValid w) (known : w.channels (pos n) ≡ some p) where
  -- If the channel has the last entry, or the last entry is one that `::poll` does not ignore,
  -- `removeChannel` does not crash and keeps the invariant: the descriptor is then unknown, and all
  -- others are known as before.
  pub remove_channel-Removed :
      (m : ℕ)
      → (suc (w.store p).index ≡ length w.pollfds) ⊎ LastWatches w (pos m)
      → (w' : PollPoller) × (remove_channel p w ≡ some w') × Removed w n w'
  remove_channel-Removed m cases = elim (ℕ_discrete (suc (w.store p).index) (length w.pollfds)) [
    | yes last ↦ pop last
    | no inside ↦ elim cases [ inl last ↦ pop last | inr b ↦ fill inside b ]
  ]
    where
      pop :
          suc (w.store p).index ≡ length w.pollfds
          → (w' : PollPoller) × (remove_channel p w ≡ some w') × Removed w n w'
      pop last = (
        popped v p n known last,
        remove_channel-popped v p n known last,
        record {
          valid = popped-IsValid v p n known last;
          unknown = popped_keys v p n known last n ∙ erased_self v p n known;
          others = λ k h. popped_keys v p n known last k ∙ erased_other v p n known k h;
        },
      )

      fill :
          suc (w.store p).index ≢ length w.pollfds
          → LastWatches w (pos m)
          → (w' : PollPoller) × (remove_channel p w ≡ some w') × Removed w n w'
      fill inside (b, at_last, active) =
          let last = length w.pollfds - 1 in
          let e = v.entry n p known in
          let lt = index-lt v p n known in
          let ends : suc last ≡ length w.pollfds = omega arith in
          let before : (w.store p).index < last = omega arith in
          (
            filled v p n known last ends before e.0 b at_last e.1,
            remove_channel-filled v p n known last ends before e.0 b at_last e.1
                (active ∙ ap (λ fd. pos (owner fd)) (sym active)),
            record {
              valid = filled-IsValid v p n known last ends before e.0 b at_last e.1;
              unknown =
                  filled_keys v p n known last ends before e.0 b at_last e.1 n
                  ∙ erased_self v p n known;
              others = λ k h.
                  filled_keys v p n known last ends before e.0 b at_last e.1 k
                  ∙ erased_other v p n known k h;
            },
          )

  -- If the channel does not have the last entry and `::poll` ignores the last entry, because its
  -- channel watches for nothing, `removeChannel` always crashes: it looks the entry's channel up by
  -- the negative number.
  pub remove_channel-none :
      (m : ℕ)
      → suc (w.store p).index ≢ length w.pollfds
      → LastWatches w (negsuc m)
      → remove_channel p w ≡ none
  remove_channel-none m inside (b, at_last, off) =
      let e = v.entry n p known in
      let lt = index-lt v p n known in
      remove_channel-crash v p n known (length w.pollfds - 1) (omega arith) (omega arith) e.0 b
        at_last e.1 (off ∙ ap (λ fd. negsuc (owner fd)) (sym off))
