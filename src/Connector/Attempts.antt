-- ===== src/Connector/Attempts.antt =====
-- An attempt to connect, from the call to its end.
use bounce.Prelude.{
  ℕ, ◌≡◌, ◌≢◌, arith, refl, sym, subst, ap, ◌∙◌, inl, inr, true, false, Option, none, some, [], ◌∷◌,
  ◌++◌, if◌then◌else◌, Bool-cases, ◌⊎◌,
}
use bounce.Prelude.Int.{ℤ, pos, negsuc, put_at, put_at-same, eq_int, eq_int-eq}
use bounce.Channel
use bounce.Channel.{Channel, change, enable_writing}
use bounce.Connector.{
  Connector, einprogress, is_success, hand_over, give_up, handle_write, insert_channel,
  connect_in_loop,
}

-- The descriptor is handed over, and the rest is as it was.
pub record Hands (fd : ℤ) (c c' : Connector) : Type 0 where
  pub handed : c'.handed ≡ c.handed ++ fd ∷ []
  pub closed : c'.closed ≡ c.closed
  pub errors : c'.errors ≡ c.errors
  pub map : (g : ℤ) → c'.conn_map g ≡ c.conn_map g

-- The descriptor is closed, the program is told why, and the rest is as it was.
pub record GivesUp (fd : ℤ) (error : ℕ) (c c' : Connector) : Type 0 where
  pub handed : c'.handed ≡ c.handed
  pub closed : c'.closed ≡ c.closed ++ fd ∷ []
  pub errors : c'.errors ≡ (if c.tells then c.errors ++ error ∷ [] else c.errors)
  pub map : (g : ℤ) → c'.conn_map g ≡ c.conn_map g

-- The attempt while it waits.
waiting : ℤ → Connector → Connector
unfolding Channel.init change
waiting fd c = record c {
  conn_map = put_at fd (some (change enable_writing (Channel.init fd))) c.conn_map;
}

connect_in_loop-waits :
    (fd : ℤ) (c : Connector)
    → c.conn_map fd ≡ none
    → connect_in_loop fd false einprogress c ≡ waiting fd c
unfolding connect_in_loop insert_channel waiting
connect_in_loop-waits fd c free = rw (free, insert_channel) refl

-- The map when the attempt is over.
restored :
    (fd : ℤ) (ch : Channel) (m : ℤ → Option Channel)
    → m fd ≡ none
    → (g : ℤ) → put_at fd none (put_at fd (some ch) m) g ≡ m g
restored fd ch m free g = elim (Bool-cases (eq_int fd g)) [
  | inl same ↦ rw same (sym free ∙ ap m (eq_int-eq fd g same))
  | inr other ↦ rw other refl
]

-- What `getsockopt` has to say.
succeeds :
    (ret : ℤ) (error : ℕ) → is_success ret error ≡ true → ((m : ℕ) × (ret ≡ pos m)) × (error ≡ 0)
unfolding is_success
succeeds (pos m) error h = ((m, refl), ground (arith, h))
succeeds (negsuc m) error h = cc

fails :
    (ret : ℤ) (error : ℕ)
    → is_success ret error ≡ false
    → ((m : ℕ) × (ret ≡ negsuc m)) ⊎ (error ≢ 0)
unfolding is_success
fails (pos m) error h = inr (λ e. ground (arith, h, e))
fails (negsuc m) error h = inl (m, refl)

module _ (fd ret : ℤ) (error : ℕ) (c : Connector) (free : c.conn_map fd ≡ none) where
  ch : Channel
  unfolding Channel.init change
  ch = change enable_writing (Channel.init fd)

  -- The connector when the channel is gone.
  over : Connector
  over = record c {
    conn_map = put_at fd none (put_at fd (some ch) c.conn_map);
    removed = c.removed ++ fd ∷ [];
  }

  handle_write-waiting :
      handle_write fd ret error (waiting fd c)
      ≡ (if is_success ret error then hand_over fd over else give_up fd error over)
  unfolding handle_write waiting over ch
  handle_write-waiting = rw (put_at-same fd (some ch) c.conn_map, handle_write) refl

  over-Hands : Hands fd c (hand_over fd over)
  unfolding hand_over over
  over-Hands = record {
    handed = refl;
    closed = refl;
    errors = refl;
    map = restored fd ch c.conn_map free;
  }

  over-GivesUp : GivesUp fd error c (give_up fd error over)
  unfolding give_up over
  over-GivesUp = record {
    handed = refl;
    closed = refl;
    errors = refl;
    map = restored fd ch c.conn_map free;
  }

  at_once : (errno : ℕ) → Hands fd c (connect_in_loop fd true errno c)
  unfolding connect_in_loop handle_write hand_over
  at_once errno =
      subst (Hands fd c) (sym now)
        (record { handed = refl; closed = refl; errors = refl; map = λ g. refl })
    where
      now : connect_in_loop fd true errno c ≡ record c { handed = c.handed ++ fd ∷ [] }
      now = rw (free, handle_write) refl

  -- An attempt to connect a new descriptor, whether `::connect` succeeds at once or the channel
  -- reports later, hands the descriptor over to the server or else closes it and tells the program the
  -- error; in the second case it is handed over exactly if `getsockopt` does not fail and finds no
  -- error. The map is then as it was.
  pub handle_write-attempt :
      Hands fd c (connect_in_loop fd true 0 c)
      × (((((m : ℕ) × (ret ≡ pos m)) × (error ≡ 0))
            × Hands fd c (handle_write fd ret error (connect_in_loop fd false einprogress c)))
          ⊎ ((((m : ℕ) × (ret ≡ negsuc m)) ⊎ (error ≢ 0))
              × GivesUp fd error c
                  (handle_write fd ret error (connect_in_loop fd false einprogress c))))
  handle_write-attempt = (at_once 0, by_success (Bool-cases (is_success ret error)))
    where
      same :
          handle_write fd ret error (connect_in_loop fd false einprogress c)
          ≡ (if is_success ret error then hand_over fd over else give_up fd error over)
      same = ap (handle_write fd ret error) (connect_in_loop-waits fd c free) ∙ handle_write-waiting

      by_success :
          (is_success ret error ≡ true) ⊎ (is_success ret error ≡ false)
          → ((((m : ℕ) × (ret ≡ pos m)) × (error ≡ 0))
              × Hands fd c (handle_write fd ret error (connect_in_loop fd false einprogress c)))
            ⊎ ((((m : ℕ) × (ret ≡ negsuc m)) ⊎ (error ≢ 0))
                × GivesUp fd error c
                    (handle_write fd ret error (connect_in_loop fd false einprogress c)))
      by_success (inl good) = inl (
        succeeds ret error good,
        subst (Hands fd c)
            (sym (same ∙ ap (λ b. if b then hand_over fd over else give_up fd error over) good))
            over-Hands,
      )
      by_success (inr bad) = inr (
        fails ret error bad,
        subst (GivesUp fd error c)
            (sym (same ∙ ap (λ b. if b then hand_over fd over else give_up fd error over) bad))
            over-GivesUp,
      )
