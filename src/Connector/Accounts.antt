-- ===== src/Connector/Accounts.antt =====
-- The descriptors of a connector, over any number of attempts.
use bounce.Prelude.{
  ℕ, ◌+◌, ◌≡◌, refl, sym, ap, subst, ◌∙◌, ◌⊎◌, inl, inr, Bool, true, false, ◌==◌, Option, none,
  some, List, [], ◌∷◌, ◌++◌, arith, if◌then◌else◌, Bool-cases,
}
use bounce.Prelude.Int.{ℤ, put_at, eq_int, eq_int-eq}
use bounce.Channel
use bounce.Channel.{Channel, change, enable_writing}
use bounce.Connector.{
  Connector, init, set_error_callback, einprogress, is_success, hand_over, give_up, handle_write,
  insert_channel, connect_in_loop,
}

abbrev one_if : Bool → ℕ
one_if true = 1
one_if false = 0

-- How often a descriptor is in a list.
pub count : ℤ → List ℤ → ℕ
count g [] = 0
count g (fd ∷ l) = one_if (eq_int fd g) + count g l

count-last : (g fd : ℤ) (l : List ℤ) → count g (l ++ fd ∷ []) ≡ count g l + one_if (eq_int fd g)
unfolding count
count-last g fd [] = omega arith
count-last g fd (h ∷ l) = omega (arith, count-last g fd l)

-- One for a descriptor that waits.
abbrev waits : Option Channel → ℕ
waits none = 0
waits (some ch) = 1

-- Attempts with new sockets, whose descriptors are not in the map, and reports of the channels that are
-- in it, in any order; with the descriptors of all the attempts, and of those that `::connect` refused
-- with another errno.
pub data Reach : Connector → List ℤ → List ℤ → Type 0 where
  here : Reach init [] []
  sets :
      {c : Connector} {opened failed : List ℤ} (tells : Bool)
      → Reach c opened failed
      → Reach (set_error_callback tells c) opened failed
  attempts :
      {c : Connector} {opened failed : List ℤ} (fd : ℤ) (connected : Bool) (errno : ℕ)
      → Reach c opened failed
      → c.conn_map fd ≡ none
      → (connected ≡ true) ⊎ (errno ≡ einprogress)
      → Reach (connect_in_loop fd connected errno c) (opened ++ fd ∷ []) failed
  fails :
      {c : Connector} {opened failed : List ℤ} (fd : ℤ) (errno : ℕ)
      → Reach c opened failed
      → (errno == einprogress) ≡ false
      → Reach (connect_in_loop fd false errno c) (opened ++ fd ∷ []) (failed ++ fd ∷ [])
  reports :
      {c : Connector} {opened failed : List ℤ} (fd ret : ℤ) (error : ℕ) (ch : Channel)
      → Reach c opened failed
      → c.conn_map fd ≡ some ch
      → Reach (handle_write fd ret error c) opened failed

-- Each descriptor was handed over, closed, refused or waits as often as it was opened.
pub record Accounted (c : Connector) (opened failed : List ℤ) : Type 0 where
  pub each :
      (g : ℤ)
      → count g opened ≡ count g c.handed + count g c.closed + waits (c.conn_map g) + count g failed

-- The channel that `connectInLoop` makes.
writing : ℤ → Channel
unfolding Channel.init change
writing fd = change enable_writing (Channel.init fd)

at_once :
    (fd : ℤ) (errno : ℕ) (c : Connector)
    → c.conn_map fd ≡ none
    → connect_in_loop fd true errno c ≡ hand_over fd c
unfolding connect_in_loop handle_write
at_once fd errno c free = rw (free, handle_write) refl

in_progress :
    (fd : ℤ) (errno : ℕ) (c : Connector)
    → c.conn_map fd ≡ none
    → errno ≡ einprogress
    → connect_in_loop fd false errno c
      ≡ record c { conn_map = put_at fd (some (writing fd)) c.conn_map }
unfolding connect_in_loop insert_channel writing
in_progress fd errno c free e =
    ap (λ n. connect_in_loop fd false n c) e ∙ rw (free, insert_channel) refl

refused :
    (fd : ℤ) (errno : ℕ) (c : Connector)
    → (errno == einprogress) ≡ false
    → connect_in_loop fd false errno c ≡ c
unfolding connect_in_loop
refused fd errno c other = rw (other, connect_in_loop) refl

reported :
    (fd ret : ℤ) (error : ℕ) (ch : Channel) (c : Connector)
    → c.conn_map fd ≡ some ch
    → handle_write fd ret error c ≡ (
        let c' = record c {
          conn_map = put_at fd none c.conn_map;
          removed = c.removed ++ fd ∷ [];
        } in
        if is_success ret error then hand_over fd c' else give_up fd error c')
unfolding handle_write
reported fd ret error ch c there = rw (there, handle_write) refl

-- A descriptor begins or ceases to wait.
waits-gone :
    (fd g : ℤ) (ch : Channel) (m : ℤ → Option Channel)
    → m fd ≡ some ch
    → waits (put_at fd none m g) + one_if (eq_int fd g) ≡ waits (m g)
waits-gone fd g ch m e = elim (Bool-cases (eq_int fd g)) [
  | inl same ↦ rw same (sym (ap waits e) ∙ ap (λ h. waits (m h)) (eq_int-eq fd g same))
  | inr other ↦ rw other (omega arith)
]

waits-new :
    (fd g : ℤ) (ch : Channel) (m : ℤ → Option Channel)
    → m fd ≡ none
    → waits (put_at fd (some ch) m g) ≡ waits (m g) + one_if (eq_int fd g)
waits-new fd g ch m e = elim (Bool-cases (eq_int fd g)) [
  | inl same ↦
      rw same (ap (λ n. n + 1) (sym (ap waits e) ∙ ap (λ h. waits (m h)) (eq_int-eq fd g same)))
  | inr other ↦ rw other (omega arith)
]

-- The end of an attempt that waited, a success or not.
over-Accounted :
    (fd : ℤ) (error : ℕ) (ch : Channel) (c : Connector) (opened failed : List ℤ) (success : Bool)
    → c.conn_map fd ≡ some ch
    → Accounted c opened failed
    → Accounted
        (let c' = record c {
          conn_map = put_at fd none c.conn_map;
          removed = c.removed ++ fd ∷ [];
        } in
          if success then hand_over fd c' else give_up fd error c')
        opened
        failed
unfolding hand_over give_up
over-Accounted fd error ch c opened failed true there before = record {
  each = λ g.
      omega (arith, before.each g, waits-gone fd g ch c.conn_map there, count-last g fd c.handed);
}
over-Accounted fd error ch c opened failed false there before = record {
  each = λ g.
      omega (arith, before.each g, waits-gone fd g ch c.conn_map there, count-last g fd c.closed);
}

-- Whatever the attempts and the reports are, and in whatever order, each descriptor was handed over,
-- closed, refused or still waits exactly as often as it was opened.
pub Reach-Accounted :
    {c : Connector} {opened failed : List ℤ} → Reach c opened failed → Accounted c opened failed
unfolding count init set_error_callback hand_over
Reach-Accounted here = record { each = λ g. refl }
Reach-Accounted (sets tells r) = let before = Reach-Accounted r in record { each = before.each }
Reach-Accounted (attempts {c} {opened} {failed} fd true errno r free how) =
    let before = Reach-Accounted r in
    subst (λ d. Accounted d (opened ++ fd ∷ []) failed) (sym (at_once fd errno c free))
      (record {
        each = λ g. omega (arith, before.each g, count-last g fd opened, count-last g fd c.handed);
      })
Reach-Accounted (attempts {c} {opened} {failed} fd false errno r free (inl bad)) = cc bad
Reach-Accounted (attempts {c} {opened} {failed} fd false errno r free (inr e)) =
    let before = Reach-Accounted r in
    subst (λ d. Accounted d (opened ++ fd ∷ []) failed) (sym (in_progress fd errno c free e))
      (record {
        each = λ g. omega (
          arith,
          before.each g,
          count-last g fd opened,
          waits-new fd g (writing fd) c.conn_map free,
        );
      })
Reach-Accounted (fails {c} {opened} {failed} fd errno r other) =
    let before = Reach-Accounted r in
    subst (λ d. Accounted d (opened ++ fd ∷ []) (failed ++ fd ∷ []))
      (sym (refused fd errno c other))
      (record {
        each = λ g. omega (arith, before.each g, count-last g fd opened, count-last g fd failed);
      })
Reach-Accounted (reports {c} {opened} {failed} fd ret error ch r there) =
    subst (λ d. Accounted d opened failed) (sym (reported fd ret error ch c there))
      (over-Accounted fd error ch c opened failed (is_success ret error) there (Reach-Accounted r))
