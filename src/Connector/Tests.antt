-- ===== src/Connector/Tests.antt =====
-- Runs of a connector, and its theorem at a concrete one.
use bounce.Prelude.{ℕ, ◌≢◌, ◌≡◌, ◌⊎◌, refl, true, false, none, List, [], ◌∷◌}
use bounce.Prelude.Int.{negsuc, pos}
use bounce.Connector.{Connector, init, einprogress, handle_write, connect_in_loop}
use bounce.Connector.Accounts.{Accounted}
use bounce.Connector.Calls.{
  Call, connects, connects_in_loop, sets_error_callback, hears, opened, failed, run_call, life,
  life-Accounted,
}
use bounce.Connector.Attempts.{Hands, GivesUp, handle_write-attempt}

abbrev fresh : Connector
fresh = record {
  conn_map = λ _. none;
  handed = [];
  closed = [];
  removed = [];
  errors = [];
  tells = true;
}

-- The peer refuses: the descriptor is closed, and the program hears of ECONNREFUSED.
refused :
    (handle_write (pos 5) (pos 0) 111 (connect_in_loop (pos 5) false einprogress fresh)).closed
    ≡ pos 5 ∷ []
unfolding handle_write connect_in_loop
refused = refl

abbrev error_code : ℕ
error_code = 111

handle_write-attempt_example :
    Hands (pos 5) fresh (connect_in_loop (pos 5) true 0 fresh)
    × (((((m : ℕ) × (pos 0 ≡ pos m)) × (error_code ≡ 0))
          × Hands
              (pos 5)
              fresh
              (handle_write (pos 5) (pos 0) 111 (connect_in_loop (pos 5) false einprogress fresh)))
        ⊎ ((((m : ℕ) × (pos 0 ≡ negsuc m)) ⊎ (error_code ≢ 0))
            × GivesUp (pos 5) 111 fresh (
                handle_write
                  (pos 5)
                  (pos 0)
                  111
                  (connect_in_loop (pos 5) false einprogress fresh))))
handle_write-attempt_example = handle_write-attempt (pos 5) (pos 0) 111 fresh refl

-- One connection in progress, one at once and one refused, and the report of the first.
abbrev calls : List Call
calls =
    sets_error_callback true
    ∷ connects true (pos 5) false einprogress
    ∷ connects_in_loop (pos 6) true 0
    ∷ connects_in_loop (pos 7) false 111
    ∷ hears (pos 5) (pos 0) 0
    ∷ []

opens_three : (opened calls ≡ pos 5 ∷ pos 6 ∷ pos 7 ∷ []) × (failed calls ≡ pos 7 ∷ [])
unfolding opened failed
opens_three = (refl, refl)

life-Accounted_example : Accounted (life calls) (opened calls) (failed calls)
unfolding init run_call connect_in_loop
life-Accounted_example = life-Accounted calls (tt, (refl, (refl, (refl, (tt, tt)))))
