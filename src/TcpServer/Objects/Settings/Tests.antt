-- ===== src/TcpServer/Objects/Settings/Tests.antt =====
-- A server that is set up, started and changed.
use bounce.Prelude.{ℕ, ◌≡◌, refl, ◌+◌, false, some, List, [], ◌∷◌}
use bounce.Prelude.Int.{pos}
use bounce.SockAddress.{SockAddress, from_port}
use bounce.TcpServer.Objects.{Server}
use bounce.TcpServer.Objects.Settings.{
  Call, starts, sets_thread_number, sets_connection_callback, sets_new_connection, promise,
  promise_each, new_settings, listens, all_listen, life, view,
}
use bounce.TcpServer.Objects.Settings.Kept.{life-promise}

abbrev any_address : SockAddress
unfolding from_port
any_address = from_port 8080 false false

abbrev calls : List (Call ℕ)
calls =
    sets_thread_number 2
    ∷ sets_thread_number 4
    ∷ starts (λ i. i + 100) (pos 0)
    ∷ sets_thread_number 8
    ∷ sets_connection_callback (some some)
    ∷ sets_new_connection (pos 9)
    ∷ []

-- The number of threads is the last before the start.
four_threads : (promise_each calls (new_settings 1 0)).thread_num ≡ 4
unfolding promise_each promise new_settings
four_threads = refl

life-promise_example :
    (s : Server ℕ ℕ) × (life 1 any_address 0 (pos 3) (pos 0) calls ≡ some s)
    × (view s ≡ promise_each calls (new_settings 1 0))
unfolding all_listen listens
life-promise_example = life-promise 1 any_address 0 (pos 3) calls refl
