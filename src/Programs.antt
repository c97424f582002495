-- ===== src/Programs.antt =====
-- bounce/test: the programs that are built against the library. A callback of a program is a function
-- on the connection; what it prints and logs is left out, and `a` is what `::send` will answer.
pub mod Echo
pub mod BufferTest
pub mod EchoBench
pub mod TcpserverTest
pub mod ShutdownTest
pub mod ConnectorTest
pub mod TcpconnectionTest
pub mod TimerTest
pub mod PollerTest
pub mod SockaddrTest
mod Tests
use bounce.Prelude.{ℕ, List, [], ◌∷◌}

-- "127.0.0.1".
abbrev pub localhost : List ℕ
localhost = 49 ∷ 50 ∷ 55 ∷ 46 ∷ 48 ∷ 46 ∷ 48 ∷ 46 ∷ 49 ∷ []
