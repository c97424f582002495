-- ===== src/Prelude/Words.antt =====
-- `size_t` arithmetic of a 64-bit target, and the bytes of its integers, low byte first.
use Prim.Native.Nat.{ℕ, zero, suc, ◌+◌, ◌-◌, ◌*◌, ◌/◌, ◌%◌, ◌^◌}
use mathlib.Core.List.{List, [], ◌∷◌}

-- `size_t` addition and subtraction wrap around.
abbrev pub add_size : ℕ → ℕ → ℕ
add_size a b = (a + b) % 2 ^ 64

abbrev pub sub_size : ℕ → ℕ → ℕ
sub_size a b = (a + 2 ^ 64 - b) % 2 ^ 64

-- The largest size of a `std::vector<char>`.
abbrev pub max_size : ℕ
max_size = 2 ^ 63 - 1

-- The `k` bytes of an integer in memory, and the integer that bytes in memory are.
unfoldable pub to_bytes : ℕ → ℕ → List ℕ
to_bytes zero n = []
to_bytes (suc k) n = n % 256 ∷ to_bytes k (n / 256)

unfoldable pub from_bytes : List ℕ → ℕ
from_bytes [] = 0
from_bytes (b ∷ bs) = b + 256 * from_bytes bs
