-- ===== src/Buffer/Sizes.antt =====
-- The three sizes of integers, and how a buffer reads each.
use bounce.Prelude.{ℕ, ◌≤◌, ◌≡◌, refl, arith}
use bounce.Buffer.{
  Buffer, read_int, read_int8, read_int16, read_int32, int8_size, int16_size, int32_size,
}

-- The integers that a buffer can hold.
pub data Size : Type 0 where
  int8 int16 int32 : Size

abbrev pub size_of : Size → ℕ
size_of int8 = int8_size
size_of int16 = int16_size
size_of int32 = int32_size

-- How far a read of an integer advances.
abbrev pub step_of : Size → ℕ
step_of int8 = int8_size
step_of int16 = int16_size
step_of int32 = int16_size

unfoldable pub read_sized : Size → Buffer → ℕ × Buffer
unfolding read_int8 read_int16 read_int32
read_sized int8 b = read_int8 b
read_sized int16 b = read_int16 b
read_sized int32 b = read_int32 b

pub size_of-le : (s : Size) → size_of s ≤ 8
size_of-le int8 = omega arith
size_of-le int16 = omega arith
size_of-le int32 = omega arith

pub step_of-le : (s : Size) → step_of s ≤ size_of s
step_of-le int8 = omega arith
step_of-le int16 = omega arith
step_of-le int32 = omega arith

pub read_sized-eq : (s : Size) (b : Buffer) → read_sized s b ≡ read_int (size_of s) (step_of s) b
unfolding read_sized
read_sized-eq int8 b = refl
read_sized-eq int16 b = refl
read_sized-eq int32 b = refl
