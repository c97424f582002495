-- ===== src/Prelude/Int.antt =====
-- Signed `int` values over the native numbers.
use Prim.Native.Nat.{ℕ}
use mathlib.Core.Path.{◌≡◌, refl, ap}
use mathlib.Core.Logic.{◌≢◌}
use native.Mathlib.Omega.{arith}
use mathlib.Core.Bool.{Bool, true, false}
use mathlib.Core.Option.{Option}
use bounce.Prelude.Tests.{◌==◌, ==_refl, if◌then◌else◌}

-- `negsuc n` is -(n + 1).
pub data ℤ : Type 0 where
  pos : ℕ → ℤ
  negsuc : ℕ → ℤ

-- Equality of `int`s.
abbrev pub eq_int : ℤ → ℤ → Bool
eq_int (pos m) (pos n) = m == n
eq_int (negsuc m) (negsuc n) = m == n
eq_int (pos m) (negsuc n) = false
eq_int (negsuc m) (pos n) = false

pub pos_eq : {m n : ℕ} → pos m ≡ pos n → m ≡ n
pos_eq h = cc

-- A map from descriptors, changed at one of them.
abbrev pub put_at {ℓ} : {A : Type ℓ} → ℤ → Option A → (ℤ → Option A) → ℤ → Option A
put_at fd o m other = if eq_int fd other then o else m other

pub eq_int_refl : (i : ℤ) → eq_int i i ≡ true
eq_int_refl (pos n) = ==_refl n
eq_int_refl (negsuc n) = ==_refl n

pub eq_int_ne : (i j : ℤ) → i ≢ j → eq_int i j ≡ false
eq_int_ne (pos m) (pos n) h = ground (arith, ap pos)
eq_int_ne (negsuc m) (negsuc n) h = ground (arith, ap negsuc)
eq_int_ne (pos m) (negsuc n) h = refl
eq_int_ne (negsuc m) (pos n) h = refl

pub put_at-same {ℓ} : {A : Type ℓ} (fd : ℤ) (o : Option A) (m : ℤ → Option A) → put_at fd o m fd ≡ o
put_at-same fd o m = rw (eq_int_refl fd) refl

pub put_at-other {ℓ} :
    {A : Type ℓ} (fd g : ℤ) (o : Option A) (m : ℤ → Option A) → fd ≢ g → put_at fd o m g ≡ m g
put_at-other fd g o m h = rw (eq_int_ne fd g h) refl

pub eq_int-eq : (i j : ℤ) → eq_int i j ≡ true → i ≡ j
eq_int-eq (pos m) (pos n) h = ap pos (ground (arith, h))
eq_int-eq (negsuc m) (negsuc n) h = ap negsuc (ground (arith, h))
eq_int-eq (pos m) (negsuc n) h = cc
eq_int-eq (negsuc m) (pos n) h = cc
