-- ===== src/Prelude/Integers.antt =====
-- Signed machine integers, without their bounds, and a code of two numbers for them.
use Prim.Native.Nat.{ℕ, zero, suc}
use mathlib.Core.Path.{◌≡◌, refl}

pub data ℤ : Type 0 where
  pos negsuc : ℕ → ℤ

abbrev pub sign_of : ℤ → ℕ
sign_of (pos n) = 0
sign_of (negsuc n) = 1

abbrev pub size_of : ℤ → ℕ
size_of (pos n) = n
size_of (negsuc n) = n

abbrev pub int_of : ℕ → ℕ → ℤ
int_of zero n = pos n
int_of (suc k) n = negsuc n

pub int_of-sign_of : (z : ℤ) → int_of (sign_of z) (size_of z) ≡ z
int_of-sign_of (pos n) = refl
int_of-sign_of (negsuc n) = refl
