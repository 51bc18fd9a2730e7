-- ===== src/Prelude/Int.antt =====
-- Python's integers where a caller may pass a negative one. `negsuc n` is -(n + 1).
use Prim.Native.Nat.{ℕ}
use mathlib.Core.Path.{◌≡◌}
use mathlib.Core.Bool.{Bool, true, false}
use native.Mathlib.Omega.{arith}
use civic_loop.Prelude.Tests.{ltb, ◌==◌}

pub data ℤ : Type 0 where
  pos : ℕ → ℤ
  negsuc : ℕ → ℤ

abbrev pub int_eq : ℤ → ℤ → Bool
int_eq (pos a) (pos b) = a == b
int_eq (negsuc a) (negsuc b) = a == b
int_eq _ _ = false

-- `z > n`
abbrev pub exceeds : ℤ → ℕ → Bool
exceeds (pos a) n = ltb n a
exceeds (negsuc a) n = false

pub int_eq-eq : (a b : ℤ) → int_eq a b ≡ true → a ≡ b
int_eq-eq (pos a) (pos b) h = ground arith
int_eq-eq (negsuc a) (negsuc b) h = ground arith
int_eq-eq (pos a) (negsuc b) h = cc
int_eq-eq (negsuc a) (pos b) h = cc

pub int_eq_refl : (a : ℤ) → int_eq a a ≡ true
int_eq_refl (pos a) = ground arith
int_eq_refl (negsuc a) = ground arith
