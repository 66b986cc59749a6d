-- ===== src/Base/Int.antt =====
-- Signed integers, and `int16_t` as its bit pattern.
use Prim.Native.Nat.{zero, suc, min, ◌/◌, ◌≤◌, digits, bit_and, bit_and-bitwise}
use Prim.Native.Nat.{ℕ, ◌-◌, ◌%◌, ◌^◌, ◌<◌}
use mathlib.Core.Path.{◌≡◌}
use native.Mathlib.Omega.{arith}
use mathlib.Core.Logic.{inl, inr}
use pcan_alterative.Base.Tests.{Bool-cases, ltb, if◌then◌else◌}

-- `negsuc n` is -(n + 1).
pub data ℤ : Type 0 where
  pos : ℕ → ℤ
  negsuc : ℕ → ℤ

-- `(uint16_t)x`
unfoldable pub to_u16 : ℤ → ℕ
to_u16 (pos n) = n % 2 ^ 16
to_u16 (negsuc n) = 2 ^ 16 - 1 - n % 2 ^ 16

-- `(int16_t)u` for a `uint16_t`
unfoldable pub to_i16 : ℕ → ℤ
to_i16 u = if ltb u (2 ^ 15) then pos u else negsuc (2 ^ 16 - 1 - u)

abbrev pub IsI16 : ℤ → Type 0
IsI16 (pos n) = n < 2 ^ 15
IsI16 (negsuc n) = n < 2 ^ 15

pub to_i16-to_u16 : (x : ℤ) → IsI16 x → to_i16 (to_u16 x) ≡ x
unfolding to_i16 to_u16
to_i16-to_u16 (pos n) h = ground arith
to_i16-to_u16 (negsuc n) h = ground arith

pub to_u16-to_i16 : (u : ℕ) → u < 2 ^ 16 → to_u16 (to_i16 u) ≡ u
unfolding to_i16 to_u16
to_u16-to_i16 u h = ground arith

pub to_u16-lt : (x : ℤ) → to_u16 x < 2 ^ 16
unfolding to_u16
to_u16-lt (pos n) = omega arith
to_u16-lt (negsuc n) = omega arith

pub to_i16-IsI16 : (u : ℕ) → u < 2 ^ 16 → IsI16 (to_i16 u)
unfolding to_i16
to_i16-IsI16 u h = elim (Bool-cases (ltb u (2 ^ 15))) [
  | inl low ↦ rw low (ground arith)
  | inr high ↦ rw high (ground arith)
]

digits-le : (n a b : ℕ) → digits (λ b. zero) min n a b ≤ b
digits-le zero a b = omega arith
digits-le (suc n) zero b = omega arith
digits-le (suc n) (suc a) b = omega (arith, digits-le n (suc a / 2) (b / 2))

pub bit_and-le : (a b : ℕ) → bit_and a b ≤ b
bit_and-le a b = rw (bit_and-bitwise a b) (digits-le a a b)
