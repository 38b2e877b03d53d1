-- ===== src/Base/Bits.antt =====
-- A bitwise conjunction never exceeds its mask; the lowest bit of a disjunction.
use Prim.Native.Nat.{
  ℕ, zero, suc, ◌/◌, ◌%◌, ◌≤◌, min, max, bit_and, bit_or, digits, bit_and-bitwise, bit_or-bitwise,
}
use mathlib.Core.Path.{◌≡◌, refl, ◌∙◌}
use mathlib.Core.Bool.{◌||◌}
use upg_vpp_tr.Base.Tests.{has}
use native.Mathlib.Omega.{arith}

digits-le : (n a b : ℕ) → digits (λ b. zero) min n a b ≤ b
digits-le zero a b = omega arith
digits-le (suc n) zero b = omega arith
digits-le (suc n) (suc a) b = omega (arith, digits-le n (suc a / 2) (b / 2))

pub bit_and-le : (a b : ℕ) → bit_and a b ≤ b
bit_and-le a b = omega (arith, bit_and-bitwise a b, digits-le a a b)

low_and : (x : ℕ) → bit_and x 1 ≡ x % 2
low_and zero = refl
low_and (suc x) = bit_and-bitwise (suc x) 1 ∙ omega (arith, digits-le x (suc x / 2) 0)

low_or : (a b : ℕ) → bit_or a b % 2 ≡ max (a % 2) (b % 2)
low_or zero b = omega (arith, bit_or-bitwise zero b)
low_or (suc a) b = omega (arith, bit_or-bitwise (suc a) b)

-- The flag of the lowest bit.
pub has_or : (a b : ℕ) → has (bit_or a b) 1 ≡ (has a 1 || has b 1)
has_or a b = ground (arith, low_and a, low_and b, low_and (bit_or a b), low_or a b)
