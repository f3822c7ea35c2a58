-- ===== src/Base/Bits.antt =====
-- A bound of `&`, from the recursion on binary digits that the operation stands for.
use Prim.Native.Nat.{ℕ, zero, suc, ◌/◌, ◌≤◌, min, bit_and, digits, bit_and-bitwise}
use mathlib.Core.Path.{◌≡◌}
use native.Mathlib.Omega.{arith}

-- Each digit of the result is at most the digit of the second number.
digits_bound : (rounds left right : ℕ) → digits (λ r. zero) min rounds left right ≤ right
digits_bound zero left right = omega arith
digits_bound (suc rounds) zero right = omega arith
digits_bound (suc rounds) (suc left) right =
    omega (arith, digits_bound rounds (suc left / 2) (right / 2))

pub bit_and-le : (left right : ℕ) → bit_and left right ≤ right
bit_and-le left right = omega (arith, bit_and-bitwise left right, digits_bound left left right)

pub bit_and-zero : (right : ℕ) → bit_and 0 right ≡ 0
bit_and-zero right = omega (arith, bit_and-bitwise 0 right)
