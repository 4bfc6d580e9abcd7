-- ===== src/Base/Bits/Step.antt =====
-- One equation for the lowest digit of each bit operation. The native operations stand for
-- recursions on binary digits with fuel; here the fuel is dropped.
use Prim.Native.Nat.{
  ℕ, zero, suc, ◌+◌, ◌*◌, ◌/◌, ◌%◌, ◌≤◌, min, max, bit_and, bit_or, bit_xor, digits, bitwise,
  differ, ◌<◌,
}
use Prim.Native.Nat.{bit_and-bitwise, bit_or-bitwise, bit_xor-bitwise}
use mathlib.Core.Path.{◌≡◌, refl}
use native.Mathlib.Omega.{arith}

module _ (end : ℕ → ℕ) (op : ℕ → ℕ → ℕ) where
  -- With nothing left of the first number the rounds that are left do not matter.
  drained : (rounds b : ℕ) → digits end op rounds 0 b ≡ end b
  drained zero b = refl
  drained (suc rounds) b = refl

  -- Nor do they while there are at least as many as the first number says.
  any_rounds :
      (few b more a : ℕ) → a ≤ few → a ≤ more → digits end op more a b ≡ digits end op few a b
  any_rounds few b more zero low high = omega (arith, drained few b, drained more b)
  any_rounds zero b more (suc a) low high = elim low [ ]
  any_rounds (suc few) b zero (suc a) low high = elim high [ ]
  any_rounds (suc few) b (suc more) (suc a) low high =
      let half_few : suc a / 2 ≤ few = omega arith in
      let half_more : suc a / 2 ≤ more = omega arith in
      omega (arith, any_rounds few (b / 2) more (suc a / 2) half_few half_more)

  lowest_digit :
      (a b : ℕ)
      → op (suc a % 2) (b % 2) + 2 * bitwise end op (suc a / 2) (b / 2) ≡ bitwise end op (suc a) b
  lowest_digit a b =
      let half : suc a / 2 ≤ a = omega arith in
      omega (arith, any_rounds a (b / 2) (suc a / 2) (suc a / 2) half (omega arith))

pub bit_and_step : (a b : ℕ) → bit_and a b ≡ min (a % 2) (b % 2) + 2 * bit_and (a / 2) (b / 2)
bit_and_step zero b = simp bit_and-bitwise (omega arith)
bit_and_step (suc a) b = simp bit_and-bitwise (omega (arith, lowest_digit (λ y. 0) min a b))

pub bit_or_step : (a b : ℕ) → bit_or a b ≡ max (a % 2) (b % 2) + 2 * bit_or (a / 2) (b / 2)
bit_or_step zero b = simp bit_or-bitwise (omega arith)
bit_or_step (suc a) b = simp bit_or-bitwise (omega (arith, lowest_digit (λ y. y) max a b))

differ_digit : (x y : ℕ) → x < 2 → y < 2 → differ x y ≡ (x + y) % 2
differ_digit zero y p q = omega arith
differ_digit (suc x) zero p q = omega arith
differ_digit (suc zero) (suc zero) p q = refl
differ_digit (suc zero) (suc (suc y)) p q = absurd (omega arith)
differ_digit (suc (suc x)) (suc y) p q = absurd (omega arith)

bit_xor-differ : (a b : ℕ) → bit_xor a b ≡ bit_xor (a / 2) (b / 2) * 2 + differ (a % 2) (b % 2)
bit_xor-differ zero b = simp bit_xor-bitwise (omega arith)
bit_xor-differ (suc a) b = simp bit_xor-bitwise (omega (arith, lowest_digit (λ y. y) differ a b))

pub bit_xor_step : (a b : ℕ) → bit_xor a b ≡ bit_xor (a / 2) (b / 2) * 2 + (a % 2 + b % 2) % 2
bit_xor_step a b =
    omega (arith, bit_xor-differ a b, differ_digit (a % 2) (b % 2) (omega arith) (omega arith))
