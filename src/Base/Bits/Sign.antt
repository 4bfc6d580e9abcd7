-- ===== src/Base/Bits/Sign.antt =====
-- The sign bit of a word of `suc n` bits, flipped by `^`: signed order becomes unsigned order.
use Prim.Native.Nat.{ℕ, zero, suc, ◌+◌, ◌-◌, ◌*◌, ◌/◌, ◌%◌, ◌^◌, ◌<◌, bit_xor}
use mathlib.Core.Path.{◌≡◌}
use native.Mathlib.Nat.{pow-suc}
use native.Mathlib.Omega.{arith}
use homemade_risc_v_64_vecto.Base.Tests.{ltb, if◌then◌else◌}
use homemade_risc_v_64_vecto.Base.Bits.Step.{bit_xor_step}

pub bit_xor_sign :
    (n x : ℕ) → x < 2 ^ suc n → bit_xor x (2 ^ n) ≡ (if ltb x (2 ^ n) then x + 2 ^ n else x - 2 ^ n)
bit_xor_sign zero x h = ground (arith, bit_xor_step x 1, bit_xor_step (x / 2) 0)
bit_xor_sign (suc n) x h =
    let e : 2 ^ suc n / 2 ≡ 2 ^ n = omega (arith, pow-suc 2 n) in
    let step : bit_xor x (2 ^ suc n) ≡ bit_xor (x / 2) (2 ^ n) * 2 + (x % 2 + 2 ^ suc n % 2) % 2 =
      rw (bit_xor_step x (2 ^ suc n), e) in
    ground (arith, step, pow-suc 2 n, pow-suc 2 (suc n), bit_xor_sign n (x / 2))
