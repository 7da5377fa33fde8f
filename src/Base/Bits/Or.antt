-- ===== src/Base/Bits/Or.antt =====
-- `bit_or` digit by digit.
use relative_q.Base.{ℕ, zero, suc, ◌+◌, ◌*◌, ◌/◌, ◌%◌, ◌<◌, ◌≡◌, arith}
use Prim.Native.Nat.{bit_or, bit_or-bitwise, max}
use relative_q.Base.Bits.{digits_enough}

pub bit_or_halves : (a b : ℕ) → bit_or a b ≡ 2 * bit_or (a / 2) (b / 2) + max (a % 2) (b % 2)
bit_or_halves zero b = omega (arith, bit_or-bitwise 0 b, bit_or-bitwise (0 / 2) (b / 2))
bit_or_halves (suc a) b = omega (
  arith,
  bit_or-bitwise (suc a) b,
  bit_or-bitwise (suc a / 2) (b / 2),
  digits_enough (λ b. b) max a (suc a / 2) (suc a / 2) (b / 2) (omega arith) (omega arith),
)

max-lt : (x y n : ℕ) → x < n → y < n → max x y < n
max-lt x y n h k = omega arith

pub bit_or_half : (a b : ℕ) → bit_or a b / 2 ≡ bit_or (a / 2) (b / 2)
bit_or_half a b =
    let s = bit_or_halves a b in
    let l = max-lt (a % 2) (b % 2) 2 (omega arith) (omega arith) in omega arith

-- A number whose last digit is 0 comes from two whose last digit is 0.
pub bit_or_even : (a b : ℕ) → bit_or a b % 2 ≡ 0 → (a % 2 ≡ 0) × (b % 2 ≡ 0)
bit_or_even a b e =
    let s = bit_or_halves a b in
    let l = max-lt (a % 2) (b % 2) 2 (omega arith) (omega arith) in (omega arith, omega arith)
