-- ===== src/Base/Bits.antt =====
-- `bit_and` and `bit_xor` digit by digit.
pub mod Xor
pub mod Or
use Prim.Native.Nat.{
  ℕ, zero, suc, ◌+◌, ◌*◌, ◌/◌, ◌%◌, ◌≤◌, ◌<◌, ◌-◌, ◌^◌, bit_and, bit_xor, bit_and-bitwise,
  bit_xor-bitwise, digits, min, differ,
}
use mathlib.Core.Path.{◌≡◌, refl, ap, ◌∙◌}
use native.Mathlib.Omega.{arith}
use native.Mathlib.Numerals.{towards_suc}

min-le : (a b : ℕ) → min a b ≤ b
min-le zero b = omega arith
min-le (suc a) zero = omega arith
min-le (suc a) (suc b) = omega (arith, min-le a b)

digits-le : (n a b : ℕ) → digits (λ _. zero) min n a b ≤ b
digits-le zero a b = omega arith
digits-le (suc n) zero b = omega arith
digits-le (suc n) (suc a) b =
    let m = min-le (suc a % 2) (b % 2) in
    let ih = digits-le n (suc a / 2) (b / 2) in omega (arith, m, ih)

-- A number masked by another is at most that.
pub bit_and-le : (a b : ℕ) → bit_and a b ≤ b
bit_and-le a b = rw (bit_and-bitwise a b) (digits-le a a b)

-- Any count of digits that is enough gives the same.
pub digits_enough :
    (z : ℕ → ℕ) (f : ℕ → ℕ → ℕ) (n m a b : ℕ) → a ≤ n → a ≤ m → digits z f n a b ≡ digits z f m a b
digits_enough z f zero zero a b h k = refl
digits_enough z f zero (suc m) zero b h k = refl
digits_enough z f zero (suc m) (suc a) b h k = absurd (omega arith)
digits_enough z f (suc n) zero zero b h k = refl
digits_enough z f (suc n) zero (suc a) b h k = absurd (omega arith)
digits_enough z f (suc n) (suc m) zero b h k = refl
digits_enough z f (suc n) (suc m) (suc a) b h k =
    ap (λ (d : ℕ). d * 2 + f (suc a % 2) (b % 2))
      (digits_enough z f n m (suc a / 2) (b / 2) (omega arith) (omega arith))

pub bit_and_halves : (a b : ℕ) → bit_and a b ≡ 2 * bit_and (a / 2) (b / 2) + min (a % 2) (b % 2)
bit_and_halves zero b = omega (arith, bit_and-bitwise 0 b, bit_and-bitwise (0 / 2) (b / 2))
bit_and_halves (suc a) b = omega (
  arith,
  bit_and-bitwise (suc a) b,
  bit_and-bitwise (suc a / 2) (b / 2),
  digits_enough (λ _. zero) min a (suc a / 2) (suc a / 2) (b / 2) (omega arith) (omega arith),
)

pub bit_xor_halves : (a b : ℕ) → bit_xor a b ≡ 2 * bit_xor (a / 2) (b / 2) + differ (a % 2) (b % 2)
bit_xor_halves zero b = omega (arith, bit_xor-bitwise 0 b, bit_xor-bitwise (0 / 2) (b / 2))
bit_xor_halves (suc a) b = omega (
  arith,
  bit_xor-bitwise (suc a) b,
  bit_xor-bitwise (suc a / 2) (b / 2),
  digits_enough (λ b. b) differ a (suc a / 2) (suc a / 2) (b / 2) (omega arith) (omega arith),
)

min_self : (a : ℕ) → min a a ≡ a
min_self zero = refl
min_self (suc a) = omega (arith, min_self a)

bit_and_self : (n a : ℕ) → a ≤ n → bit_and a a ≡ a
bit_and_self n zero h = refl
bit_and_self zero (suc a) h = absurd (omega arith)
bit_and_self (suc n) (suc a) h =
    let s = bit_and_halves (suc a) (suc a) in
    let m = min_self (suc a % 2) in
    let ih = bit_and_self n (suc a / 2) (omega arith) in omega (arith, s, m, ih)

clear_odd : (b : ℕ) → bit_and (1 + 2 * b) (2 * b) ≡ 2 * b
clear_odd b =
    let s = bit_and_halves (1 + 2 * b) (2 * b) in
    let p : (1 + 2 * b) / 2 ≡ b = omega arith in
    let q : 2 * b / 2 ≡ b = omega arith in
    let r : 2 * b % 2 ≡ 0 = omega arith in
    let t : (1 + 2 * b) % 2 ≡ 1 = omega arith in
    let s' : bit_and (1 + 2 * b) (2 * b) ≡ 2 * bit_and b b + 0 = rw (p, q, r, t) at s in
    omega (arith, s', bit_and_self b b (omega arith))

clear_even : (v : ℕ) → 0 < v → bit_and (2 * v) (2 * v - 1) ≡ 2 * bit_and v (v - 1)
clear_even v h =
    let s = bit_and_halves (2 * v) (2 * v - 1) in
    let p : 2 * v / 2 ≡ v = omega arith in
    let q : (2 * v - 1) / 2 ≡ v - 1 = omega arith in
    let r : 2 * v % 2 ≡ 0 = omega arith in
    let s' : bit_and (2 * v) (2 * v - 1) ≡ 2 * bit_and v (v - 1) + min 0 ((2 * v - 1) % 2) =
      rw (p, q, r) at s in
    omega (arith, s')

pub power_add_one : (i : ℕ) → 2 ^ (i + 1) ≡ 2 * 2 ^ i
power_add_one i = simp towards_suc (omega arith)

pub power-pos : (i : ℕ) → 0 < 2 ^ i
power-pos zero = omega arith
power-pos (suc i) = omega (arith, power-pos i)

-- `w & (w - 1)` clears the lowest bit that is set.
pub clear_lowest :
    (i b : ℕ) → bit_and (2 ^ i * (1 + 2 * b)) (2 ^ i * (1 + 2 * b) - 1) ≡ 2 ^ (i + 1) * b
clear_lowest zero b =
    let p : 1 * (1 + 2 * b) ≡ 1 + 2 * b = omega arith in
    let q : 1 + 2 * b - 1 ≡ 2 * b = omega arith in rw (p, q) (clear_odd b)
clear_lowest (suc i) b =
    let v = 2 ^ i * (1 + 2 * b) in
    let e : 2 ^ suc i * (1 + 2 * b) ≡ 2 * v = grind arith in
    let pos : 0 < v = (let h = power-pos i in grind arith) in
    let f : 2 ^ (suc i + 1) * b ≡ 2 * (2 ^ (i + 1) * b) =
      (let p = power_add_one (suc i) in let q = power_add_one i in grind arith) in
    rw (e, f) (clear_even v pos ∙ ap (λ (x : ℕ). 2 * x) (clear_lowest i b))
