-- ===== src/Base/Bits/Xor.antt =====
-- The laws of `bit_xor`.
use relative_q.Base.{
  ℕ, zero, suc, ◌+◌, ◌*◌, ◌/◌, ◌%◌, ◌≤◌, ◌<◌, ◌≡◌, refl, arith, ap, sym, ◌⊎◌, inl, inr,
}
use Prim.Native.Nat.{bit_xor, differ}
use relative_q.Base.Bits.{bit_xor_halves}

differ_zero : (x y : ℕ) → differ x y ≡ 0 → x ≡ y
differ_zero zero y h = sym h
differ_zero (suc x) zero h = h
differ_zero (suc x) (suc y) h = ap suc (differ_zero x y h)

bit-cases : (x : ℕ) → x < 2 → (x ≡ 0) ⊎ (x ≡ 1)
bit-cases zero h = inl refl
bit-cases (suc zero) h = inr refl
bit-cases (suc (suc x)) h = absurd (omega arith)

differ_back : (x y : ℕ) → x < 2 → y < 2 → (differ (differ x y) x ≡ y) × (differ x y < 2)
differ_back x y h k = elim (bit-cases x h) [
  | inl p ↦ elim (bit-cases y k) [
    | inl q ↦ rw (p, q) (refl, omega arith)
    | inr q ↦ rw (p, q) (refl, omega arith)
  ]
  | inr p ↦ elim (bit-cases y k) [
    | inl q ↦ rw (p, q) (refl, omega arith)
    | inr q ↦ rw (p, q) (refl, omega arith)
  ]
]

xor_zero_upto : (n a b : ℕ) → a ≤ n → b ≤ n → bit_xor a b ≡ 0 → a ≡ b
xor_zero_upto zero a b h k e = omega arith
xor_zero_upto (suc n) a b h k e =
    let s = bit_xor_halves a b in
    let d = differ_zero (a % 2) (b % 2) (omega arith) in
    let ih = xor_zero_upto n (a / 2) (b / 2) (omega arith) (omega arith) (omega arith) in
    omega arith

-- Only equal numbers have no differing digit.
pub bit_xor_zero : (a b : ℕ) → bit_xor a b ≡ 0 → a ≡ b
bit_xor_zero a b e = xor_zero_upto (a + b) a b (omega arith) (omega arith) e

xor_back_upto : (n a b : ℕ) → a ≤ n → b ≤ n → bit_xor (bit_xor a b) a ≡ b
xor_back_upto zero zero zero h k = refl
xor_back_upto zero (suc a) b h k = absurd (omega arith)
xor_back_upto zero zero (suc b) h k = absurd (omega arith)
xor_back_upto (suc n) a b h k =
    let x = bit_xor a b in
    let s = bit_xor_halves a b in
    let (back, lt) = differ_back (a % 2) (b % 2) (omega arith) (omega arith) in
    let half : x / 2 ≡ bit_xor (a / 2) (b / 2) = omega arith in
    let bit : x % 2 ≡ differ (a % 2) (b % 2) = omega arith in
    let t = bit_xor_halves x a in
    let ih = xor_back_upto n (a / 2) (b / 2) (omega arith) (omega arith) in
    let t' : bit_xor x a
        ≡ 2 * bit_xor (bit_xor (a / 2) (b / 2)) (a / 2) + differ (differ (a % 2) (b % 2)) (a % 2) =
      rw (half, bit) at t in
    omega (arith, t', ih, back)

pub bit_xor_back : (a b : ℕ) → bit_xor (bit_xor a b) a ≡ b
bit_xor_back a b = xor_back_upto (a + b) a b (omega arith) (omega arith)

differ_comm : (x y : ℕ) → differ x y ≡ differ y x
differ_comm zero zero = refl
differ_comm zero (suc y) = refl
differ_comm (suc x) zero = refl
differ_comm (suc x) (suc y) = differ_comm x y

xor_comm_upto : (n a b : ℕ) → a ≤ n → b ≤ n → bit_xor a b ≡ bit_xor b a
xor_comm_upto zero zero zero h k = refl
xor_comm_upto zero (suc a) b h k = absurd (omega arith)
xor_comm_upto zero zero (suc b) h k = absurd (omega arith)
xor_comm_upto (suc n) a b h k =
    let s = bit_xor_halves a b in
    let s' = bit_xor_halves b a in
    let d = differ_comm (a % 2) (b % 2) in
    let ih = xor_comm_upto n (a / 2) (b / 2) (omega arith) (omega arith) in omega arith

pub bit_xor_comm : (a b : ℕ) → bit_xor a b ≡ bit_xor b a
bit_xor_comm a b = xor_comm_upto (a + b) a b (omega arith) (omega arith)
