-- ===== src/Hash/Arch/Generic.antt =====
-- include/rix/rix_hash_arch.h: the scalar handlers for machines without the instructions, except
-- the find for one 32-bit value.
use relative_q.Base.{
  ℕ, zero, suc, ◌+◌, ◌*◌, ◌/◌, ◌%◌, ◌^◌, ◌==◌, if◌then◌else◌, Option, none, some, List, [], ◌∷◌,
  ◌≡◌, refl, arith,
}
use Prim.Native.Nat.{bit_and, bit_xor}
use mathlib.Core.Option
use relative_q.Base.Bits.{bit_and-le}
use relative_q.Hash.Arch.{Hash, find_loop, find_u32x16_gen}

-- The product of two words of 32 bits.
abbrev mul32 : ℕ → ℕ → ℕ
mul32 a b = (a * b) % 2 ^ 32

-- The loop that moves the second hash off the bucket of the first.
unfoldable pub spread : ℕ → ℕ → ℕ → ℕ → ℕ → Option ℕ
spread zero mask bk0 h1 inc = none
spread (suc fuel) mask bk0 h1 inc =
    let rest = spread fuel mask bk0 (mul32 (bit_xor h1 inc) 2246822519) ((inc + 1) % 2 ^ 32) in
    if bit_and h1 mask == bk0 then rest else some h1

-- What the three functions end with.
unfoldable pub hash_pair : ℕ → ℕ → ℕ → ℕ → Option Hash
hash_pair fuel mask h0 h1 =
    Option.map (λ h. record { val0 = h0; val1 = h }) (spread fuel mask (bit_and h0 mask) h1 1)

unfoldable pub hash_u32_gen : ℕ → ℕ → ℕ → Option Hash
hash_u32_gen fuel key mask =
    let h0 = mul32 key 2654435761 in hash_pair fuel mask h0 (mul32 (bit_xor key h0) 2246822519)

unfoldable pub hash_u64_gen : ℕ → ℕ → ℕ → Option Hash
hash_u64_gen fuel key mask =
    let lo = key % 2 ^ 32 in
    let hi = (key / 2 ^ 32) % 2 ^ 32 in
    let h0 = mul32 (bit_xor lo (mul32 hi 2654435761)) 2246822519 in
    hash_pair fuel mask h0 (bit_xor (mul32 (bit_xor hi (mul32 lo 2246822519)) 2654435761) h0)

-- FNV-1a over the bytes.
unfoldable pub fnv : ℕ → List ℕ → ℕ
fnv h0 [] = h0
fnv h0 (p ∷ key) = fnv (mul32 (bit_xor h0 p) 16777619) key

unfoldable pub hash_bytes_gen : ℕ → List ℕ → ℕ → Option Hash
hash_bytes_gen fuel key mask =
    let h0 = fnv 2166136261 key in hash_pair fuel mask h0 (mul32 (bit_xor h0 1540483477) 2246822519)

-- The scan for two values, with `n` rounds left.
unfoldable pub find_2_loop : (ℕ → ℕ) → ℕ → ℕ → ℕ → ℕ → ℕ → ℕ → ℕ × ℕ
find_2_loop arr val0 val1 zero i m0 m1 = (m0, m1)
find_2_loop arr val0 val1 (suc n) i m0 m1 =
    let v = arr i in
    find_2_loop arr val0 val1 n (i + 1) (if v == val0 then m0 + 2 ^ i else m0)
      (if v == val1 then m1 + 2 ^ i else m1)

unfoldable pub find_u32x16_2_gen : (ℕ → ℕ) → ℕ → ℕ → ℕ × ℕ
find_u32x16_2_gen arr val0 val1 = find_2_loop arr val0 val1 16 0 0 0

find_2_loop-find_loop :
    (arr : ℕ → ℕ) (val0 val1 n i m0 m1 : ℕ)
    → find_2_loop arr val0 val1 n i m0 m1 ≡ (find_loop arr val0 n i m0, find_loop arr val1 n i m1)
unfolding find_2_loop find_loop
find_2_loop-find_loop arr val0 val1 zero i m0 m1 = refl
find_2_loop-find_loop arr val0 val1 (suc n) i m0 m1 =
    find_2_loop-find_loop arr val0 val1 n (i + 1) (if arr i == val0 then m0 + 2 ^ i else m0)
      (if arr i == val1 then m1 + 2 ^ i else m1)

-- One scan for two values gives the masks of the two scans.
pub find_u32x16_2_gen-find_u32x16_gen :
    (arr : ℕ → ℕ) (val0 val1 : ℕ)
    → find_u32x16_2_gen arr val0 val1 ≡ (find_u32x16_gen arr val0, find_u32x16_gen arr val1)
unfolding find_u32x16_2_gen find_u32x16_gen
find_u32x16_2_gen-find_u32x16_gen arr val0 val1 = find_2_loop-find_loop arr val0 val1 16 0 0 0

bit_and_zero : (a : ℕ) → bit_and a 0 ≡ 0
bit_and_zero a = omega (arith, bit_and-le a 0)

-- With one bucket the loop never leaves it.
spread_one_bucket : (fuel h1 inc : ℕ) → spread fuel 0 0 h1 inc ≡ none
unfolding spread
spread_one_bucket zero h1 inc = refl
spread_one_bucket (suc fuel) h1 inc =
    rw (bit_and_zero h1)
      (spread_one_bucket fuel (mul32 (bit_xor h1 inc) 2246822519) ((inc + 1) % 2 ^ 32))

hash_pair_one_bucket : (fuel h0 h1 : ℕ) → hash_pair fuel 0 h0 h1 ≡ none
unfolding hash_pair
hash_pair_one_bucket fuel h0 h1 = rw (bit_and_zero h0, spread_one_bucket fuel h1 1) refl

-- With mask 0, a table of one bucket, none of the three generic hash functions ever returns,
-- whatever the key.
pub hash_gen_one_bucket :
    (fuel key : ℕ) (bytes : List ℕ)
    → (hash_u32_gen fuel key 0 ≡ none)
      × (hash_u64_gen fuel key 0 ≡ none)
      × (hash_bytes_gen fuel bytes 0 ≡ none)
unfolding hash_u32_gen hash_u64_gen hash_bytes_gen
hash_gen_one_bucket fuel key bytes =
    (hash_pair_one_bucket fuel _ _, hash_pair_one_bucket fuel _ _, hash_pair_one_bucket fuel _ _)
