-- ===== src/Hash/Arch.antt =====
-- include/rix/rix_hash_arch.h: what the hash tables take from the dispatch handle.
pub mod First
pub mod Generic
pub mod Hits
pub mod Stale
use relative_q.Base.{
  ℕ, zero, suc, ◌+◌, ◌/◌, ◌%◌, ◌^◌, ◌==◌, if◌then◌else◌, Option, none, some, ◌≡◌, List,
}

abbrev pub entry_sz : ℕ
entry_sz = 16

abbrev pub follow_depth : ℕ
follow_depth = 4

-- `union rix_hash_hash_u`, as its two halves.
pub record Hash : Type 0 where
  pub val0 : ℕ
  pub val1 : ℕ

-- `struct rix_hash_arch_s`: an array is a function from its index, a byte key a list.
pub record Arch : Type 0 where
  pub find_u32x16 : (ℕ → ℕ) → ℕ → ℕ
  pub find_u32x16_2 : (ℕ → ℕ) → ℕ → ℕ → ℕ × ℕ
  pub find_u64x16 : (ℕ → ℕ) → ℕ → ℕ
  pub hash_bytes : List ℕ → ℕ → Hash
  pub hash_u32 : ℕ → ℕ → Hash
  pub hash_u64 : ℕ → ℕ → Hash

-- The loop of `_rix_hash_find_u32x16_GEN` with `n` rounds left. Bit `i` is clear in the mask when
-- it is set, so that `|=` is an addition.
unfoldable pub find_loop : (ℕ → ℕ) → ℕ → ℕ → ℕ → ℕ → ℕ
find_loop arr val zero i mask = mask
find_loop arr val (suc n) i mask =
    find_loop arr val n (i + 1) (if arr i == val then mask + 2 ^ i else mask)

unfoldable pub find_u32x16_gen : (ℕ → ℕ) → ℕ → ℕ
find_u32x16_gen arr val = find_loop arr val entry_sz 0 0

-- `__builtin_ctz` of a 32-bit word that is not 0: the rounds left, and the word.
unfoldable pub ctz_loop : ℕ → ℕ → ℕ
ctz_loop zero w = 0
ctz_loop (suc n) w = if w % 2 == 1 then 0 else suc (ctz_loop n (w / 2))

unfoldable pub ctz : ℕ → ℕ
ctz w = ctz_loop 32 w

-- The same for 64-bit values.
unfoldable pub find_u64x16_gen : (ℕ → ℕ) → ℕ → ℕ
find_u64x16_gen arr val = find_loop arr val entry_sz 0 0

-- `hits = find(arr, val); if (hits) { slot = ctz(hits); ...`
unfoldable pub first_hit : ((ℕ → ℕ) → ℕ → ℕ) → (ℕ → ℕ) → ℕ → Option ℕ
first_hit find arr val = let hits = find arr val in if hits == 0 then none else some (ctz hits)

-- A scan that gives the mask of the generic one.
abbrev pub IsFind : ((ℕ → ℕ) → ℕ → ℕ) → Type 0
IsFind find = (arr : ℕ → ℕ) (val : ℕ) → find arr val ≡ find_u32x16_gen arr val

-- What every implementation of the find handlers promises.
pub record ArchLaws (arch : Arch) : Type 0 where
  pub find_u32x16_lem : IsFind arch.find_u32x16
  pub find_u32x16_2_lem :
      (arr : ℕ → ℕ) (val0 val1 : ℕ)
      → arch.find_u32x16_2 arr val0 val1 ≡ (find_u32x16_gen arr val0, find_u32x16_gen arr val1)
  pub find_u64x16_lem : (arr : ℕ → ℕ) (val : ℕ) → arch.find_u64x16 arr val ≡ find_u64x16_gen arr val
