-- ===== src/Hash/Sizing.antt =====
-- include/rix/rix_hash_common.h: the number of buckets for a number of entries.
pub mod Power
use Prim.Native.Nat.{bit_or}
use relative_q.Base.{ℕ, ◌+◌, ◌-◌, ◌/◌, ◌%◌, ◌^◌, if◌then◌else◌, ltb}

-- `n |= n >> k`, for `d` the power of 2 with exponent `k`.
unfoldable pub or_shift : ℕ → ℕ → ℕ
or_shift d n = bit_or n (n / d)

unfoldable pub nb_bk_hint : ℕ → ℕ
nb_bk_hint max_entries =
    let n = (max_entries + 7) % 2 ^ 32 / 8 in
    let n = if ltb n 2 then 2 else n in
    (or_shift 65536 (or_shift 256 (or_shift 16 (or_shift 4 (or_shift 2 (n - 1))))) + 1) % 2 ^ 32
