-- ===== src/Hash/Table64.antt =====
-- include/rix/rix_hash64.h: the table for 64-bit keys, which RIX_HASH64_GENERATE writes with the
-- text of the 32-bit one, the 64-bit scan on `key[]` and the 32-bit scan on `idx[]`.
pub mod Laws
use relative_q.Base.{ℕ, Option, List}
use relative_q.Hash.Arch.{Arch, follow_depth}
use relative_q.Hash.Cuckoo.{Head, Buckets, Scheme}
use relative_q.Hash.Cuckoo as Cuckoo
use relative_q.Hash.Cuckoo.Walk as CuckooWalk
use relative_q.Hash.KeyTable.{FindCtx, ops64, scheme}
use relative_q.Hash.KeyTable as KeyTable

module _ (arch : Arch) where
  -- Stage 1: the two buckets of the key.
  abbrev pub hash_key : Head → ℕ → FindCtx → FindCtx
  hash_key = KeyTable.hash_key (ops64 arch)

  abbrev pub scan_bk : Buckets → FindCtx → FindCtx
  scan_bk = KeyTable.scan_bk (ops64 arch)

  abbrev pub cmp_key : Buckets → FindCtx → ℕ
  cmp_key = KeyTable.cmp_key (ops64 arch)

  abbrev pub find : FindCtx → Head → Buckets → ℕ → ℕ
  find = KeyTable.find (ops64 arch)

  abbrev pub hash_key_n : Head → List ℕ → List FindCtx → List FindCtx
  hash_key_n = KeyTable.hash_key_n (ops64 arch)

  abbrev pub scan_bk_n : Buckets → List FindCtx → List FindCtx
  scan_bk_n = KeyTable.scan_bk_n (ops64 arch)

  abbrev pub cmp_key_n : Buckets → List FindCtx → List ℕ
  cmp_key_n = KeyTable.cmp_key_n (ops64 arch)

  module _ (invalid_key : ℕ) where
    abbrev pub init : ℕ → Buckets → Head × Buckets
    init = KeyTable.init (ops64 arch) invalid_key

    abbrev pub find_empty : ℕ → Buckets → Option ℕ
    find_empty = Cuckoo.find_empty (scheme (ops64 arch) invalid_key)

    abbrev pub flipflop : ℕ → ℕ → ℕ → Buckets → Option Buckets
    flipflop = Cuckoo.flipflop (scheme (ops64 arch) invalid_key)

    abbrev pub kickout : ℕ → ℕ → ℕ → Buckets → Buckets × Option ℕ
    kickout = Cuckoo.kickout (scheme (ops64 arch) invalid_key)

    abbrev pub insert : ℕ → ℕ → Head × Buckets → ℕ × Head × Buckets
    insert = KeyTable.insert (ops64 arch) invalid_key

    abbrev pub remove : ℕ → ℕ → Head × Buckets → ℕ × Head × Buckets
    remove = KeyTable.remove (ops64 arch) invalid_key

abbrev pub walk {ℓ} : {S : Type ℓ} (cb : S → ℕ → S × ℕ) (t : Buckets) → Head → S → S × ℕ
walk cb t h st = CuckooWalk.walk cb t h st
