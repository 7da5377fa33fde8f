-- ===== src/Tests/FlowCaches.antt =====
-- The flow cache of samples/fcache with two buckets and three entries, and its theorems there.
use relative_q.Base.{ℕ, Option, none, some, ◌+◌, ◌≤◌, arith, subst, sym, refl, false}
use Prim.Native.Nat.{bit_and}
use relative_q.Hash.Fingerprint.Zeroed.{zeroed}
use relative_q.FlowCache.{Store, Cache}
use relative_q.FlowCache.Entries.{init_store, flush, remove_idx}
use relative_q.FlowCache.Timeout.{update_eff_timeout, expire_before, init_thresholds, threshold64}
use relative_q.FlowCache.Maintain.{maintain, maintain_step}
use relative_q.FlowCache.Bulk.{Batch, findadd_bulk, find_bulk, del_bulk, add_bulk, del_idx_bulk}
use relative_q.FlowCache.Handle as Handle
use relative_q.FlowCache.Invariant.{IsStore}
use relative_q.FlowCache.FindAdd as FindAdd
use relative_q.FlowCache.FindAdd.{findadd_bulk-Adds}
use relative_q.FlowCache.AddBulk.{add_bulk-Adds}
use relative_q.FlowCache.FindBulk as FindBulk
use relative_q.FlowCache.FindBulk.{find_bulk-Finds}
use relative_q.FlowCache.DelBulk as DelBulk
use relative_q.FlowCache.DelBulk.{del_bulk-Deletes}
use relative_q.FlowCache.Delete as Delete
use relative_q.FlowCache.Delete.{del_idx_bulk-Deletes, remove_idx-Outcome}
use relative_q.FlowCache.Start.{IsEmpty, init_store-IsEmpty, flush-IsEmpty}
use relative_q.FlowCache.Evict.{IsEvicted}
use relative_q.FlowCache.Sweep.{maintain-IsEvicted, swept, visited}
use relative_q.FlowCache.Steps as Steps
use relative_q.FlowCache.Steps.{maintain_step-Sweeps}
use relative_q.FlowCache.Bounds.{eff_timeout-InRange}
use relative_q.Tests.Fingerprints.{ops, laws, any_ctx}

-- Memory that nobody has written yet.
abbrev memory : Store ℕ
memory = record {
  head = record { mask = 9; nb = 9 };
  fields = record { table = zeroed; hash_field = λ n. 9; slot_field = λ n. 9 };
  key = λ n. 9;
  last_ts = λ n. 9;
  free = (record { first = 9 }, λ n. 9);
  nb_bk = 9;
  max_entries = 9;
}

abbrev cache : Cache ℕ
cache = Handle.init 3 0 2 3 none memory

abbrev fresh_store : Store ℕ
fresh_store = init_store 0 2 3 memory

abbrev batch : Cache ℕ → Batch ℕ
batch fc = record {
  fc = fc;
  ctx = λ i. any_ctx;
  hashes = λ i. any_ctx.hash;
  results = λ i. 77;
  hit_count = 5;
  miss_count = 5;
}

abbrev keys : ℕ → ℕ
keys i = i + 40

init_store-IsEmpty_example : IsEmpty ops 1 laws 3 fresh_store
init_store-IsEmpty_example =
    init_store-IsEmpty ops 1 laws 2 (omega arith) (omega arith) refl 0 3 memory

fresh_store-IsStore : IsStore ops 1 laws 0 fresh_store
fresh_store-IsStore =
    (init_store-IsEmpty ops 1 laws 2 (omega arith) (omega arith) refl 0 3 memory).store

cache-IsStore : IsStore ops 1 laws 0 cache.store
unfolding Handle.init init_thresholds
cache-IsStore = fresh_store-IsStore

flush-IsEmpty_example : IsEmpty ops 1 laws 3 (flush fresh_store)
unfolding init_store
flush-IsEmpty_example = flush-IsEmpty ops 1 laws 2 (omega arith) (omega arith) refl fresh_store refl

findadd_bulk-Adds_example :
    FindAdd.Adds ops 1 laws 100 keys 2 (batch cache) (findadd_bulk ops keys 99 2 100 (batch cache))
findadd_bulk-Adds_example =
    findadd_bulk-Adds ops 1 laws 100 keys 99 2 (batch cache) (omega arith) (omega arith)
      (omega arith) cache-IsStore

-- The cache with the two keys in it.
abbrev or_batch : Option (Batch ℕ) → Batch ℕ
or_batch none = batch cache
or_batch (some b) = b

abbrev two_keys : Batch ℕ
two_keys = or_batch (findadd_bulk ops keys 99 2 100 (batch cache))

two_keys-IsStore : IsStore ops 1 laws 0 two_keys.fc.store
two_keys-IsStore =
    let (b, e, inv, live, kept) =
      findadd_bulk-Adds ops 1 laws 100 keys 99 2 (batch cache) (omega arith) (omega arith)
        (omega arith) cache-IsStore in
    subst (λ r. IsStore ops 1 laws 0 (or_batch r).fc.store) (sym e) inv

add_bulk-Adds_example :
    FindAdd.Adds ops 1 laws 100 keys 2 two_keys (add_bulk ops keys 35 2 100 two_keys)
add_bulk-Adds_example =
    add_bulk-Adds ops 1 laws 100 keys 35 2 two_keys (omega arith) (omega arith) two_keys-IsStore

find_bulk-Finds_example :
    FindBulk.Finds ops 1 laws keys 2 200 two_keys (find_bulk ops keys 99 2 200 two_keys)
find_bulk-Finds_example =
    find_bulk-Finds ops 1 laws keys 99 2 200 two_keys (omega arith) (omega arith) two_keys-IsStore

del_bulk-Deletes_example :
    DelBulk.Deletes ops 1 laws keys 1 two_keys (del_bulk ops keys 99 1 two_keys)
del_bulk-Deletes_example =
    del_bulk-Deletes ops 1 laws keys 99 1 two_keys (omega arith) (omega arith) two_keys-IsStore

del_idx_bulk-Deletes_example :
    Delete.Deletes ops 1 laws
      (λ i. i + 2)
      2
      two_keys.fc.store
      (del_idx_bulk ops (λ i. i + 2) 35 2 two_keys.fc.store)
del_idx_bulk-Deletes_example =
    del_idx_bulk-Deletes ops 1 laws (λ i. i + 2) 35 2 two_keys.fc.store (omega arith) (omega arith)
      two_keys-IsStore

remove_idx-Outcome_example :
    Delete.Outcome ops 1 laws 3 two_keys.fc.store two_keys-IsStore
      (remove_idx ops 3 two_keys.fc.store)
remove_idx-Outcome_example = remove_idx-Outcome ops 1 laws 3 two_keys.fc.store two_keys-IsStore

maintain-IsEvicted_example :
    IsEvicted ops 1 laws
      (swept ops 1 laws
        (visited ops 1 laws 2 (bit_and 1 1))
        (expire_before 2000000 (update_eff_timeout two_keys.fc))
        two_keys.fc.store)
      two_keys.fc.store
      ((maintain 1 2 2000000 two_keys.fc).1.store)
maintain-IsEvicted_example = maintain-IsEvicted ops 1 laws 1 2 2000000 two_keys.fc two_keys-IsStore

maintain_step-Sweeps_example :
    Steps.Sweeps ops 1 laws
      (expire_before 2000000 (update_eff_timeout cache))
      cache.store
      (maintain_step ops 3 2000000 false cache)
unfolding Handle.init init_thresholds init_store
maintain_step-Sweeps_example =
    maintain_step-Sweeps ops 1 laws 3 2000000 false cache (omega arith) cache-IsStore

-- A cache that is between its two thresholds.
abbrev half_full : Cache ℕ
half_full = record cache { store = record fresh_store { head = record { mask = 1; nb = 21 } } }

eff_timeout-InRange_example :
    (half_full.timeout_min_tsc ≤ (update_eff_timeout half_full).eff_timeout_tsc)
    × ((update_eff_timeout half_full).eff_timeout_tsc ≤ half_full.timeout_tsc)
unfolding Handle.init init_thresholds init_store threshold64 Handle.default_config
eff_timeout-InRange_example =
    eff_timeout-InRange half_full (omega arith) (omega arith) (omega arith) (omega arith)
      (omega arith) (omega arith)
