-- ===== src/FlowCache.antt =====
-- samples/fcache: the flow cache that fc_cache_generate.h writes for flow4.c, flow6.c and flowu.c.
-- Its storage is a slot hash table over a pool of entries, with an SLIST of the free ones.
pub mod Entries
pub mod Timeout
pub mod Maintain
pub mod Pipeline
pub mod Runs
pub mod Bulk
pub mod Handle
pub mod Invariant
pub mod Moves
pub mod Lend
pub mod Change
pub mod Scan
pub mod Evict
pub mod Fill
pub mod Relief
pub mod Lookup
pub mod Batches
pub mod FindAdd
pub mod Start
pub mod Sweep
pub mod Steps
pub mod Bounds
pub mod Delete
pub mod Fresh
pub mod FindBulk
pub mod DelBulk
pub mod AddBulk
use relative_q.Base.{ℕ}
use relative_q.Hash.Cuckoo.{Head}
use relative_q.Hash.Fingerprint.Fields.{Fields}
use relative_q.Queue.Slist.{Queue}

-- What the cache owns: `ht_head`, the buckets with `cur_hash` and `slot` of the entries, `key` and
-- `last_ts` of the entries, `free_head` with the `free_link` words, and the two sizes.
pub record Store (Key : Type 0) : Type 0 where
  pub head : Head
  pub fields : Fields
  pub key : ℕ → Key
  pub last_ts : ℕ → ℕ
  pub free : Queue
  pub nb_bk : ℕ
  pub max_entries : ℕ

-- `struct fc_flow4_config`.
pub record Config : Type 0 where
  pub timeout_tsc : ℕ
  pub pressure_empty_slots : ℕ
  pub maint_interval_tsc : ℕ
  pub maint_base_bk : ℕ
  pub maint_fill_threshold : ℕ

-- `struct fc_flow4_stats`.
pub record Stats : Type 0 where
  pub lookups : ℕ
  pub hits : ℕ
  pub misses : ℕ
  pub fills : ℕ
  pub fill_full : ℕ
  pub relief_calls : ℕ
  pub relief_bucket_checks : ℕ
  pub relief_evictions : ℕ
  pub relief_bk0_evictions : ℕ
  pub relief_bk1_evictions : ℕ
  pub maint_calls : ℕ
  pub maint_bucket_checks : ℕ
  pub maint_evictions : ℕ
  pub maint_step_calls : ℕ
  pub maint_step_skipped_bks : ℕ

-- `struct fc_flow4_cache`, its storage apart.
pub record Cache (Key : Type 0) : Type 0 where
  pub store : Store Key
  pub timeout_tsc : ℕ
  pub eff_timeout_tsc : ℕ
  pub timeout_min_tsc : ℕ
  pub total_slots : ℕ
  pub pressure_empty_slots : ℕ
  pub timeout_lo_entries : ℕ
  pub timeout_hi_entries : ℕ
  pub relief_mid_entries : ℕ
  pub relief_hi_entries : ℕ
  pub maint_cursor : ℕ
  pub last_maint_tsc : ℕ
  pub last_maint_fills : ℕ
  pub maint_interval_tsc : ℕ
  pub maint_base_bk : ℕ
  pub maint_fill_threshold : ℕ
  pub last_maint_start_bk : ℕ
  pub last_maint_sweep_bk : ℕ
  pub stats : Stats
