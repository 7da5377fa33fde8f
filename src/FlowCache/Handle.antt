-- ===== src/FlowCache/Handle.antt =====
-- samples/fcache/src/fc_cache_generate.h: `init` and `walk`, and the calls for one key of
-- samples/fcache/src/fc_dispatch.c.
use relative_q.Base.{
  ℕ, zero, suc, ◌+◌, ◌*◌, ◌%◌, ◌^◌, ◌==◌, if◌then◌else◌, true, false, Option, none, some,
}
use mathlib.Core.Option
use relative_q.Hash.Arch.{entry_sz}
use relative_q.Hash.Fingerprint.{FpOps}
use relative_q.FlowCache.{Cache, Stats, Store, Config}
use relative_q.FlowCache.Entries.{init_store}
use relative_q.FlowCache.Timeout.{init_thresholds}
use relative_q.FlowCache.Bulk.{Batch, find_bulk, findadd_bulk, add_bulk, del_bulk}

abbrev pub zero_stats : Stats
zero_stats = record {
  lookups = 0;
  hits = 0;
  misses = 0;
  fills = 0;
  fill_full = 0;
  relief_calls = 0;
  relief_bucket_checks = 0;
  relief_evictions = 0;
  relief_bk0_evictions = 0;
  relief_bk1_evictions = 0;
  maint_calls = 0;
  maint_bucket_checks = 0;
  maint_evictions = 0;
  maint_step_calls = 0;
  maint_step_skipped_bks = 0;
}

unfoldable pub default_config : ℕ → Config
default_config pressure = record {
  timeout_tsc = 1000000;
  pressure_empty_slots = pressure;
  maint_interval_tsc = 0;
  maint_base_bk = 0;
  maint_fill_threshold = 0;
}

module _ {Key : Type 0} where
  -- `was` is what the memory of the buckets and of the pool held before, and `zero_key` a key of
  -- zeroes.
  unfoldable pub init : ℕ → Key → ℕ → ℕ → Option Config → Store Key → Cache Key
  init pressure zero_key nb_bk max_entries config was =
      let cfg : Config = elim config [ some c ↦ c | none ↦ default_config pressure ] in
      init_thresholds (record {
        store = init_store zero_key nb_bk max_entries was;
        timeout_tsc = cfg.timeout_tsc;
        eff_timeout_tsc = if cfg.timeout_tsc == 0 then 1 else cfg.timeout_tsc;
        timeout_min_tsc = 0;
        total_slots = nb_bk * entry_sz % 2 ^ 32;
        pressure_empty_slots =
            if cfg.pressure_empty_slots == 0 then pressure else cfg.pressure_empty_slots;
        timeout_lo_entries = 0;
        timeout_hi_entries = 0;
        relief_mid_entries = 0;
        relief_hi_entries = 0;
        maint_cursor = 0;
        last_maint_tsc = 0;
        last_maint_fills = 0;
        maint_interval_tsc = cfg.maint_interval_tsc;
        maint_base_bk = if cfg.maint_base_bk == 0 then nb_bk else cfg.maint_base_bk;
        maint_fill_threshold = cfg.maint_fill_threshold;
        last_maint_start_bk = 0;
        last_maint_sweep_bk = 0;
        stats = zero_stats;
      })

  -- The loop of `walk`, with `n` entries left behind the first `i`; a negative result of the
  -- callback, which works on a state of its own, is `some`.
  unfoldable pub walk_loop {ℓ} :
      {A : Type ℓ} (cb : ℕ → A → A × Option ℕ) → ℕ → ℕ → Store Key → A → A × Option ℕ
  walk_loop cb zero i st a = (a, none)
  walk_loop cb (suc n) i st a =
      let (next, rc) = cb (i + 1) a in
      elim (st.last_ts (i + 1) == 0) [
        | true ↦ walk_loop cb n (i + 1) st a
        | false ↦ elim rc [ some r ↦ (next, some r) | none ↦ walk_loop cb n (i + 1) st next ]
      ]

  unfoldable pub walk {ℓ} : {A : Type ℓ} (cb : ℕ → A → A × Option ℕ) → Store Key → A → A × Option ℕ
  walk cb st a = walk_loop cb st.max_entries 0 st a

module _ {Key : Type 0} (ops : FpOps Key) (key : Key) (fuel : ℕ) where
  unfoldable pub find : ℕ → Batch Key → Option (Batch Key × ℕ)
  find now b =
      Option.map (λ (b : Batch Key). (b, b.results 0)) (find_bulk ops (λ i. key) fuel 1 now b)

  unfoldable pub findadd : ℕ → Batch Key → Option (Batch Key × ℕ)
  findadd now b =
      Option.map (λ (b : Batch Key). (b, b.results 0)) (findadd_bulk ops (λ i. key) fuel 1 now b)

  unfoldable pub add : ℕ → Batch Key → Option (Batch Key × ℕ)
  add now b =
      Option.map (λ (b : Batch Key). (b, b.results 0)) (add_bulk ops (λ i. key) fuel 1 now b)

  unfoldable pub del : Batch Key → Option (Batch Key)
  del b = del_bulk ops (λ i. key) fuel 1 b
