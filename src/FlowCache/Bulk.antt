-- ===== src/FlowCache/Bulk.antt =====
-- samples/fcache/src/fc_cache_generate.h: the bulk operations. A batch is the cache with the
-- contexts or the hashes, the results and the counts of the call.
use relative_q.Base.{ℕ, ◌+◌, ◌%◌, ◌^◌, ◌==◌, if◌then◌else◌, ltb, Option, ◌*◌}
use mathlib.Core.Option
use relative_q.Hash.Arch.{Hash}
use relative_q.Hash.Fingerprint.{FpOps, FpCtx}
use relative_q.Hash.Fingerprint.SlotTable as SlotTable
use relative_q.Queue.Links.{update}
use relative_q.FlowCache.{Cache, Stats, Store}
use relative_q.FlowCache.Entries as Entries
use relative_q.FlowCache.Entries.{alloc_entry, free_entry, store_entry, reclaim_bucket, set_key}
use relative_q.FlowCache.Timeout.{update_eff_timeout, expire_before, relief_empty_slots}
use relative_q.FlowCache.Maintain.{add64, popcount}
use relative_q.FlowCache.Pipeline.{stage, rounds, ahead_keys}

pub record Batch (Key : Type 0) : Type 0 where
  pub fc : Cache Key
  pub ctx : ℕ → FpCtx Key
  pub hashes : ℕ → Hash
  pub results : ℕ → ℕ
  pub hit_count : ℕ
  pub miss_count : ℕ

abbrev pub put {ℓ} : {A : Type ℓ} → (ℕ → A) → ℕ → A → ℕ → A
put f n v m = if m == n then v else f m

module _ {Key : Type 0} where
  abbrev pub with_store : Cache Key → Store Key → Cache Key
  with_store fc st = record fc { store = st }

  -- `entry->last_ts = now`.
  unfoldable pub touch : ℕ → ℕ → Store Key → Store Key
  touch entry now st = record st { last_ts = update st.last_ts entry now }

  -- The counts of a batch go into the statistics when it ends.
  unfoldable pub count_lookups : ℕ → Batch Key → Batch Key
  count_lookups nb_keys b =
      let stats = b.fc.stats in
      record b {
        fc = record b.fc {
          stats = record stats {
            lookups = add64 stats.lookups nb_keys;
            hits = add64 stats.hits b.hit_count;
            misses = add64 stats.misses b.miss_count;
          };
        };
      }

  -- Before an insertion: an expired entry goes from the first bucket, or else from the second, if
  -- the bucket has few empty slots.
  unfoldable pub relief : FpCtx Key → ℕ → Cache Key → Cache Key
  relief ctx now fc =
      let empty_slots = relief_empty_slots fc in
      let stats : Stats = record fc.stats {
        relief_calls = add64 fc.stats.relief_calls 1;
        relief_bucket_checks = add64 fc.stats.relief_bucket_checks 1;
      } in
      let fc1 = update_eff_timeout (record fc { stats = stats }) in
      let (found, st) = reclaim_bucket ctx.bk0 (expire_before now fc1) fc1.store in
      let stats1 : Stats = record stats {
        relief_bucket_checks = add64 stats.relief_bucket_checks 1;
      } in
      let (found1, st1) = reclaim_bucket ctx.bk1 (expire_before now fc1) st in
      if fc.total_slots == 0
      then fc
      else if ltb empty_slots (popcount ctx.empties0)
      then record fc { stats = stats }
      else if found
      then record fc1 {
        store = st;
        stats = record stats {
          relief_evictions = add64 stats.relief_evictions 1;
          relief_bk0_evictions = add64 stats.relief_bk0_evictions 1;
        };
      }
      else if ltb empty_slots (popcount ctx.empties1)
      then record fc1 { store = st; stats = stats1 }
      else if ctx.bk1 == ctx.bk0
      then record fc1 { store = st; stats = stats1 }
      else if found1
      then record fc1 {
        store = st1;
        stats = record stats1 {
          relief_evictions = add64 stats1.relief_evictions 1;
          relief_bk1_evictions = add64 stats1.relief_bk1_evictions 1;
        };
      }
      else record fc1 { store = st1; stats = stats1 }

module _ {Key : Type 0} (ops : FpOps Key) where
  -- An entry of the free list for `key`: the result, and the cache.
  unfoldable pub fill : Hash → Key → ℕ → Cache Key → ℕ × Cache Key
  fill hash key now fc =
      let stats = fc.stats in
      let full : Stats = record stats { fill_full = add64 stats.fill_full 1 } in
      let (entry, st) = alloc_entry fc.store in
      let (ret, st1) = store_entry ops entry hash key now st in
      if entry == 0
      then (0, record fc { store = st; stats = full })
      else if ret == 0
      then (entry, record fc { store = st1; stats = record stats { fills = add64 stats.fills 1 } })
      else if ret == entry
      then (0, record fc { store = free_entry entry st1; stats = full })
      else (ret, record fc { store = touch ret now (free_entry entry st1) })

  module _ (keys : ℕ → Key) where
    unfoldable pub hash_stage : ℕ → Batch Key → Batch Key
    hash_stage i b =
        let c = SlotTable.hash_key_2bk ops b.fc.store.key b.fc.store.head (keys i) (b.ctx i) in
        record b { ctx = put b.ctx i c }

    unfoldable pub scan_stage : ℕ → Batch Key → Batch Key
    scan_stage i b =
        let c = SlotTable.scan_bk ops b.fc.store.key b.fc.store.fields.table (b.ctx i) in
        record b { ctx = put b.ctx i c }

    unfoldable pub empties_stage : ℕ → Batch Key → Batch Key
    empties_stage i b =
        let c = SlotTable.scan_bk_empties ops b.fc.store.key b.fc.store.fields.table (b.ctx i) in
        record b { ctx = put b.ctx i c }

    -- The last stage of `find_bulk`.
    unfoldable pub find_stage : ℕ → ℕ → Batch Key → Batch Key
    find_stage now i b =
        let entry = SlotTable.cmp_key ops b.fc.store.key b.fc.store.fields.table (b.ctx i) in
        let touched = if now == 0 then b.fc else with_store b.fc (touch entry now b.fc.store) in
        if entry == 0
        then record b { results = put b.results i 0; miss_count = add64 b.miss_count 1 }
        else record b {
          fc = touched;
          results = put b.results i entry;
          hit_count = add64 b.hit_count 1;
        }

    -- The last stage of `findadd_bulk`.
    unfoldable pub findadd_stage : ℕ → ℕ → Batch Key → Batch Key
    findadd_stage now i b =
        let (entry, c) =
          SlotTable.cmp_key_empties ops b.fc.store.key b.fc.store.fields.table (b.ctx i) in
        let (filled, fc) = fill c.hash (keys i) now (relief c now b.fc) in
        if entry == 0
        then record b {
          fc = fc;
          ctx = put b.ctx i c;
          results = put b.results i filled;
          miss_count = add64 b.miss_count 1;
        }
        else record b {
          fc = with_store b.fc (touch entry now b.fc.store);
          ctx = put b.ctx i c;
          results = put b.results i entry;
          hit_count = add64 b.hit_count 1;
        }

    unfoldable pub add_hash_stage : ℕ → Batch Key → Batch Key
    add_hash_stage i b = record b {
      hashes = put b.hashes i (ops.hash_fn (keys i) b.fc.store.head.mask);
    }

    -- The last stage of `add_bulk`.
    unfoldable pub add_stage : ℕ → ℕ → Batch Key → Batch Key
    add_stage now i b =
        let (filled, fc) = fill (b.hashes i) (keys i) now b.fc in
        record b { fc = fc; results = put b.results i filled }

    -- The last stage of `del_bulk`.
    unfoldable pub del_stage : ℕ → Batch Key → Batch Key
    del_stage i b =
        let st = b.fc.store in
        let entry = SlotTable.cmp_key ops st.key st.fields.table (b.ctx i) in
        let (n, h, f) = SlotTable.remove ops st.key entry st.head st.fields in
        if entry == 0 then b else record b {
          fc = with_store b.fc (free_entry entry (record st { head = h; fields = f }));
        }

    module _ (fuel nb_keys : ℕ) where
      abbrev pub total : ℕ
      total = (nb_keys + 3 * ahead_keys) % 2 ^ 32

      abbrev find_round : ℕ → ℕ → Batch Key → Batch Key
      find_round now i b =
          stage (find_stage now) (3 * ahead_keys) nb_keys i
            (stage scan_stage ahead_keys nb_keys i (stage hash_stage 0 nb_keys i b))

      unfoldable pub find_bulk : ℕ → Batch Key → Option (Batch Key)
      find_bulk now b =
          Option.map (count_lookups nb_keys)
            (rounds (find_round now) total fuel 0 (record b { hit_count = 0; miss_count = 0 }))

      abbrev findadd_round : ℕ → ℕ → Batch Key → Batch Key
      findadd_round now i b =
          stage (findadd_stage now) (3 * ahead_keys) nb_keys i
            (stage empties_stage ahead_keys nb_keys i (stage hash_stage 0 nb_keys i b))

      unfoldable pub findadd_bulk : ℕ → Batch Key → Option (Batch Key)
      findadd_bulk now b =
          Option.map (count_lookups nb_keys)
            (rounds (findadd_round now) total fuel 0 (record b { hit_count = 0; miss_count = 0 }))

      abbrev add_round : ℕ → ℕ → Batch Key → Batch Key
      add_round now i b =
          stage (add_stage now) ahead_keys nb_keys i (stage add_hash_stage 0 nb_keys i b)

      unfoldable pub add_bulk : ℕ → Batch Key → Option (Batch Key)
      add_bulk now b = rounds (add_round now) ((nb_keys + ahead_keys) % 2 ^ 32) fuel 0 b

      abbrev del_round : ℕ → Batch Key → Batch Key
      del_round i b =
          stage del_stage (3 * ahead_keys) nb_keys i
            (stage scan_stage ahead_keys nb_keys i (stage hash_stage 0 nb_keys i b))

      unfoldable pub del_bulk : Batch Key → Option (Batch Key)
      del_bulk b = rounds del_round total fuel 0 b

  -- `del_idx_bulk`, whose first stage only prefetches.
  abbrev del_idx_round : (ℕ → ℕ) → ℕ → ℕ → Store Key → Store Key
  del_idx_round idxs nb_idxs i st =
      stage (λ i st. Entries.del_idx ops (idxs i) st) ahead_keys nb_idxs i
        (stage (λ i st. st) 0 nb_idxs i st)

  unfoldable pub del_idx_bulk : (ℕ → ℕ) → ℕ → ℕ → Store Key → Option (Store Key)
  del_idx_bulk idxs fuel nb_idxs st =
      rounds (del_idx_round idxs nb_idxs) ((nb_idxs + ahead_keys) % 2 ^ 32) fuel 0 st
