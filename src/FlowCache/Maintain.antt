-- ===== src/FlowCache/Maintain.antt =====
-- samples/fcache/src/fc_cache_generate.h: the sweeps that take expired entries out.
use Prim.Native.Nat.{bit_and}
use relative_q.Base.{
  ℕ, zero, suc, ◌+◌, ◌-◌, ◌*◌, ◌/◌, ◌%◌, ◌^◌, ◌==◌, if◌then◌else◌, not, Bool, true, false, ltb,
  Option, none, some, List, [], ◌∷◌, length,
}
use relative_q.Hash.Fingerprint.{FpOps}
use relative_q.FlowCache.{Cache, Stats}
use relative_q.FlowCache.Entries.{reclaim_bucket_all}
use relative_q.FlowCache.Timeout.{update_eff_timeout, expire_before}

-- `+=` of a 64-bit counter.
unfoldable pub add64 : ℕ → ℕ → ℕ
add64 a b = (a + b) % 2 ^ 64

-- `__builtin_popcount`, with `n` bits left.
unfoldable pub popcount_loop : ℕ → ℕ → ℕ
popcount_loop zero w = 0
popcount_loop (suc n) w = w % 2 + popcount_loop n (w / 2)

unfoldable pub popcount : ℕ → ℕ
popcount w = popcount_loop 32 w

module _ {Key : Type 0} where
  -- A bucket of a sweep, with the entries evicted so far.
  unfoldable pub reclaim_counted : ℕ → ℕ → ℕ × Cache Key → ℕ × Cache Key
  reclaim_counted bk expire_before (evicted, fc) =
      let (expired, st) = reclaim_bucket_all bk expire_before fc.store in
      let stats = fc.stats in
      (
        (evicted + length expired) % 2 ^ 32,
        record fc {
          store = st;
          stats = record stats { maint_evictions = add64 stats.maint_evictions (length expired) };
        },
      )

  abbrev pub check_bucket : Cache Key → Cache Key
  check_bucket fc =
      let stats = fc.stats in
      record fc { stats = record stats { maint_bucket_checks = add64 stats.maint_bucket_checks 1 } }

  unfoldable pub maintain_loop : ℕ → ℕ → ℕ → ℕ × Cache Key → ℕ × Cache Key
  maintain_loop zero next_bk expire_before s = s
  maintain_loop (suc n) next_bk expire_before (evicted, fc) =
      maintain_loop n (bit_and ((next_bk + 1) % 2 ^ 32) fc.store.head.mask) expire_before
        (reclaim_counted next_bk expire_before (evicted, check_bucket fc))

  unfoldable pub maintain_grouped : ℕ → ℕ → ℕ → Cache Key → ℕ × Cache Key
  maintain_grouped start_bk bucket_count now fc =
      maintain_loop bucket_count (bit_and start_bk fc.store.head.mask) (expire_before now fc)
        (0, fc)

  unfoldable pub maintain : ℕ → ℕ → ℕ → Cache Key → ℕ × Cache Key
  maintain start_bk bucket_count now fc =
      let stats = fc.stats in
      let counted : Cache Key = record fc {
        stats = record stats { maint_calls = add64 stats.maint_calls 1 };
      } in
      maintain_grouped start_bk bucket_count now (update_eff_timeout counted)

module _ {Key : Type 0} (ops : FpOps Key) where
  unfoldable pub bucket_used_slots : (ℕ → ℕ) → ℕ
  bucket_used_slots idx = (16 + (2 ^ 32 - popcount (ops.find idx 0))) % 2 ^ 32

  -- The first pass: the buckets that are full enough, and the counters.
  unfoldable pub filter_loop : ℕ → ℕ → ℕ → Cache Key → List ℕ × Cache Key
  filter_loop zero scan_bk skip_threshold fc = ([], fc)
  filter_loop (suc n) scan_bk skip_threshold fc =
      let sparse =
        not (ltb skip_threshold (bucket_used_slots (fc.store.fields.table.idx scan_bk))) in
      let checked = check_bucket fc in
      let stats = checked.stats in
      let counted : Stats =
        if sparse
        then record stats { maint_step_skipped_bks = add64 stats.maint_step_skipped_bks 1 }
        else stats in
      let (work, after) =
        filter_loop n (bit_and ((scan_bk + 1) % 2 ^ 32) fc.store.head.mask) skip_threshold
          (record checked { stats = counted }) in
      (if sparse then work else scan_bk ∷ work, after)

  -- The second pass.
  unfoldable pub reclaim_loop : List ℕ → ℕ → ℕ × Cache Key → ℕ × Cache Key
  reclaim_loop [] expire_before s = s
  reclaim_loop (bk ∷ work) expire_before s =
      reclaim_loop work expire_before (reclaim_counted bk expire_before s)

  unfoldable pub maintain_step_filter_reclaim : ℕ → ℕ → ℕ → ℕ → Cache Key → ℕ × Cache Key
  maintain_step_filter_reclaim start_bk bucket_count expire_before skip_threshold fc =
      let (work, counted) = filter_loop bucket_count start_bk skip_threshold fc in
      reclaim_loop work expire_before (0, counted)

  -- The loop over chunks of at most 256 buckets; `none` when the fuel is out.
  unfoldable pub chunk_loop : ℕ → ℕ → ℕ → ℕ → ℕ → ℕ × Cache Key → Option (ℕ × ℕ × Cache Key)
  chunk_loop zero cur_bk bucket_count expire_before skip_threshold (evicted, fc) = none
  chunk_loop (suc fuel) cur_bk bucket_count expire_before skip_threshold (evicted, fc) =
      let chunk = if ltb 256 bucket_count then 256 else bucket_count in
      let (more, after) =
        maintain_step_filter_reclaim cur_bk chunk expire_before skip_threshold fc in
      elim (ltb 0 bucket_count) [
        | true ↦
            chunk_loop fuel (bit_and ((cur_bk + chunk) % 2 ^ 32) fc.store.head.mask)
              (bucket_count - chunk) expire_before skip_threshold ((evicted + more) % 2 ^ 32, after)
        | false ↦ some (cur_bk, evicted, fc)
      ]

  unfoldable pub maintain_step_grouped : ℕ → ℕ → ℕ → ℕ → Cache Key → Option (ℕ × Cache Key)
  maintain_step_grouped fuel bucket_count now skip_threshold fc =
      let swept = if ltb fc.store.nb_bk bucket_count then fc.store.nb_bk else bucket_count in
      let start_bk = bit_and fc.maint_cursor fc.store.head.mask in
      elim (chunk_loop fuel start_bk swept (expire_before now fc) skip_threshold (0, fc)) [
        | none ↦ none
        | some (cur_bk, evicted, after) ↦ some (
          evicted,
          record after {
            maint_cursor = cur_bk;
            last_maint_start_bk = start_bk;
            last_maint_sweep_bk = swept;
          },
        )
      ]

  unfoldable pub maintain_step_ex : ℕ → ℕ → ℕ → ℕ → ℕ → Cache Key → Option (ℕ × Cache Key)
  maintain_step_ex fuel start_bk bucket_count skip_threshold now fc =
      let stats = fc.stats in
      let counted : Cache Key = record fc {
        stats = record stats {
          maint_step_calls = add64 stats.maint_step_calls 1;
          maint_calls = add64 stats.maint_calls 1;
        };
        eff_timeout_tsc = (update_eff_timeout fc).eff_timeout_tsc;
        maint_cursor = bit_and start_bk fc.store.head.mask;
      } in
      maintain_step_grouped fuel bucket_count now skip_threshold counted

  -- How often the base sweep is due, by the time that has passed and by the entries added.
  unfoldable pub sweep_scale : ℕ → Cache Key → ℕ
  sweep_scale now fc =
      let elapsed = (now + (2 ^ 64 - fc.last_maint_tsc)) % 2 ^ 64 in
      let added = (fc.stats.fills + (2 ^ 64 - fc.last_maint_fills)) % 2 ^ 64 in
      let time_scale =
        if fc.maint_interval_tsc == 0 then 1 else elapsed / fc.maint_interval_tsc % 2 ^ 32 in
      let entry_scale =
        if fc.maint_fill_threshold == 0 then 0 else added / fc.maint_fill_threshold % 2 ^ 32 in
      if ltb entry_scale time_scale then time_scale else entry_scale

  -- The sweep that `maintain_step` has decided on.
  unfoldable pub start_sweep : ℕ → ℕ → ℕ → ℕ → Cache Key → Option (ℕ × Cache Key)
  start_sweep fuel sweep skip_threshold now fc =
      let stats = fc.stats in
      let counted : Cache Key = record fc {
        last_maint_tsc = now;
        last_maint_fills = stats.fills;
        stats = record stats { maint_calls = add64 stats.maint_calls 1 };
      } in
      maintain_step_grouped fuel sweep now skip_threshold (update_eff_timeout counted)

  unfoldable pub maintain_step : ℕ → ℕ → Bool → Cache Key → Option (ℕ × Cache Key)
  maintain_step fuel now idle fc =
      let stats = fc.stats in
      let called : Cache Key = record fc {
        stats = record stats { maint_step_calls = add64 stats.maint_step_calls 1 };
      } in
      let scale = sweep_scale now fc in
      let sweep = fc.maint_base_bk * scale % 2 ^ 32 in
      elim idle [
        | true ↦ start_sweep fuel fc.store.nb_bk 0 now called
        | false ↦ elim (scale == 0) [
          | true ↦ some (0, called)
          | false ↦
              start_sweep fuel (if ltb fc.store.nb_bk sweep then fc.store.nb_bk else sweep)
                fc.pressure_empty_slots now called
        ]
      ]
