-- ===== src/FlowCache/Timeout.antt =====
-- samples/fcache/src/fc_cache_generate.h: the adaptive timeout and the thresholds.
use relative_q.Base.{ℕ, ◌+◌, ◌-◌, ◌*◌, ◌/◌, ◌%◌, ◌^◌, ◌==◌, if◌then◌else◌, ◌||◌, not, ltb}
use relative_q.FlowCache.{Cache}

module _ {Key : Type 0} where
  -- A timeout between the full one and the least, from how full the table is.
  unfoldable pub scaled_timeout : Cache Key → ℕ
  scaled_timeout fc =
      let live = fc.store.head.nb in
      let (lo, hi) : ℕ × ℕ = (fc.timeout_lo_entries, fc.timeout_hi_entries) in
      let span_tsc = (fc.timeout_tsc + (2 ^ 64 - fc.timeout_min_tsc)) % 2 ^ 64 in
      let shrink = ((live - lo) * span_tsc) % 2 ^ 64 / (hi - lo) in
      if not (ltb lo live)
      then fc.timeout_tsc
      else if not (ltb live hi)
      then fc.timeout_min_tsc
      else (fc.timeout_tsc + (2 ^ 64 - shrink)) % 2 ^ 64

  unfoldable pub eff_timeout : Cache Key → ℕ
  eff_timeout fc =
      if (fc.total_slots == 0) || (fc.timeout_tsc == 0)
      then fc.timeout_tsc
      else if scaled_timeout fc == 0
      then 1
      else scaled_timeout fc

  unfoldable pub update_eff_timeout : Cache Key → Cache Key
  update_eff_timeout fc = record fc { eff_timeout_tsc = eff_timeout fc }

  unfoldable pub relief_empty_slots : Cache Key → ℕ
  relief_empty_slots fc =
      let live = fc.store.head.nb in
      let empty_slots = fc.pressure_empty_slots in
      if not (ltb live fc.relief_hi_entries)
      then (if ltb empty_slots 3 then 3 else empty_slots)
      else if not (ltb live fc.relief_mid_entries)
      then (if ltb empty_slots 2 then 2 else empty_slots)
      else empty_slots

-- `>> 6` is a division by 64.
unfoldable pub threshold64 : ℕ → ℕ → ℕ
threshold64 total_slots parts64 = ((total_slots * parts64) % 2 ^ 64 / 64) % 2 ^ 32

module _ {Key : Type 0} where
  unfoldable pub init_thresholds : Cache Key → Cache Key
  init_thresholds fc = record fc {
    timeout_lo_entries = threshold64 fc.total_slots 38;
    timeout_hi_entries = threshold64 fc.total_slots 48;
    timeout_min_tsc = if fc.timeout_tsc / 8 == 0 then 1 else fc.timeout_tsc / 8;
    relief_mid_entries = threshold64 fc.total_slots 45;
    relief_hi_entries = threshold64 fc.total_slots 48;
  }

  -- `expire_before`, from the time and the timeout in force.
  unfoldable pub expire_before : ℕ → Cache Key → ℕ
  expire_before now fc = if ltb fc.eff_timeout_tsc now then now - fc.eff_timeout_tsc else 0
