-- ===== src/FlowCache/Steps.antt =====
-- samples/fcache/src/fc_cache_generate.h: `maintain_step`, which ends and takes out entries that
-- have expired only.
use relative_q.Base.{
  ◌*◌, ℕ, zero, suc, ◌≡◌, ◌≤◌, ◌<◌, ◌+◌, ◌-◌, ◌^◌, ◌%◌, sym, subst, inl, inr, refl, true, false,
  Bool-cases, ◌==◌, ==_iff, arith, List, [], ◌∷◌, ltb, not, ◌&&◌, if◌then◌else◌, if-elim, Option,
  some, ◌∈◌, mem_self, Bool,
}
use Prim.Native.Nat.{bit_and}
use relative_q.Base.Bits.{bit_and-le}
use relative_q.Hash.Fingerprint.{FpOps}
use relative_q.Hash.Fingerprint.Laws.{FpLaws}
use relative_q.FlowCache.{Store, Cache, Stats}
use relative_q.FlowCache.Timeout.{update_eff_timeout, expire_before, eff_timeout, scaled_timeout}
use relative_q.FlowCache.Maintain.{
  maintain_step_grouped, start_sweep, maintain_step, sweep_scale, add64, check_bucket,
  reclaim_counted, filter_loop, reclaim_loop, bucket_used_slots, maintain_step_filter_reclaim,
  chunk_loop, maintain_step, maintain_step_grouped, start_sweep,
}
use relative_q.FlowCache.Invariant.{IsStore}
use relative_q.FlowCache.Evict.{is_expired, reclaim_bucket_all-IsEvicted}
use relative_q.FlowCache.Relief.{IsRelieved, IsRelieved-refl, IsRelieved-trans}

module _ {Key : Type 0} (ops : FpOps Key) (mask : ℕ) (laws : FpLaws ops mask) (eb : ℕ) where
  abbrev Relieved : Store Key → Store Key → Type 0
  Relieved a b = IsRelieved ops mask laws eb a b

  counted-IsRelieved :
      (bk evicted : ℕ) (fc : Cache Key)
      → IsStore ops mask laws 0 fc.store
      → bk ≤ mask
      → Relieved fc.store ((reclaim_counted bk eb (evicted, fc)).1.store)
  unfolding reclaim_counted
  counted-IsRelieved bk evicted fc inv l = record {
    gone = λ b s. (b == bk) && is_expired eb fc.store b s;
    evicted = reclaim_bucket_all-IsEvicted ops mask laws fc.store inv bk eb l;
    older = λ b s r o e. ground arith;
  }

  -- The first pass writes counters only, and gives buckets of the table.
  filter_loop-store :
      (n bk skip : ℕ) (fc : Cache Key)
      → fc.store.head.mask ≡ mask
      → bk ≤ mask
      → ((filter_loop ops n bk skip fc).1.store ≡ fc.store)
        × ((x : ℕ) → x ∈ (filter_loop ops n bk skip fc).0 → x ≤ mask)
  unfolding filter_loop
  filter_loop-store zero bk skip fc em l = (refl, λ x i. cc)
  filter_loop-store (suc n) bk skip fc em l =
      let sparse = not (ltb skip (bucket_used_slots ops (fc.store.fields.table.idx bk))) in
      let next = bit_and ((bk + 1) % 2 ^ 32) fc.store.head.mask in
      let stats = (check_bucket fc).stats in
      let counted : Stats =
        if sparse
        then record stats { maint_step_skipped_bks = add64 stats.maint_step_skipped_bks 1 }
        else stats in
      let (e, below) =
        filter_loop-store n next skip (record (check_bucket fc) { stats = counted }) em
          (subst (λ m. next ≤ m) em (bit_and-le _ _)) in
      (
        e,
        if-elim (λ (work : List ℕ). (x : ℕ) → x ∈ work → x ≤ mask) sparse below
            (λ x i. elim (Bool-cases (x == bk)) [
              | inl q ↦ subst (λ y. y ≤ mask) (sym ((==_iff x bk).0 q)) l
              | inr q ↦ below x (rw q at i)
            ]),
      )

  reclaim_loop-IsRelieved :
      (work : List ℕ) (evicted : ℕ) (fc : Cache Key)
      → IsStore ops mask laws 0 fc.store
      → ((x : ℕ) → x ∈ work → x ≤ mask)
      → Relieved fc.store ((reclaim_loop ops work eb (evicted, fc)).1.store)
  unfolding reclaim_loop
  reclaim_loop-IsRelieved [] evicted fc inv below = IsRelieved-refl ops mask laws eb fc.store inv
  reclaim_loop-IsRelieved (bk ∷ work) evicted fc inv below =
      let one = counted-IsRelieved bk evicted fc inv (below bk (mem_self bk work)) in
      let mid = reclaim_counted bk eb (evicted, fc) in
      IsRelieved-trans ops mask laws eb fc.store (mid.1.store) _ one (
        reclaim_loop-IsRelieved work (mid.0) (mid.1) one.evicted.store
          (λ x i. below x (ground arith)))

  filter_reclaim-IsRelieved :
      (start n skip : ℕ) (fc : Cache Key)
      → IsStore ops mask laws 0 fc.store
      → start ≤ mask
      → Relieved fc.store ((maintain_step_filter_reclaim ops start n eb skip fc).1.store)
  unfolding maintain_step_filter_reclaim
  filter_reclaim-IsRelieved start n skip fc inv l =
      let (e, below) = filter_loop-store n start skip fc inv.mask_lem l in
      let r = filter_loop ops n start skip fc in
      subst (λ (st : Store Key). Relieved st ((reclaim_loop ops (r.0) eb (0, r.1)).1.store)) e
        (reclaim_loop-IsRelieved (r.0) 0 (r.1) (subst (IsStore ops mask laws 0) (sym e) inv) below)

  abbrev Swept : Cache Key → Option (ℕ × ℕ × Cache Key) → Type 0
  Swept fc r = (q : ℕ × ℕ × Cache Key) × (r ≡ some q) × Relieved fc.store (q.2.store)

  chunk_true :
      (fuel cur n skip evicted : ℕ) (fc : Cache Key)
      → ltb 0 n ≡ true
      → (let chunk = if ltb 256 n then 256 else n in
          let r = maintain_step_filter_reclaim ops cur chunk eb skip fc in
          chunk_loop ops (suc fuel) cur n eb skip (evicted, fc)
          ≡ chunk_loop ops fuel
              (bit_and ((cur + chunk) % 2 ^ 32) fc.store.head.mask)
              (n - chunk)
              eb
              skip
              ((evicted + r.0) % 2 ^ 32, r.1))
  unfolding chunk_loop
  chunk_true fuel cur n skip evicted fc e = rw (chunk_loop, e) refl

  chunk_false :
      (fuel cur n skip evicted : ℕ) (fc : Cache Key)
      → ltb 0 n ≡ false
      → chunk_loop ops (suc fuel) cur n eb skip (evicted, fc) ≡ some (cur, evicted, fc)
  unfolding chunk_loop
  chunk_false fuel cur n skip evicted fc e = rw (chunk_loop, e) refl

  chunk_loop-Swept :
      (fuel cur n skip evicted : ℕ) (fc : Cache Key)
      → n < fuel
      → IsStore ops mask laws 0 fc.store
      → cur ≤ mask
      → Swept fc (chunk_loop ops fuel cur n eb skip (evicted, fc))
  chunk_loop-Swept zero cur n skip evicted fc f inv l = absurd (omega arith)
  chunk_loop-Swept (suc fuel) cur n skip evicted fc f inv l = elim (Bool-cases (ltb 0 n)) [
    | inr e ↦
        subst (Swept fc) (sym (chunk_false fuel cur n skip evicted fc e))
          ((cur, evicted, fc), refl, IsRelieved-refl ops mask laws eb fc.store inv)
    | inl e ↦
        let chunk = if ltb 256 n then 256 else n in
        let r = maintain_step_filter_reclaim ops cur chunk eb skip fc in
        let one = filter_reclaim-IsRelieved cur chunk skip fc inv l in
        let next = bit_and ((cur + chunk) % 2 ^ 32) fc.store.head.mask in
        let (q, e', rest) =
          chunk_loop-Swept fuel next (n - chunk) skip ((evicted + r.0) % 2 ^ 32) (r.1)
            (ground arith) one.evicted.store
            (subst (λ m. next ≤ m) inv.mask_lem (bit_and-le _ _)) in
        subst (Swept fc) (sym (chunk_true fuel cur n skip evicted fc e))
          (q, e', IsRelieved-trans ops mask laws eb fc.store (r.1.store) (q.2.store) one rest)
  ]

module _ {Key : Type 0} (ops : FpOps Key) (mask : ℕ) (laws : FpLaws ops mask) where
  -- A sweep ends, and the entries that have gone had expired.
  abbrev pub Sweeps : ℕ → Store Key → Option (ℕ × Cache Key) → Type 0
  Sweeps eb st r = (q : ℕ × Cache Key) × (r ≡ some q) × IsRelieved ops mask laws eb st (q.1.store)

  grouped-Sweeps :
      (fuel n now skip : ℕ) (fc : Cache Key)
      → fc.store.nb_bk < fuel
      → IsStore ops mask laws 0 fc.store
      → Sweeps (expire_before now fc) fc.store (maintain_step_grouped ops fuel n now skip fc)
  unfolding maintain_step_grouped
  grouped-Sweeps fuel n now skip fc f inv =
      let swept = if ltb fc.store.nb_bk n then fc.store.nb_bk else n in
      let start = bit_and fc.maint_cursor fc.store.head.mask in
      let eb = expire_before now fc in
      let (q, e, p) =
        chunk_loop-Swept ops mask laws eb fuel start swept skip 0 fc (ground arith) inv
          (subst (λ m. start ≤ m) inv.mask_lem (bit_and-le _ _)) in
      rw (maintain_step_grouped, e) ((_, _), refl, p)

  started-Sweeps :
      (fuel n skip now : ℕ) (fc : Cache Key)
      → fc.store.nb_bk < fuel
      → IsStore ops mask laws 0 fc.store
      → Sweeps
          (expire_before now (update_eff_timeout fc))
          fc.store
          (start_sweep ops fuel n skip now fc)
  unfolding start_sweep update_eff_timeout eff_timeout scaled_timeout expire_before
  started-Sweeps fuel n skip now fc f inv =
      let stats = fc.stats in
      let counted : Cache Key = record fc {
        last_maint_tsc = now;
        last_maint_fills = stats.fills;
        stats = record stats { maint_calls = add64 stats.maint_calls 1 };
      } in
      grouped-Sweeps fuel n now skip (update_eff_timeout counted) f inv

  abbrev called : Cache Key → Cache Key
  called fc =
      let stats = fc.stats in
      record fc { stats = record stats { maint_step_calls = add64 stats.maint_step_calls 1 } }

  -- `maintain_step` on storage that keeps its promises, with more fuel than buckets, ends; the
  -- storage keeps its promises, and the entries that have gone were last used before the time less
  -- the timeout that is computed at the start.
  pub maintain_step-Sweeps :
      (fuel now : ℕ) (idle : Bool) (fc : Cache Key)
      → fc.store.nb_bk < fuel
      → IsStore ops mask laws 0 fc.store
      → Sweeps
          (expire_before now (update_eff_timeout fc))
          fc.store
          (maintain_step ops fuel now idle fc)
  unfolding maintain_step start_sweep update_eff_timeout eff_timeout scaled_timeout expire_before
  maintain_step-Sweeps fuel now true fc f inv =
      started-Sweeps fuel fc.store.nb_bk 0 now (called fc) f inv
  maintain_step-Sweeps fuel now false fc f inv =
      let sweep = fc.maint_base_bk * sweep_scale ops now fc % 2 ^ 32 in
      elim (Bool-cases (sweep_scale ops now fc == 0)) [
        | inl e ↦
            rw (maintain_step, e)
              ((0, called fc), refl, IsRelieved-refl ops mask laws _ fc.store inv)
        | inr e ↦
            rw (maintain_step, e)
              (started-Sweeps fuel (if ltb fc.store.nb_bk sweep then fc.store.nb_bk else sweep)
                fc.pressure_empty_slots now (called fc) f inv)
      ]
