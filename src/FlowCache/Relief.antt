-- ===== src/FlowCache/Relief.antt =====
-- samples/fcache/src/fc_cache_generate.h: the evictions before an insertion, which never take an
-- entry that was used at the present time.
use relative_q.Base.{
  ℕ, ◌≡◌, ◌≢◌, ◌∙◌, sym, ap, subst, inl, inr, true, false, refl, ◌==◌, arith, Bool, Bool-cases,
  if-elim, ◌≤◌, ◌<◌, ◌^◌, ltb, ◌||◌,
}
use relative_q.Hash.Cuckoo.Slots.{is_at, at_same}
use relative_q.Hash.Cuckoo.Valid.{InTable}
use relative_q.Hash.Fingerprint.{FpOps, FpCtx}
use relative_q.Hash.Fingerprint.Laws.{FpLaws}
use relative_q.FlowCache.{Store, Cache, Stats}
use relative_q.FlowCache.Entries.{reclaim_bucket}
use relative_q.FlowCache.Timeout.{update_eff_timeout, expire_before, relief_empty_slots}
use relative_q.FlowCache.Maintain.{popcount, add64}
use relative_q.FlowCache.Bulk.{relief}
use relative_q.FlowCache.Invariant.{In, IsStore, Spares}
use relative_q.FlowCache.Evict.{
  IsEvicted, IsEvicted-refl, IsEvicted-trans, reclaim_bucket-Reclaimed,
}

pub expire_before-le : {Key : Type 0} (now : ℕ) (fc : Cache Key) → expire_before now fc ≤ now
unfolding expire_before
expire_before-le now fc = ground arith

module _ {Key : Type 0} (ops : FpOps Key) (mask : ℕ) (laws : FpLaws ops mask) (now : ℕ) where
  -- Entries have gone whose time was before `now`, and no others.
  pub record IsRelieved (st st' : Store Key) : Type 0 where
    pub gone : ℕ → ℕ → Bool
    pub evicted : IsEvicted ops mask laws gone st st'
    pub older :
        (b s : ℕ)
        → InTable mask b s
        → st.fields.table.idx b s ≢ 0
        → gone b s ≡ true
        → st.last_ts (st.fields.table.idx b s) < now

  pub IsRelieved-refl : (st : Store Key) → IsStore ops mask laws 0 st → IsRelieved st st
  IsRelieved-refl st inv = record {
    gone = λ b s. false;
    evicted = IsEvicted-refl ops mask laws st inv;
    older = λ b s r o e. cc;
  }

  pub IsRelieved-trans : (a b c : Store Key) → IsRelieved a b → IsRelieved b c → IsRelieved a c
  IsRelieved-trans a b c p q = record {
    gone = λ bk s. p.gone bk s || q.gone bk s;
    evicted = IsEvicted-trans ops mask laws p.gone q.gone a b c p.evicted q.evicted;
    older = λ bk s r o e. elim (Bool-cases (p.gone bk s)) [
      | inl w ↦ p.older bk s r o w
      | inr w ↦
          let same : b.fields.table.idx bk s ≡ a.fields.table.idx bk s =
            p.evicted.idx_lem bk s r ∙ rw w refl in
          let ts =
            p.evicted.ts_lem (b.fields.table.idx bk s) (bk, s, r, (λ z. o (sym same ∙ z)), refl) in
          let l = q.older bk s r (λ z. o (sym same ∙ z)) (rw w at e) in
          let e' = ts ∙ ap a.last_ts same in omega arith
    ];
  }

  -- What was used at the present time stays.
  pub IsRelieved-Spares : (a b : Store Key) → IsRelieved a b → Spares ops mask laws now a b
  IsRelieved-Spares a b p n (bk, s, r, o, e) t = elim (Bool-cases (p.gone bk s)) [
    | inl w ↦
        let l = p.older bk s r (λ z. o (sym e ∙ z)) w in
        let t' = ap a.last_ts e ∙ t in absurd (omega arith)
    | inr w ↦
        let x : In mask b.fields.table n = (bk, s, r, o, p.evicted.idx_lem bk s r ∙ rw w e) in
        (x, ap (λ f. f n) p.evicted.key_lem, p.evicted.ts_lem n x ∙ t)
  ]

  reclaim-IsRelieved :
      (bk eb : ℕ) (st : Store Key)
      → IsStore ops mask laws 0 st
      → bk ≤ mask
      → eb ≤ now
      → now < 2 ^ 64
      → IsRelieved st ((reclaim_bucket bk eb st).1)
  reclaim-IsRelieved bk eb st inv l le w =
      elim (reclaim_bucket-Reclaimed ops mask laws st inv bk eb l (omega arith)) [
        | inl (e, (v, u, o, x, ev)) ↦ record {
          gone = is_at bk v;
          evicted = ev;
          older = λ b s r z at.
              let (p, q) = at_same {b = bk} {s = v} {b' = b} {s' = s} at in
              let same : st.last_ts (st.fields.table.idx b s)
                  ≡ st.last_ts (st.fields.table.idx bk v) =
                λ i. st.last_ts (st.fields.table.idx (p i) (q i)) in
              ground arith;
        }
        | inr (e, none_left) ↦
            subst (IsRelieved st) (ap (λ r. r.1) (sym e)) (IsRelieved-refl st inv)
      ]

  -- `relief` evicts only entries that were used before the present time.
  pub relief-IsRelieved :
      (c : FpCtx Key) (fc : Cache Key)
      → IsStore ops mask laws 0 fc.store
      → c.bk0 ≤ mask
      → c.bk1 ≤ mask
      → now < 2 ^ 64
      → IsRelieved fc.store ((relief c now fc).store)
  unfolding relief update_eff_timeout
  relief-IsRelieved c fc inv l0 l1 w =
      let stats : Stats = record fc.stats {
        relief_calls = add64 fc.stats.relief_calls 1;
        relief_bucket_checks = add64 fc.stats.relief_bucket_checks 1;
      } in
      let fc1 = update_eff_timeout (record fc { stats = stats }) in
      let eb = expire_before now fc1 in
      let r = reclaim_bucket c.bk0 eb fc.store in
      let le = expire_before-le now fc1 in
      let first = reclaim-IsRelieved c.bk0 eb fc.store inv l0 le w in
      let both =
        IsRelieved-trans fc.store (r.1) ((reclaim_bucket c.bk1 eb (r.1)).1) first
          (reclaim-IsRelieved c.bk1 eb (r.1) (first.evicted.store) l1 le w) in
      let none_gone = IsRelieved-refl fc.store inv in
      let P = λ (fc' : Cache Key). IsRelieved fc.store fc'.store in
      if-elim P (fc.total_slots == 0) none_gone (
        if-elim P (ltb (relief_empty_slots fc) (popcount c.empties0)) none_gone (
          if-elim P (r.0) first (
            if-elim P (ltb (relief_empty_slots fc) (popcount c.empties1)) first (
              if-elim P (c.bk1 == c.bk0) first
                (if-elim P ((reclaim_bucket c.bk1 eb (r.1)).0) both both)))))
