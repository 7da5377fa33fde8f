-- ===== src/FlowCache/Sweep.antt =====
-- samples/fcache/src/fc_cache_generate.h: `maintain`, against the slots that it goes over.
use relative_q.Base.{
  ℕ, zero, suc, ◌≡◌, ◌≤◌, ◌+◌, ◌^◌, ◌%◌, ◌∙◌, sym, ap, subst, refl, true, false, Bool, ◌==◌, List,
  [], ◌∷◌, contains, ltb, ◌&&◌, ◌||◌,
}
use Prim.Native.Nat.{bit_and}
use relative_q.Base.Bits.{bit_and-le}
use relative_q.Hash.Fingerprint.{FpOps}
use relative_q.Hash.Fingerprint.Laws.{FpLaws}
use relative_q.FlowCache.{Store, Cache}
use relative_q.FlowCache.Timeout.{update_eff_timeout, expire_before, eff_timeout, scaled_timeout}
use relative_q.FlowCache.Maintain.{
  add64, check_bucket, reclaim_counted, maintain_loop, maintain_grouped, maintain,
}
use relative_q.FlowCache.Invariant.{IsStore}
use relative_q.FlowCache.Evict.{
  IsEvicted, IsEvicted-refl, IsEvicted-trans, IsEvicted-ext, is_expired,
  reclaim_bucket_all-IsEvicted,
}

module _ {Key : Type 0} (ops : FpOps Key) (mask : ℕ) (laws : FpLaws ops mask) where
  -- The next `n` buckets from `bk` on, around the end of the table.
  abbrev pub visited : ℕ → ℕ → List ℕ
  visited zero bk = []
  visited (suc n) bk = bk ∷ visited n (bit_and ((bk + 1) % 2 ^ 32) mask)

  -- The expired entries of some buckets.
  abbrev pub swept : List ℕ → ℕ → Store Key → ℕ → ℕ → Bool
  swept bks eb st b s = contains b bks && is_expired eb st b s

  Bool-join :
      (x c e e' : Bool) → ((x && e) ≡ false → e' ≡ e) → ((x && e) || (c && e')) ≡ ((x || c) && e)
  Bool-join true c true e' h = refl
  Bool-join true true false e' h = h refl
  Bool-join true false false e' h = refl
  Bool-join false true e e' h = h refl
  Bool-join false false e e' h = refl

  -- One sweep after another.
  sweep_join :
      (bk : ℕ) (bks : List ℕ) (eb : ℕ) (a b c : Store Key)
      → IsEvicted ops mask laws (λ x s. (x == bk) && is_expired eb a x s) a b
      → IsEvicted ops mask laws (swept bks eb b) b c
      → IsEvicted ops mask laws (swept (bk ∷ bks) eb a) a c
  sweep_join bk bks eb a b c p q =
      IsEvicted-ext ops mask laws (λ x s. ((x == bk) && is_expired eb a x s) || swept bks eb b x s)
        (swept (bk ∷ bks) eb a) a c
        (λ x s r o.
          Bool-join (x == bk) (contains x bks) (is_expired eb a x s) (is_expired eb b x s) (λ e.
            let same : b.fields.table.idx x s ≡ a.fields.table.idx x s =
              p.idx_lem x s r ∙ rw e refl in
            let ts = p.ts_lem (b.fields.table.idx x s) (x, s, r, (λ z. o (sym same ∙ z)), refl) in
            ap (λ t. ltb t eb) (ts ∙ ap a.last_ts same)))
        (IsEvicted-trans ops mask laws _ _ a b c p q)

  maintain_loop-IsEvicted :
      (n bk eb evicted : ℕ) (fc : Cache Key)
      → IsStore ops mask laws 0 fc.store
      → bk ≤ mask
      → IsEvicted ops mask laws
          (swept (visited n bk) eb fc.store)
          fc.store
          ((maintain_loop n bk eb (evicted, fc)).1.store)
  unfolding maintain_loop reclaim_counted
  maintain_loop-IsEvicted zero bk eb evicted fc inv l = IsEvicted-refl ops mask laws fc.store inv
  maintain_loop-IsEvicted (suc n) bk eb evicted fc inv l =
      let one = reclaim_bucket_all-IsEvicted ops mask laws fc.store inv bk eb l in
      let next = bit_and ((bk + 1) % 2 ^ 32) fc.store.head.mask in
      let e : next ≡ bit_and ((bk + 1) % 2 ^ 32) mask =
        ap (bit_and ((bk + 1) % 2 ^ 32)) inv.mask_lem in
      let mid = reclaim_counted bk eb (evicted, check_bucket fc) in
      let rest =
        maintain_loop-IsEvicted n next eb (mid.0) (mid.1) one.store
          (subst (λ x. x ≤ mask) (sym e) (bit_and-le _ mask)) in
      sweep_join bk (visited n (bit_and ((bk + 1) % 2 ^ 32) mask)) eb fc.store mid.1.store _ one (
        subst
          (λ x.
            IsEvicted ops mask laws (swept (visited n x) eb mid.1.store) mid.1.store
              ((maintain_loop n next eb mid).1.store))
          e rest)

  -- On storage that keeps its promises, `maintain` empties the slots whose entry has expired in the
  -- buckets that it goes over, around the end of the table, and no others; the storage keeps its promises, and what stays keeps its
  -- key and its time. An entry has expired if it was last used before the time less the timeout
  -- that is computed at the start.
  pub maintain-IsEvicted :
      (start_bk bucket_count now : ℕ) (fc : Cache Key)
      → IsStore ops mask laws 0 fc.store
      → IsEvicted ops mask laws
          (swept
            (visited bucket_count (bit_and start_bk mask))
            (expire_before now (update_eff_timeout fc))
            fc.store)
          fc.store
          ((maintain start_bk bucket_count now fc).1.store)
  unfolding maintain maintain_grouped update_eff_timeout expire_before eff_timeout scaled_timeout
  maintain-IsEvicted start_bk bucket_count now fc inv =
      let start = bit_and start_bk fc.store.head.mask in
      let e : start ≡ bit_and start_bk mask = ap (bit_and start_bk) inv.mask_lem in
      let eb = expire_before now (update_eff_timeout fc) in
      let stats = fc.stats in
      let fc1 : Cache Key =
        update_eff_timeout
          (record fc { stats = record stats { maint_calls = add64 stats.maint_calls 1 } }) in
      subst
        (λ x.
          IsEvicted ops mask laws (swept (visited bucket_count x) eb fc.store) fc.store
            ((maintain start_bk bucket_count now fc).1.store))
        e
        (maintain_loop-IsEvicted bucket_count start eb 0 fc1 inv
          (subst (λ x. x ≤ mask) (sym e) (bit_and-le _ mask)))
