-- ===== src/FlowCache/Batches.antt =====
-- samples/fcache/src/fc_cache_generate.h: the state of a bulk operation between two steps of its
-- pipeline, and the stages that fill in the contexts.
use relative_q.Base.{
  ℕ, ◌≡◌, ◌≢◌, ◌≤◌, ◌<◌, ◌+◌, sym, subst, inl, inr, Bool-cases, ◌==◌, ==_iff, ne_of_test, arith,
  refl,
}
use relative_q.Hash.Fingerprint.{FpOps, FpCtx}
use relative_q.Hash.Fingerprint.Laws.{FpLaws}
use relative_q.Hash.Fingerprint.SlotTable as SlotTable
use relative_q.Hash.Fingerprint.SlotTable.{flip, flip_laws}
use relative_q.FlowCache.{Store}
use relative_q.FlowCache.Bulk.{Batch, hash_stage, scan_stage, empties_stage, put}
use relative_q.FlowCache.Invariant.{IsStore}
use relative_q.FlowCache.Lookup.{IsHashed, hash_key-IsHashed}

pub put-elim :
    {A : Type 0} (P : ℕ → A → Type 0) (f : ℕ → A) (n : ℕ) (v : A) (m : ℕ)
    → P n v
    → (m ≢ n → P m (f m))
    → P m (put f n v m)
put-elim P f n v m p q = elim (Bool-cases (m == n)) [
  | inl e ↦ rw e (subst (λ k. P k v) (sym ((==_iff m n).0 e)) p)
  | inr e ↦ rw e (q (ne_of_test m n e))
]

module _ {Key : Type 0} (ops : FpOps Key) (mask : ℕ) (laws : FpLaws ops mask) (keys : ℕ → Key)
    (Scan : Store Key → ℕ → FpCtx Key → Type 0) (Done : Store Key → ℕ → ℕ → Type 0)
    (Kept : Store Key → Type 0) where
  -- The keys below `a` have been hashed, those below `b` scanned, and those below `c` are done.
  pub record IsBatch (a b c : ℕ) (s : Batch Key) : Type 0 where
    pub store : IsStore ops mask laws 0 s.fc.store
    pub kept : Kept s.fc.store
    pub hashed :
        (i : ℕ) → b ≤ i → i < a → IsHashed (flip ops) mask (flip_laws laws) (keys i) (s.ctx i)
    pub scanned : (i : ℕ) → c ≤ i → i < b → Scan s.fc.store i (s.ctx i)
    pub done : (i : ℕ) → i < c → Done s.fc.store i (s.results i)

  abbrev Hashed : ℕ → FpCtx Key → Type 0
  Hashed i x = IsHashed (flip ops) mask (flip_laws laws) (keys i) x

  module _ (a b c : ℕ) (s : Batch Key) (inv : IsBatch a b c s) where
    pub hash_stage-IsBatch : b ≤ a → IsBatch (a + 1) b c (hash_stage ops keys a s)
    unfolding hash_stage
    hash_stage-IsBatch l =
        let st = s.fc.store in
        let x = SlotTable.hash_key_2bk ops st.key st.head (keys a) (s.ctx a) in
        let p =
          hash_key-IsHashed (flip ops) mask (flip_laws laws) st.key st.head (keys a) (s.ctx a)
            inv.store.mask_lem in
        record {
          store = inv.store;
          kept = inv.kept;
          hashed = λ i u v. put-elim Hashed s.ctx a x i p (λ ne. inv.hashed i u (omega arith));
          scanned = λ i u v.
              put-elim (λ i x. i < b → Scan s.fc.store i x) s.ctx a x i (λ l'. absurd (omega arith))
                (λ ne l'. inv.scanned i u l') v;
          done = inv.done;
        }

    -- A stage that scans the first bucket of the next key.
    Scan-step :
        (x : FpCtx Key)
        → (Hashed b (s.ctx b) → Scan s.fc.store b x)
        → b < a
        → IsBatch a (b + 1) c (record s { ctx = put s.ctx b x })
    Scan-step x step l = record {
      store = inv.store;
      kept = inv.kept;
      hashed = λ i u v.
          put-elim (λ i x. b + 1 ≤ i → Hashed i x) s.ctx b x i (λ l'. absurd (omega arith))
            (λ ne l'. inv.hashed i (omega arith) v) u;
      scanned = λ i u v.
          put-elim (Scan s.fc.store) s.ctx b x i (step (inv.hashed b (omega arith) l))
            (λ ne. inv.scanned i u (omega arith));
      done = inv.done;
    }

    pub scan_stage-IsBatch :
        (let st = s.fc.store in
          Hashed b (s.ctx b) → Scan st b (SlotTable.scan_bk ops st.key st.fields.table (s.ctx b)))
        → b < a
        → IsBatch a (b + 1) c (scan_stage ops keys b s)
    unfolding scan_stage
    scan_stage-IsBatch step l = Scan-step _ step l

    pub empties_stage-IsBatch :
        (let st = s.fc.store in
          Hashed b (s.ctx b)
          → Scan st b (SlotTable.scan_bk_empties ops st.key st.fields.table (s.ctx b)))
        → b < a
        → IsBatch a (b + 1) c (empties_stage ops keys b s)
    unfolding empties_stage
    empties_stage-IsBatch step l = Scan-step _ step l

    -- A last stage that writes the next result, and perhaps the context of its key.
    pub Done-IsBatch :
        (b' : Batch Key) (x : FpCtx Key) (res : ℕ)
        → b'.ctx ≡ put s.ctx c x
        → b'.results ≡ put s.results c res
        → IsStore ops mask laws 0 b'.fc.store
        → Kept b'.fc.store
        → c < b
        → Done b'.fc.store c res
        → ((i : ℕ) (x : FpCtx Key) → Scan s.fc.store i x → Scan b'.fc.store i x)
        → ((i n : ℕ) → Done s.fc.store i n → Done b'.fc.store i n)
        → IsBatch a b (c + 1) b'
    Done-IsBatch b' x res ex er inv' kept l d fresh keep = record {
      store = inv';
      kept = kept;
      hashed = λ i u v.
          subst (λ f. Hashed i (f i)) (sym ex)
            (put-elim (λ i x. b ≤ i → Hashed i x) s.ctx c x i (λ l'. absurd (omega arith))
              (λ ne l'. inv.hashed i l' v) u);
      scanned = λ i u v.
          subst (λ f. Scan b'.fc.store i (f i)) (sym ex)
            (put-elim (λ i x. c + 1 ≤ i → Scan b'.fc.store i x) s.ctx c x i
              (λ l'. absurd (omega arith))
              (λ ne l'. fresh i (s.ctx i) (inv.scanned i (omega arith) v)) u);
      done = λ i u.
          subst (λ f. Done b'.fc.store i (f i)) (sym er)
            (put-elim (λ i n. Done b'.fc.store i n) s.results c res i d
              (λ ne. keep i (s.results i) (inv.done i (omega arith))));
    }

-- A store of what is there already.
pub put-same : {A : Type 0} (f : ℕ → A) (n : ℕ) → f ≡ put f n (f n)
put-same f n = λ i m. put-elim (λ m v. f m ≡ v) f n (f n) m refl (λ ne. refl) i
