-- ===== src/FlowCache/FindAdd.antt =====
-- samples/fcache/src/fc_cache_generate.h: `findadd_bulk`, against the entries and their times.
use relative_q.Base.{
  ◌⊎◌, ℕ, ◌≡◌, ◌<◌, ◌+◌, ◌^◌, ◌∙◌, inl, inr, refl, Bool-cases, ◌==◌, ==_iff, ne_of_test, arith,
  some, ◌≤◌, ap, Option,
}
use mathlib.Core.Option
use relative_q.Hash.Fingerprint.{FpOps, FpCtx}
use relative_q.Hash.Fingerprint.Laws.{FpLaws}
use relative_q.Hash.Fingerprint.SlotTable as SlotTable
use relative_q.Hash.Fingerprint.SlotTable.{flip, flip_laws}
use relative_q.FlowCache.{Store}
use relative_q.FlowCache.Bulk.{
  Batch, findadd_stage, fill, relief, touch, put, findadd_bulk, count_lookups, hash_stage,
  empties_stage,
}
use relative_q.FlowCache.Runs.{pipeline3-Inv}
use relative_q.FlowCache.Invariant.{In, IsStore, Spares, Spares-trans}
use relative_q.FlowCache.Lend.{update_hit, update_other}
use relative_q.FlowCache.Change.{touch-IsStore}
use relative_q.FlowCache.Fill.{IsFilled, fill-IsFilled}
use relative_q.FlowCache.Relief.{IsRelieved-Spares, relief-IsRelieved}
use relative_q.FlowCache.Lookup.{IsScanned, cmp_key_empties-Hit, scan_bk_empties-IsScanned}
use relative_q.FlowCache.Batches.{IsBatch, Done-IsBatch, hash_stage-IsBatch, empties_stage-IsBatch}

module _ {Key : Type 0} (ops : FpOps Key) (mask : ℕ) (laws : FpLaws ops mask) (now : ℕ) where
  -- A result is NULL or an entry of the table with the key and the time.
  abbrev pub IsLive : Store Key → Key → ℕ → Type 0
  IsLive st k n = (n ≡ 0) ⊎ (In mask st.fields.table n × (st.key n ≡ k) × (st.last_ts n ≡ now))

  pub IsLive-Spares :
      (a b : Store Key) (k : Key) (n : ℕ)
      → Spares ops mask laws now a b
      → IsLive a k n
      → IsLive b k n
  IsLive-Spares a b k n p l = elim l [
    | inl z ↦ inl z
    | inr (i, e, t) ↦ let (i', e', t') = p n i t in inr (i', e' ∙ e, t')
  ]

  -- What is done for a key: the result is live, and no entry with the time has gone.
  pub record IsAdded (k : Key) (st : Store Key) (res : ℕ) (st' : Store Key) : Type 0 where
    pub store : IsStore ops mask laws 0 st'
    pub live : IsLive st' k res
    pub spares : Spares ops mask laws now st st'

  pub filled-IsAdded :
      (k : Key) (a b : Store Key) (res : ℕ) (c : Store Key)
      → Spares ops mask laws now a b
      → IsFilled ops mask laws k now b res c
      → IsAdded k a res c
  filled-IsAdded k a b res c p f = record {
    store = f.store;
    live = elim (Bool-cases (res == 0)) [
      | inl z ↦ inl ((==_iff res 0).0 z)
      | inr z ↦ inr (f.live (ne_of_test res 0 z))
    ];
    spares = Spares-trans ops mask laws now a b c p (λ n i t.
        let (i', e, w) = f.stays n i in (i', e, elim w [ inl same ↦ same ∙ t | inr (z, t') ↦ t' ]));
  }

  pub touched-IsAdded :
      (k : Key) (st : Store Key) (n : ℕ)
      → IsStore ops mask laws 0 st
      → In mask st.fields.table n × (st.key n ≡ k)
      → IsAdded k st n (touch n now st)
  unfolding touch
  touched-IsAdded k st n inv (i, e) = record {
    store = touch-IsStore ops mask laws 0 st inv n now i;
    live = inr (i, e, update_hit st.last_ts n now n refl);
    spares = λ m x t. (
      x,
      refl,
      elim (Bool-cases (m == n)) [
        | inl q ↦ update_hit st.last_ts n now m ((==_iff m n).0 q)
        | inr q ↦ update_other st.last_ts n now m (ne_of_test m n q) ∙ t
      ],
    );
  }

  module _ (keys : ℕ → Key) (w : now < 2 ^ 64) (st0 : Store Key) where
    -- What is kept of the storage that the batch starts with.
    abbrev Kept : Store Key → Type 0
    Kept st = Spares ops mask laws now st0 st

    abbrev Scanned : Store Key → ℕ → FpCtx Key → Type 0
    Scanned st i x = IsScanned (flip ops) mask (flip_laws laws) (keys i) x

    abbrev Done : Store Key → ℕ → ℕ → Type 0
    Done st i n = IsLive st (keys i) n

    module _ (a b c : ℕ) (s : Batch Key)
        (inv : IsBatch ops mask laws keys Scanned Done Kept a b c s) (l : c < b) where
      step_IsBatch :
          (b' : Batch Key) (x : FpCtx Key) (res : ℕ)
          → b'.ctx ≡ put s.ctx c x
          → b'.results ≡ put s.results c res
          → IsAdded (keys c) s.fc.store res b'.fc.store
          → IsBatch ops mask laws keys Scanned Done Kept a b (c + 1) b'
      step_IsBatch b' x res ex er p =
          Done-IsBatch ops mask laws keys Scanned Done Kept a b c s inv b' x res ex er p.store
            (Spares-trans ops mask laws now st0 s.fc.store b'.fc.store inv.kept p.spares) l p.live
            (λ i x y. y) (λ i n. IsLive-Spares s.fc.store b'.fc.store (keys i) n p.spares)

      findadd_stage-IsBatch :
          IsBatch ops mask laws keys Scanned Done Kept a b (c + 1) (findadd_stage ops keys now c s)
      unfolding findadd_stage
      findadd_stage-IsBatch =
          let st = s.fc.store in
          let r = SlotTable.cmp_key_empties ops st.key st.fields.table (s.ctx c) in
          let (hit, hashed) =
            cmp_key_empties-Hit (flip ops) mask (flip_laws laws) st.key st.fields.table (keys c)
              (s.ctx c) (inv.scanned c (omega arith) l) in
          elim (Bool-cases (r.0 == 0)) [
            | inr z ↦
                rw (findadd_stage, z)
                  (step_IsBatch _ (r.1) (r.0) refl refl
                    (touched-IsAdded (keys c) st (r.0) inv.store (hit (ne_of_test (r.0) 0 z))))
            | inl z ↦
                let relieved =
                  relief-IsRelieved ops mask laws now (r.1) s.fc inv.store hashed.bk0_le
                    hashed.bk1_le w in
                let fc1 = relief (r.1) now s.fc in
                rw (findadd_stage, z)
                  (step_IsBatch _ (r.1) ((fill ops ((r.1).hash) (keys c) now fc1).0) refl refl (
                    filled-IsAdded (keys c) st fc1.store _ _
                      (IsRelieved-Spares ops mask laws now st fc1.store relieved)
                      (fill-IsFilled ops mask laws ((r.1).hash) (keys c) now fc1
                        relieved.evicted.store hashed.hash_lem)))
          ]

  -- A batch has ended: the storage keeps its promises, each result is live, and the entries with
  -- the time `now` have stayed.
  abbrev pub Adds : (ℕ → Key) → ℕ → Batch Key → Option (Batch Key) → Type 0
  Adds keys nb_keys b r =
      (b' : Batch Key) × (r ≡ some b')
      × IsStore ops mask laws 0 b'.fc.store
      × ((i : ℕ) → i < nb_keys → IsLive b'.fc.store (keys i) (b'.results i))
      × Spares ops mask laws now b.fc.store b'.fc.store

  -- `findadd_bulk` on storage that keeps its promises, at a 64-bit time, with enough fuel and fewer
  -- than 2^32 - 104 keys, ends and leaves such storage. Each result is NULL or an entry of the table that has the
  -- key and the present time, evictions on the way included, and an entry of the table that had the
  -- present time before is still there with its key.
  pub findadd_bulk-Adds :
      (keys : ℕ → Key) (fuel nb_keys : ℕ) (b : Batch Key)
      → now < 2 ^ 64
      → nb_keys + 104 < 2 ^ 32
      → nb_keys + 96 < fuel
      → IsStore ops mask laws 0 b.fc.store
      → Adds keys nb_keys b (findadd_bulk ops keys fuel nb_keys now b)
  unfolding findadd_bulk count_lookups
  findadd_bulk-Adds keys fuel nb_keys b w l f inv =
      let start : Batch Key = record b { hit_count = 0; miss_count = 0 } in
      let st = b.fc.store in
      let K = Kept keys w st in
      let C = Scanned keys w st in
      let D = Done keys w st in
      let (s, e, (q, p)) =
        pipeline3-Inv nb_keys l (λ a b c s. (b ≤ a) × IsBatch ops mask laws keys C D K a b c s)
          (hash_stage ops keys) (empties_stage ops keys) (findadd_stage ops keys now)
          (λ a b c s u (v, p).
            (omega arith, hash_stage-IsBatch ops mask laws keys C D K a b c s p v))
          (λ a b c s u u' (v, p). (
            omega arith,
            empties_stage-IsBatch ops mask laws keys C D K a b c s p
                (scan_bk_empties-IsScanned (flip ops) mask (flip_laws laws) s.fc.store.key
                  s.fc.store.fields.table (keys b) (s.ctx b))
                u,
          ))
          (λ a b c s u u' (v, p). (v, findadd_stage-IsBatch keys w st a b c s p u)) fuel start f
          (
            omega arith,
            record {
              store = inv;
              kept = λ n i t. (i, refl, t);
              hashed = λ i u v. absurd (omega arith);
              scanned = λ i u v. absurd (omega arith);
              done = λ i v. absurd (omega arith);
            },
          ) in
      (count_lookups nb_keys s, ap (Option.map (count_lookups nb_keys)) e, p.store, p.done, p.kept)
