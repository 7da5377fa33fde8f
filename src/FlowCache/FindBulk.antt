-- ===== src/FlowCache/FindBulk.antt =====
-- samples/fcache/src/fc_cache_generate.h: `find_bulk`, against the entries of the table.
use relative_q.Base.{
  ℕ, ◌≡◌, ◌≢◌, ◌⊎◌, ◌↔◌, ◌≤◌, ◌<◌, ◌+◌, ◌^◌, ◌∙◌, sym, ap, subst, inl, inr, refl, Bool-cases, ◌==◌,
  ==_iff, ne_of_test, arith, some, Option,
}
use mathlib.Core.Option
use relative_q.Hash.Fingerprint.{FpOps, FpCtx}
use relative_q.Hash.Fingerprint.Laws.{FpLaws}
use relative_q.Hash.Fingerprint.Fields.{Fields}
use relative_q.Hash.Fingerprint.SlotTable as SlotTable
use relative_q.Hash.Fingerprint.SlotTable.{flip, flip_laws, flip-IsValid}
use relative_q.FlowCache.{Store}
use relative_q.FlowCache.Bulk.{
  Batch, hash_stage, scan_stage, find_stage, find_bulk, touch, count_lookups,
}
use relative_q.FlowCache.Runs.{pipeline3-Inv}
use relative_q.FlowCache.Invariant.{In, IsStore}
use relative_q.FlowCache.Lend.{update_hit, update_other, update_kept}
use relative_q.FlowCache.Change.{touch-IsStore}
use relative_q.FlowCache.Fresh.{IsFresh, scan_bk-IsFresh, cmp_key-In}
use relative_q.FlowCache.Batches.{
  IsBatch, hash_stage-IsBatch, scan_stage-IsBatch, Done-IsBatch, put-same,
}

module _ {Key : Type 0} (ops : FpOps Key) (mask : ℕ) (laws : FpLaws ops mask) (now : ℕ)
    (keys : ℕ → Key) (nb : ℕ) (st0 : Store Key) where
  -- The entry of the table has the present time now, which is not 0, since it has one of the keys.
  abbrev pub IsHit : Store Key → ℕ → Type 0
  IsHit st m =
      (now ≢ 0)
      × (st.last_ts m ≡ now)
      × In mask st0.fields.table m
      × ((i : ℕ) × (i < nb) × (st0.key m ≡ keys i))

  -- The table and the keys are those of before, and so are the times but for the hits.
  pub record Kept (st : Store Key) : Type 0 where
    pub fields_lem : st.fields ≡ st0.fields
    pub key_lem : st.key ≡ st0.key
    pub ts_lem : (m : ℕ) → (st.last_ts m ≡ st0.last_ts m) ⊎ IsHit st m

  abbrev Scan : Store Key → ℕ → FpCtx Key → Type 0
  Scan st i x = IsFresh (flip ops) mask (flip_laws laws) st.fields.table (keys i) x

  -- The result is the entry with the key, and that entry has the present time unless it is 0.
  pub record Done (st : Store Key) (i n : ℕ) : Type 0 where
    pub exact : (m : ℕ) → m ≢ 0 → (n ≡ m) ↔ (In mask st0.fields.table m × (st0.key m ≡ keys i))
    pub touched : n ≢ 0 → now ≢ 0 → st.last_ts n ≡ now

  module _ (a b c : ℕ) (s : Batch Key) (inv : IsBatch ops mask laws keys Scan Done Kept a b c s)
      (l : c < b) (k : c < nb) where
    abbrev st : Store Key
    st = s.fc.store

    abbrev entry : ℕ
    entry = SlotTable.cmp_key ops st.key st.fields.table (s.ctx c)

    entry_exact :
        (m : ℕ) → m ≢ 0 → (entry ≡ m) ↔ (In mask st0.fields.table m × (st0.key m ≡ keys c))
    entry_exact m o =
        let w =
          cmp_key-In (flip ops) mask (flip_laws laws) st.key st.fields.table
            (flip-IsValid ops st.key mask laws st.fields.table inv.store.valid) (keys c) (s.ctx c)
            (inv.scanned c (omega arith) l) m o in
        subst (λ (f : Fields). (entry ≡ m) ↔ (In mask f.table m × (st0.key m ≡ keys c)))
          inv.kept.fields_lem
          (subst (λ (k : ℕ → Key). (entry ≡ m) ↔ (In mask st.fields.table m × (k m ≡ keys c)))
            inv.kept.key_lem w)

    untouched : (n : ℕ) → entry ≡ n → (n ≢ 0 → now ≢ 0 → st.last_ts n ≡ now) → Done st c n
    untouched n e h = record {
      exact = λ m o.
          subst (λ x. (x ≡ m) ↔ (In mask st0.fields.table m × (st0.key m ≡ keys c))) e
            (entry_exact m o);
      touched = h;
    }

    module _ (o : entry ≢ 0) where
      there : In mask st.fields.table entry
      there =
          subst (λ (f : Fields). In mask f.table entry) (sym inv.kept.fields_lem)
            (((entry_exact entry o).0 refl).0)

      touch-Kept : now ≢ 0 → Kept (touch entry now st)
      unfolding touch
      touch-Kept ne = record {
        fields_lem = inv.kept.fields_lem;
        key_lem = inv.kept.key_lem;
        ts_lem = λ m. elim (Bool-cases (m == entry)) [
          | inl e ↦
              let same = (==_iff m entry).0 e in
              let (x, own) = (entry_exact entry o).0 refl in
              inr (
                ne,
                update_hit st.last_ts entry now m same,
                subst (In mask st0.fields.table) (sym same) x,
                (c, k, ap st0.key same ∙ own),
              )
          | inr e ↦
              let same = update_other st.last_ts entry now m (ne_of_test m entry e) in
              elim (inv.kept.ts_lem m) [
                | inl t ↦ inl (same ∙ t)
                | inr (ne, t, x, q) ↦ inr (ne, same ∙ t, x, q)
              ]
        ];
      }

      touch-Done : (i n : ℕ) → Done st i n → Done (touch entry now st) i n
      unfolding touch
      touch-Done i n d = record {
        exact = d.exact;
        touched = λ z w. update_kept st.last_ts entry now n (d.touched z w);
      }

      here : Done (touch entry now st) c entry
      unfolding touch
      here = record {
        exact = entry_exact;
        touched = λ z w. update_hit st.last_ts entry now entry refl;
      }

    find_stage-IsBatch :
        IsBatch ops mask laws keys Scan Done Kept a b (c + 1) (find_stage ops keys now c s)
    unfolding find_stage touch
    find_stage-IsBatch = elim (Bool-cases (entry == 0)) [
      | inl z ↦
          rw (find_stage, z)
            (Done-IsBatch ops mask laws keys Scan Done Kept a b c s inv _ (s.ctx c) 0
              (put-same s.ctx c) refl inv.store inv.kept l
              (untouched 0 ((==_iff entry 0).0 z) (λ w. absurd (w refl))) (λ i x y. y) (λ i n d. d))
      | inr z ↦
          let o = ne_of_test entry 0 z in
          elim (Bool-cases (now == 0)) [
            | inl w ↦
                rw (find_stage, z, w)
                  (Done-IsBatch ops mask laws keys Scan Done Kept a b c s inv _ (s.ctx c) entry
                    (put-same s.ctx c) refl inv.store inv.kept l
                    (untouched entry refl (λ _ v. absurd (v ((==_iff now 0).0 w)))) (λ i x y. y)
                    (λ i n d. d))
            | inr w ↦
                rw (find_stage, z, w)
                  (Done-IsBatch ops mask laws keys Scan Done Kept a b c s inv _ (s.ctx c) entry
                    (put-same s.ctx c) refl
                    (touch-IsStore ops mask laws 0 st inv.store entry now (there o))
                    (touch-Kept o (ne_of_test now 0 w)) l (here o) (λ i x y. y) (touch-Done o))
          ]
    ]

module _ {Key : Type 0} (ops : FpOps Key) (mask : ℕ) (laws : FpLaws ops mask) where
  -- A batch has ended and each key is done, with the table and the keys of before.
  abbrev pub Finds : (ℕ → Key) → ℕ → ℕ → Batch Key → Option (Batch Key) → Type 0
  Finds keys nb_keys now b r =
      (b' : Batch Key) × (r ≡ some b')
      × IsStore ops mask laws 0 b'.fc.store
      × Kept ops mask laws now keys nb_keys b.fc.store b'.fc.store
      × ((i : ℕ)
          → i < nb_keys
          → Done ops mask laws now keys nb_keys b.fc.store b'.fc.store i (b'.results i))

  -- `find_bulk` on storage that keeps its promises, with enough fuel and fewer than 2^32 - 104
  -- keys, ends and leaves such storage with the same table and keys. Each result is the one entry
  -- of the table that has the key, or NULL if there is none; unless the present time is 0, the
  -- entries that are found have it then. All other times, and at time 0 all times, are those of
  -- before.
  pub find_bulk-Finds :
      (keys : ℕ → Key) (fuel nb_keys now : ℕ) (b : Batch Key)
      → nb_keys + 104 < 2 ^ 32
      → nb_keys + 96 < fuel
      → IsStore ops mask laws 0 b.fc.store
      → Finds keys nb_keys now b (find_bulk ops keys fuel nb_keys now b)
  unfolding find_bulk count_lookups
  find_bulk-Finds keys fuel nb_keys now b l f inv =
      let start : Batch Key = record b { hit_count = 0; miss_count = 0 } in
      let st = b.fc.store in
      let C = Scan ops mask laws now keys nb_keys st in
      let D = Done ops mask laws now keys nb_keys st in
      let K = Kept ops mask laws now keys nb_keys st in
      let (s, e, (q, p)) =
        pipeline3-Inv nb_keys l (λ a b c s. (b ≤ a) × IsBatch ops mask laws keys C D K a b c s)
          (hash_stage ops keys) (scan_stage ops keys) (find_stage ops keys now)
          (λ a b c s u (v, p).
            (omega arith, hash_stage-IsBatch ops mask laws keys C D K a b c s p v))
          (λ a b c s u u' (v, p). (
            omega arith,
            scan_stage-IsBatch ops mask laws keys C D K a b c s p
                (scan_bk-IsFresh (flip ops) mask (flip_laws laws) s.fc.store.key
                  s.fc.store.fields.table (keys b) (s.ctx b))
                u,
          ))
          (λ a b c s u u' (v, p).
            (v, find_stage-IsBatch ops mask laws now keys nb_keys st a b c s p u u'))
          fuel start f
          (
            omega arith,
            record {
              store = inv;
              kept = record { fields_lem = refl; key_lem = refl; ts_lem = λ m. inl refl };
              hashed = λ i u v. absurd (omega arith);
              scanned = λ i u v. absurd (omega arith);
              done = λ i v. absurd (omega arith);
            },
          ) in
      (count_lookups nb_keys s, ap (Option.map (count_lookups nb_keys)) e, p.store, p.kept, p.done)
