-- ===== src/FlowCache/DelBulk.antt =====
-- samples/fcache/src/fc_cache_generate.h: `del_bulk`, against the entries of the table.
use Prim.Native.Nat.{bit_and}
use relative_q.Base.{
  some, ◌^◌, ◌≤◌, ℕ, ◌≡◌, ◌≢◌, ◌⊎◌, ◌↔◌, ◌<◌, ◌+◌, ◌∙◌, sym, ap, subst, inl, inr, refl, true,
  Bool-cases, ◌==◌, ==_iff, ne_of_test, arith, if-elim, not, ltb, Option,
}
use relative_q.Hash.Cuckoo.{Head, Buckets}
use relative_q.Hash.Cuckoo.Slots.{set_slot-cases}
use relative_q.Hash.Fingerprint.{FpOps, FpCtx, remove_at}
use relative_q.Hash.Fingerprint.Laws.{FpLaws}
use relative_q.Hash.Fingerprint.Fields.{Fields, remove_slot}
use relative_q.Hash.Fingerprint.SlotTable as SlotTable
use relative_q.Hash.Fingerprint.SlotTable.{flip, flip_laws, flip-IsValid}
use relative_q.FlowCache.{Store}
use relative_q.FlowCache.Entries.{free_entry}
use relative_q.FlowCache.Bulk.{Batch, del_stage}
use relative_q.FlowCache.Bulk.{hash_stage, scan_stage, del_bulk}
use relative_q.FlowCache.Runs.{pipeline3-Inv}
use relative_q.FlowCache.Invariant.{In, IsStore}
use relative_q.FlowCache.Delete.{IsTaken, remove-Removed}
use relative_q.FlowCache.Fresh.{IsFresh, IsFresh-Shrinks, cmp_key-In, scan_bk-IsFresh}
use relative_q.FlowCache.Batches.{
  IsBatch, Done-IsBatch, put-same, hash_stage-IsBatch, scan_stage-IsBatch,
}

abbrev Shrunk : Buckets → Buckets → Type 0
Shrunk t t' = (b s : ℕ) → t'.idx b s ≢ 0 → (t'.idx b s ≡ t.idx b s) × (t'.key b s ≡ t.key b s)

remove_at-Shrunk : (bk slot : ℕ) (h : Head) (t : Buckets) → Shrunk t ((remove_at bk slot (h, t)).2)
unfolding remove_at
remove_at-Shrunk bk slot h t =
    let P = λ (r : ℕ × Head × Buckets). Shrunk t (r.2) in
    if-elim P (not (ltb slot 16)) (λ b s o. (refl, refl))
      (if-elim P (t.idx bk slot == 0) (λ b s o. (refl, refl))
        (λ b s o. elim (set_slot-cases bk slot 0 0 t b s) [
          | inl (p, q, k, i) ↦ absurd (o i)
          | inr (a, k, i) ↦ (i, k)
        ]))

remove_slot-Shrunk :
    {Key : Type 0} (ops : FpOps Key) (node_key : ℕ → Key) (elm : ℕ) (h : Head) (st : Fields)
    → Shrunk st.table ((remove_slot true ops node_key elm h st).2.table)
unfolding remove_slot
remove_slot-Shrunk ops node_key elm h st =
    let bk = bit_and (st.hash_field elm) h.mask in
    let slot = st.slot_field elm in
    let P = λ (r : ℕ × Head × Fields). Shrunk st.table ((r.2).table) in
    let less = remove_at-Shrunk bk slot h st.table in
    if-elim P (not (ltb slot 16)) (λ b s o. (refl, refl))
      (if-elim P (not (st.table.idx bk slot == elm)) (λ b s o. (refl, refl))
        (if-elim P ((remove_at bk slot (h, st.table)).0 == 0) less less))

module _ {Key : Type 0} (ops : FpOps Key) (mask : ℕ) (laws : FpLaws ops mask) (keys : ℕ → Key)
    (nb : ℕ) (st0 : Store Key) where
  -- Entries may have gone that have one of the keys.
  record Kept (st : Store Key) : Type 0 where
    key_lem : st.key ≡ st0.key
    was :
        (m : ℕ)
        → In mask st.fields.table m
        → In mask st0.fields.table m × (st.last_ts m ≡ st0.last_ts m)
    gone :
        (m : ℕ)
        → In mask st0.fields.table m
        → In mask st.fields.table m ⊎ ((i : ℕ) × (i < nb) × (st0.key m ≡ keys i))

  abbrev Scan : Store Key → ℕ → FpCtx Key → Type 0
  Scan st i x = IsFresh (flip ops) mask (flip_laws laws) st.fields.table (keys i) x

  -- No entry has the key.
  abbrev Done : Store Key → ℕ → ℕ → Type 0
  Done st i n = (m : ℕ) → In mask st.fields.table m → st0.key m ≢ keys i

  module _ (a b c : ℕ) (s : Batch Key) (inv : IsBatch ops mask laws keys Scan Done Kept a b c s)
      (l : c < b) (u : c < nb) where
    abbrev st : Store Key
    st = s.fc.store

    abbrev entry : ℕ
    entry = SlotTable.cmp_key ops st.key st.fields.table (s.ctx c)

    exact : (m : ℕ) → m ≢ 0 → (entry ≡ m) ↔ (In mask st.fields.table m × (st0.key m ≡ keys c))
    exact m o =
        subst (λ (k : ℕ → Key). (entry ≡ m) ↔ (In mask st.fields.table m × (k m ≡ keys c)))
          inv.kept.key_lem
          (cmp_key-In (flip ops) mask (flip_laws laws) st.key st.fields.table
            (flip-IsValid ops st.key mask laws st.fields.table inv.store.valid) (keys c) (s.ctx c)
            (inv.scanned c (omega arith) l) m o)

    only : (m : ℕ) → In mask st.fields.table m → st0.key m ≡ keys c → entry ≡ m
    only m x e = let (b, s, r, o, q) = x in (exact m o).1 (x, e)

    taken-Kept : (st' : Store Key) → entry ≢ 0 → IsTaken ops mask laws entry st st' → Kept st'
    taken-Kept st' o p = record {
      key_lem = p.key_lem ∙ inv.kept.key_lem;
      was = λ m y.
          let (x, ne) = (p.left m).0 y in let (x0, t) = inv.kept.was m x in (x0, p.ts_lem m ne ∙ t);
      gone = λ m x0. elim (inv.kept.gone m x0) [
        | inr g ↦ inr g
        | inl x ↦ elim (Bool-cases (m == entry)) [
          | inl e ↦ inr (c, u, ap st0.key ((==_iff m entry).0 e) ∙ ((exact entry o).0 refl).1)
          | inr e ↦ inl ((p.left m).1 (x, ne_of_test m entry e))
        ]
      ];
    }

    del_stage-IsBatch :
        IsBatch ops mask laws keys Scan Done Kept a b (c + 1) (del_stage ops keys c s)
    unfolding del_stage free_entry
    del_stage-IsBatch = elim (Bool-cases (entry == 0)) [
      | inl z ↦
          rw (del_stage, z)
            (Done-IsBatch ops mask laws keys Scan Done Kept a b c s inv s (s.ctx c) (s.results c)
              (put-same s.ctx c) (put-same s.results c) inv.store inv.kept l
              (λ m x e. let (b, s, r, o, q) = x in o (sym (only m x e) ∙ (==_iff entry 0).0 z))
              (λ i x y. y) (λ i n d. d))
      | inr z ↦
          let o = ne_of_test entry 0 z in
          let here = ((exact entry o).0 refl).0 in
          elim (remove-Removed ops mask laws entry o st inv.store) [
            | inr (x, er, same) ↦ absurd (x here)
            | inl (x, er, p) ↦
                rw (del_stage, z)
                  (Done-IsBatch ops mask laws keys Scan Done Kept a b c s inv _ (s.ctx c)
                    (s.results c) (put-same s.ctx c) (put-same s.results c) p.store
                    (taken-Kept _ o p) l
                    (λ m y e. let (y', ne) = (p.left m).0 y in ne (sym (only m y' e)))
                    (λ i x.
                      IsFresh-Shrinks (flip ops) mask (flip_laws laws) st.fields.table _ (keys i) x
                        (remove_slot-Shrunk ops st.key entry st.head st.fields))
                    (λ i n d m y. d m (((p.left m).0 y).0)))
          ]
    ]

module _ {Key : Type 0} (ops : FpOps Key) (mask : ℕ) (laws : FpLaws ops mask) where
  -- A batch has ended: what is left of the entries is those with none of the keys.
  abbrev pub Deletes : (ℕ → Key) → ℕ → Batch Key → Option (Batch Key) → Type 0
  Deletes keys nb_keys b r =
      (b' : Batch Key) × (r ≡ some b')
      × IsStore ops mask laws 0 b'.fc.store
      × (b'.fc.store.key ≡ b.fc.store.key)
      × ((m : ℕ)
          → In mask b'.fc.store.fields.table m ↔ (
              In mask b.fc.store.fields.table m
              × ((i : ℕ) → i < nb_keys → b.fc.store.key m ≢ keys i)))
      × ((m : ℕ)
          → In mask b'.fc.store.fields.table m
          → b'.fc.store.last_ts m ≡ b.fc.store.last_ts m)

  -- `del_bulk` on storage that keeps its promises, with enough fuel and fewer than 2^32 - 104 keys,
  -- ends; the storage keeps its promises, and the entries that are left are those of before with
  -- none of the keys, with their keys and times.
  pub del_bulk-Deletes :
      (keys : ℕ → Key) (fuel nb_keys : ℕ) (b : Batch Key)
      → nb_keys + 104 < 2 ^ 32
      → nb_keys + 96 < fuel
      → IsStore ops mask laws 0 b.fc.store
      → Deletes keys nb_keys b (del_bulk ops keys fuel nb_keys b)
  unfolding del_bulk
  del_bulk-Deletes keys fuel nb_keys b l f inv =
      let st = b.fc.store in
      let C = Scan ops mask laws keys nb_keys st in
      let D = Done ops mask laws keys nb_keys st in
      let K = Kept ops mask laws keys nb_keys st in
      let (s, e, (q, p)) =
        pipeline3-Inv nb_keys l (λ a b c s. (b ≤ a) × IsBatch ops mask laws keys C D K a b c s)
          (hash_stage ops keys) (scan_stage ops keys) (del_stage ops keys)
          (λ a b c s u (v, p).
            (omega arith, hash_stage-IsBatch ops mask laws keys C D K a b c s p v))
          (λ a b c s u u' (v, p). (
            omega arith,
            scan_stage-IsBatch ops mask laws keys C D K a b c s p
                (scan_bk-IsFresh (flip ops) mask (flip_laws laws) s.fc.store.key
                  s.fc.store.fields.table (keys b) (s.ctx b))
                u,
          ))
          (λ a b c s u u' (v, p).
            (v, del_stage-IsBatch ops mask laws keys nb_keys st a b c s p u u'))
          fuel b f
          (
            omega arith,
            record {
              store = inv;
              kept = record { key_lem = refl; was = λ m x. (x, refl); gone = λ m x. inl x };
              hashed = λ i u v. absurd (omega arith);
              scanned = λ i u v. absurd (omega arith);
              done = λ i v. absurd (omega arith);
            },
          ) in
      (
        s,
        e,
        p.store,
        p.kept.key_lem,
        (λ m. (
          (λ x. ((p.kept.was m x).0, λ i u. p.done i u m x)),
          λ (x, h). elim (p.kept.gone m x) [ inl y ↦ y | inr (i, u, same) ↦ absurd (h i u same) ],
        )),
        λ m x. (p.kept.was m x).1,
      )
