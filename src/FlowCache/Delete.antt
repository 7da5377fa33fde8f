-- ===== src/FlowCache/Delete.antt =====
-- samples/fcache/src/fc_cache_generate.h: `remove_idx` and `del_idx_bulk`, against the entries of
-- the table.
use relative_q.Base.{
  ℕ, ◌≡◌, ◌≢◌, ◌⊎◌, ◌↔◌, ◌∙◌, sym, ap, inl, inr, refl, true, false, Bool-cases, ◌==◌, ==_iff, arith,
  ltb, ◌||◌, test_false, ne_of_test, ◌<◌, ◌+◌, subst, ◌^◌, some, Option, Bool,
}
use relative_q.Hash.Cuckoo.{Head}
use relative_q.Hash.Fingerprint.{FpOps}
use relative_q.Hash.Fingerprint.Laws.{FpLaws}
use relative_q.Hash.Fingerprint.Fields.{Fields, remove_slot}
use relative_q.FlowCache.{Store}
use relative_q.FlowCache.Entries.{free_entry, remove_idx, del_idx}
use relative_q.FlowCache.Bulk.{del_idx_bulk}
use relative_q.FlowCache.Runs.{pipeline2-Inv}
use relative_q.FlowCache.Invariant.{In, IsStore}
use relative_q.FlowCache.Moves.{remove-Gone}
use relative_q.FlowCache.Lend.{free_entry-IsStore, update_other}
use relative_q.FlowCache.Change.{same-IsStore, gone-IsStore}

module _ {Key : Type 0} (ops : FpOps Key) (mask : ℕ) (laws : FpLaws ops mask) where
  -- Entry `n` alone has gone from the table; the other entries keep their keys and times.
  pub record IsTaken (n : ℕ) (st st' : Store Key) : Type 0 where
    pub store : IsStore ops mask laws 0 st'
    pub left : (m : ℕ) → In mask st'.fields.table m ↔ (In mask st.fields.table m × (m ≢ n))
    pub key_lem : st'.key ≡ st.key
    pub ts_lem : (m : ℕ) → m ≢ n → st'.last_ts m ≡ st.last_ts m
    pub max_lem : st'.max_entries ≡ st.max_entries

  -- The table holds the entries of before, with their keys and times.
  pub record IsSame (st st' : Store Key) : Type 0 where
    pub store : IsStore ops mask laws 0 st'
    pub left : (m : ℕ) → In mask st'.fields.table m ↔ In mask st.fields.table m
    pub key_lem : st'.key ≡ st.key
    pub ts_lem : st'.last_ts ≡ st.last_ts

  module _ (n : ℕ) (o : n ≢ 0) (st : Store Key) (inv : IsStore ops mask laws 0 st) where
    abbrev r : ℕ × Head × Fields
    r = remove_slot true ops st.key n st.head st.fields

    abbrev unlinked : Store Key
    unlinked = record st { head = r.1; fields = r.2 }

    -- `remove` with `free_entry` behind it, or without.
    abbrev Removed : Type 0
    Removed =
        (In mask st.fields.table n × (r.0 ≡ n) × IsTaken n st (free_entry n unlinked))
        ⊎ ((¬ In mask st.fields.table n) × (r.0 ≡ 0) × IsSame st unlinked)

    pub remove-Removed : Removed
    unfolding free_entry
    remove-Removed =
        let (sound, out) =
          remove-Gone ops st.key mask laws st.head inv.mask_lem st.fields inv.valid inv.marked n
            o in
        elim out [
          | inl (x, e, en, eq) ↦
              let lent = gone-IsStore ops mask laws st inv (r.1) (r.2) (r.0) n sound x en eq in
              inl (
                x,
                e,
                record {
                  store = free_entry-IsStore ops mask laws n o unlinked lent;
                  left = eq;
                  key_lem = refl;
                  ts_lem = λ m ne. update_other st.last_ts n 0 m ne;
                  max_lem = refl;
                },
              )
          | inr (x, e, eh, same) ↦ inr (
            x,
            e,
            record {
              store =
                  same-IsStore ops mask laws 0 st inv (r.1) (r.2) (r.0) sound
                    (ap (λ (h : Head). h.nb) eh) same;
              left = same;
              key_lem = refl;
              ts_lem = refl;
            },
          )
        ]

  IsSame-refl : (st : Store Key) → IsStore ops mask laws 0 st → IsSame st st
  IsSame-refl st inv = record {
    store = inv;
    left = λ m. ((λ x. x), λ x. x);
    key_lem = refl;
    ts_lem = refl;
  }

  module _ (n : ℕ) (st : Store Key) (inv : IsStore ops mask laws 0 st) where
    out_of_range : ((n == 0) || ltb st.max_entries n) ≡ true → ¬ In mask st.fields.table n
    out_of_range e x =
        let l = inv.in_le n x in
        elim (Bool-cases (n == 0)) [
          | inl z ↦ let (b, s, r, o, q) = x in o ((==_iff n 0).0 z)
          | inr z ↦ ground arith
        ]

    abbrev pub Outcome : Bool × Store Key → Type 0
    Outcome r =
        (In mask st.fields.table n × (r.0 ≡ true) × IsTaken n st (r.1))
        ⊎ ((¬ In mask st.fields.table n) × (r.0 ≡ false) × IsSame st (r.1))

    -- On storage that keeps its promises, `remove_idx` of an entry of the table takes it out and
    -- frees it, and gives 1. For any other index it gives 0 and the table keeps its entries. The storage keeps its promises.
    pub remove_idx-Outcome : Outcome (remove_idx ops n st)
    unfolding remove_idx
    remove_idx-Outcome = elim (Bool-cases ((n == 0) || ltb st.max_entries n)) [
      | inl e ↦ rw (remove_idx, e) (inr (out_of_range e, refl, IsSame-refl st inv))
      | inr e ↦
          let o : n ≢ 0 = ne_of_test n 0 (ground arith) in
          elim (remove-Removed n o st inv) [
            | inl (x, er, taken) ↦
                let z = test_false ((r n o st inv).0) 0 (λ w. o (sym er ∙ w)) in
                rw (remove_idx, e, z) (inl (x, refl, taken))
            | inr (x, er, same) ↦
                let z = (==_iff ((r n o st inv).0) 0).1 er in
                rw (remove_idx, e, z) (inr (x, refl, same))
          ]
    ]

    -- A round of `del_idx_bulk` takes the entry out of the table, unless its time is 0.
    pub del_idx-Outcome :
        (In mask st.fields.table n × (st.last_ts n ≢ 0) × IsTaken n st (del_idx ops n st))
        ⊎ (((In mask st.fields.table n → st.last_ts n ≡ 0)) × (del_idx ops n st ≡ st))
    unfolding del_idx
    del_idx-Outcome = elim (Bool-cases ((n == 0) || ltb st.max_entries n)) [
      | inl e ↦ rw (del_idx, e) (inr ((λ x. absurd (out_of_range e x)), refl))
      | inr e ↦ elim (Bool-cases (st.last_ts n == 0)) [
        | inl z ↦ rw (del_idx, e, z) (inr ((λ x. (==_iff (st.last_ts n) 0).0 z), refl))
        | inr z ↦
            let o : n ≢ 0 = ne_of_test n 0 (ground arith) in
            let ts = ne_of_test (st.last_ts n) 0 z in
            elim (remove-Removed n o st inv) [
              | inl (x, er, taken) ↦ rw (del_idx, e, z) (inl (x, ts, taken))
              | inr (x, er, same) ↦ elim (inv.covered n o o (ground arith)) [
                | inl i ↦ absurd (ts (inv.free_ts n i))
                | inr y ↦ absurd (x y)
              ]
            ]
      ]
    ]

  module _ (idxs : ℕ → ℕ) (st0 : Store Key) where
    -- The storage after the first `b` indices have been deleted.
    record IsDeleted (b : ℕ) (st : Store Key) : Type 0 where
      store : IsStore ops mask laws 0 st
      left :
          (m : ℕ)
          → In mask st.fields.table m
            ↔ (In mask st0.fields.table m × ((i : ℕ) → i < b → idxs i ≡ m → st0.last_ts m ≡ 0))
      key_lem : st.key ≡ st0.key
      ts_lem : (m : ℕ) → In mask st.fields.table m → st.last_ts m ≡ st0.last_ts m

    below : (i b : ℕ) → i < b + 1 → (i ≡ b) ⊎ (i < b)
    below i b l = ground arith

    IsDeleted-step :
        (b : ℕ) (st : Store Key) → IsDeleted b st → IsDeleted (b + 1) (del_idx ops (idxs b) st)
    IsDeleted-step b st p = elim (del_idx-Outcome (idxs b) st p.store) [
      | inl (x, z, taken) ↦ record {
        store = taken.store;
        left = λ m. (
          λ y.
              let (y', ne) = (taken.left m).0 y in
              let (y0, h) = (p.left m).0 y' in
              (
                y0,
                λ i l e. elim (below i b l) [
                  | inl q ↦ absurd (ne (sym e ∙ ap idxs q))
                  | inr u ↦ h i u e
                ],
              ),
          λ (y0, h).
              let y' = (p.left m).1 (y0, λ i u e. h i (omega arith) e) in
              (taken.left m).1
                (y', λ e. z (ap st.last_ts (sym e) ∙ p.ts_lem m y' ∙ h b (omega arith) (sym e))),
        );
        key_lem = taken.key_lem ∙ p.key_lem;
        ts_lem = λ m y. let (y', ne) = (taken.left m).0 y in taken.ts_lem m ne ∙ p.ts_lem m y';
      }
      | inr (z, same) ↦ subst (IsDeleted (b + 1)) (sym same) (record {
        store = p.store;
        left = λ m. (
          λ y.
              let (y0, h) = (p.left m).0 y in
              (
                y0,
                λ i l e. elim (below i b l) [
                  | inl q ↦
                      let here = sym e ∙ ap idxs q in
                      sym (p.ts_lem m y)
                      ∙ ap st.last_ts here
                      ∙ z (subst (In mask st.fields.table) here y)
                  | inr u ↦ h i u e
                ],
              ),
          λ (y0, h). (p.left m).1 (y0, λ i u e. h i (omega arith) e),
        );
        key_lem = p.key_lem;
        ts_lem = p.ts_lem;
      })
    ]

  -- A batch has ended: what is left of the entries is those that are not listed or have time 0.
  abbrev pub Deletes : (ℕ → ℕ) → ℕ → Store Key → Option (Store Key) → Type 0
  Deletes idxs nb_idxs st r =
      (st' : Store Key) × (r ≡ some st')
      × IsStore ops mask laws 0 st'
      × ((m : ℕ)
          → In mask st'.fields.table m
            ↔ (In mask st.fields.table m × ((i : ℕ) → i < nb_idxs → idxs i ≡ m → st.last_ts m ≡ 0)))
      × (st'.key ≡ st.key)
      × ((m : ℕ) → In mask st'.fields.table m → st'.last_ts m ≡ st.last_ts m)

  -- `del_idx_bulk` on storage that keeps its promises, with enough fuel and fewer than 2^32 - 104
  -- indices, ends; the storage keeps its promises, and an entry of the table is still there if it is
  -- not listed or its time is 0, and not otherwise. What stays keeps its key and its time.
  pub del_idx_bulk-Deletes :
      (idxs : ℕ → ℕ) (fuel nb_idxs : ℕ) (st : Store Key)
      → nb_idxs + 104 < 2 ^ 32
      → nb_idxs + 32 < fuel
      → IsStore ops mask laws 0 st
      → Deletes idxs nb_idxs st (del_idx_bulk ops idxs fuel nb_idxs st)
  unfolding del_idx_bulk
  del_idx_bulk-Deletes idxs fuel nb_idxs st l f inv =
      let (st', e, p) =
        pipeline2-Inv nb_idxs l (λ a b s. IsDeleted idxs st b s) (λ i st. st)
          (λ i st. del_idx ops (idxs i) st) (λ a b s u p. p)
          (λ a b s u u' p. IsDeleted-step idxs st b s p) fuel st f
          (record {
            store = inv;
            left = λ m. (λ x. (x, λ i u e. absurd (omega arith)), λ (x, h). x);
            key_lem = refl;
            ts_lem = λ m x. refl;
          }) in
      (st', e, p.store, p.left, p.key_lem, p.ts_lem)
