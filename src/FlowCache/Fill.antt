-- ===== src/FlowCache/Fill.antt =====
-- samples/fcache/src/fc_cache_generate.h: an entry of the free list goes into the table, as
-- `findadd_bulk` and `add_bulk` do it.
use relative_q.Base.{
  ℕ, ◌≡◌, ◌≢◌, ◌⊎◌, ◌↔◌, ◌∙◌, sym, ap, subst, inl, inr, true, refl, ◌==◌, Bool-cases, test_false,
  ne_of_test, ==_iff,
}
use relative_q.Hash.Arch.{Hash}
use relative_q.Hash.Fingerprint.{FpOps}
use relative_q.Hash.Fingerprint.Laws.{FpLaws}
use relative_q.Hash.Fingerprint.Fields.{insert_with}
use relative_q.Queue.Links.{update}
use relative_q.Queue.Slist.{Queue}
use relative_q.FlowCache.{Store, Cache}
use relative_q.FlowCache.Entries.{free_entry, store_entry, set_key}
use relative_q.FlowCache.Bulk.{fill, touch}
use relative_q.FlowCache.Invariant.{In, IsStore}
use relative_q.FlowCache.Moves.{insert-Inserted}
use relative_q.FlowCache.Lend.{free_entry-IsStore, alloc_entry-Allocated, update_other, update_hit}
use relative_q.FlowCache.Change.{
  write-IsStore, touch-IsStore, same-IsStore, added-IsStore, set_key-same, set_key-other,
}

module _ {Key : Type 0} (ops : FpOps Key) (mask : ℕ) (laws : FpLaws ops mask) where
  module _ (n : ℕ) (o : n ≢ 0) (hash : Hash) (k : Key) (now : ℕ) (st : Store Key)
      (inv : IsStore ops mask laws n st) (eh : hash ≡ ops.hash_fn k mask) where
    abbrev stored : ℕ × Store Key
    stored = store_entry ops n hash k now st

    -- The entry on loan is in the table, or still on loan: there is no room, or an entry with the
    -- key is given.
    abbrev Put : Type 0
    Put =
        ((stored.0 ≡ 0)
          × IsStore ops mask laws 0 (stored.1)
          × ((m : ℕ) → In mask (stored.1).fields.table m ↔ (In mask st.fields.table m ⊎ (m ≡ n))))
        ⊎ (IsStore ops mask laws n (stored.1)
            × ((m : ℕ) → In mask (stored.1).fields.table m ↔ In mask st.fields.table m)
            × ((stored.0 ≡ n)
                ⊎ ((stored.0 ≢ 0)
                    × (stored.0 ≢ n)
                    × In mask st.fields.table (stored.0)
                    × (st.key (stored.0) ≡ k))))

    abbrev written : Store Key
    written = record st { key = set_key st.key n k; last_ts = update st.last_ts n now }

    store_entry-Put : Put
    unfolding store_entry
    store_entry-Put =
        let own : set_key st.key n k n ≡ k = set_key-same st.key n k n refl in
        let inv' = write-IsStore ops mask laws n st inv k now in
        let r = insert_with true ops (set_key st.key n k) hash n st.head st.fields in
        let (sound, out) =
          insert-Inserted ops (set_key st.key n k) mask laws st.head inv.mask_lem st.fields
            inv'.valid inv'.marked n o hash (eh ∙ ap (λ k. ops.hash_fn k mask) (sym own))
            inv.out_table in
        elim out [
          | inl (e0, en, eq) ↦
              inl
                (e0, added-IsStore ops mask laws n written inv' (r.1) (r.2) (r.0) sound o en eq, eq)
          | inr (en, same, which) ↦ inr (
            same-IsStore ops mask laws n written inv' (r.1) (r.2) (r.0) sound en same,
            same,
            elim which [
              | inl e ↦ inl e
              | inr (z, ne, i, e) ↦
                  inr (z, ne, i, sym (set_key-other st.key n k (r.0) ne) ∙ e ∙ own)
            ],
          )
        ]

  -- What an operation for a key and a time gives: entries stay as they are, but for the result,
  -- which is NULL or an entry of the table that has the key and the time and is the only new one.
  pub record IsFilled (k : Key) (now : ℕ) (st : Store Key) (res : ℕ) (st' : Store Key)
      : Type 0 where
    pub store : IsStore ops mask laws 0 st'
    pub stays :
        (m : ℕ)
        → In mask st.fields.table m
        → In mask st'.fields.table m
          × (st'.key m ≡ st.key m)
          × ((st'.last_ts m ≡ st.last_ts m) ⊎ ((m ≡ res) × (st'.last_ts m ≡ now)))
    pub fresh : (m : ℕ) → In mask st'.fields.table m → In mask st.fields.table m ⊎ (m ≡ res)
    pub live : res ≢ 0 → In mask st'.fields.table res × (st'.key res ≡ k) × (st'.last_ts res ≡ now)

  module _ (n : ℕ) (o : n ≢ 0) (hash : Hash) (k : Key) (now : ℕ) (a : Store Key) (q : Queue)
      (inv : IsStore ops mask laws n (record a { free = q })) where
    abbrev taken : Store Key
    taken = record a { free = q }

    abbrev r : ℕ × Store Key
    r = store_entry ops n hash k now taken

    in-other : (m : ℕ) → In mask a.fields.table m → m ≢ n
    in-other m x w = inv.out_table (subst (In mask a.fields.table) w x)

    -- An entry of the table keeps its key and its time while another one is written and freed.
    key_kept : (m : ℕ) → In mask a.fields.table m → set_key a.key n k m ≡ a.key m
    key_kept m x = set_key-other a.key n k m (in-other m x)

    ts_kept : (m : ℕ) → In mask a.fields.table m → update a.last_ts n now m ≡ a.last_ts m
    ts_kept m x = update_other a.last_ts n now m (in-other m x)

    freed_kept :
        (m : ℕ) → In mask a.fields.table m → update (update a.last_ts n now) n 0 m ≡ a.last_ts m
    freed_kept m x = update_other (update a.last_ts n now) n 0 m (in-other m x) ∙ ts_kept m x

    new-IsFilled :
        IsStore ops mask laws 0 (r.1)
        → ((m : ℕ) → In mask (r.1).fields.table m ↔ (In mask a.fields.table m ⊎ (m ≡ n)))
        → IsFilled k now a n (r.1)
    unfolding store_entry
    new-IsFilled inv1 eq = record {
      store = inv1;
      stays = λ m x. ((eq m).1 (inl x), key_kept m x, inl (ts_kept m x));
      fresh = λ m x. (eq m).0 x;
      live = λ z.
          ((eq n).1 (inr refl), set_key-same a.key n k n refl, update_hit a.last_ts n now n refl);
    }

    module _ (inv1 : IsStore ops mask laws n (r.1))
        (same : (m : ℕ) → In mask (r.1).fields.table m ↔ In mask a.fields.table m) where
      full-IsFilled : IsFilled k now a 0 (free_entry n (r.1))
      unfolding store_entry free_entry
      full-IsFilled = record {
        store = free_entry-IsStore ops mask laws n o (r.1) inv1;
        stays = λ m x. ((same m).1 x, key_kept m x, inl (freed_kept m x));
        fresh = λ m x. inl ((same m).0 x);
        live = λ z. absurd (z refl);
      }

      duplicate-IsFilled :
          In mask a.fields.table (r.0)
          → a.key (r.0) ≡ k
          → IsFilled k now a (r.0) (touch (r.0) now (free_entry n (r.1)))
      unfolding store_entry free_entry touch
      duplicate-IsFilled i e0 =
          let ts : ℕ → ℕ = update (update a.last_ts n now) n 0 in
          record {
            store =
                touch-IsStore ops mask laws 0 (free_entry n (r.1))
                  (free_entry-IsStore ops mask laws n o (r.1) inv1) (r.0) now ((same (r.0)).1 i);
            stays = λ m x. (
              (same m).1 x,
              key_kept m x,
              elim (Bool-cases (m == r.0)) [
                | inl q ↦ let z = (==_iff m (r.0)).0 q in inr (z, update_hit ts (r.0) now m z)
                | inr q ↦ inl (update_other ts (r.0) now m (ne_of_test m (r.0) q) ∙ freed_kept m x)
              ],
            );
            fresh = λ m x. inl ((same m).0 x);
            live =
                λ z. ((same (r.0)).1 i, key_kept (r.0) i ∙ e0, update_hit ts (r.0) now (r.0) refl);
          }

  module _ (hash : Hash) (k : Key) (now : ℕ) (fc : Cache Key)
      (inv : IsStore ops mask laws 0 fc.store) (eh : hash ≡ ops.hash_fn k mask) where
    abbrev Fills : ℕ × Cache Key → Type 0
    Fills r = IsFilled k now fc.store (r.0) ((r.1).store)

    -- `fill` keeps the promises of the storage.
    pub fill-IsFilled : Fills (fill ops hash k now fc)
    unfolding fill
    fill-IsFilled = elim (alloc_entry-Allocated ops mask laws fc.store inv) [
      | inl e ↦
          rw (fill, e)
            (record {
              store = inv;
              stays = λ m x. (x, refl, inl refl);
              fresh = λ m x. inl x;
              live = λ z. absurd (z refl);
            })
      | inr (n, q, o, e, inv') ↦
          let z = test_false n 0 o in
          let st : Store Key = record fc.store { free = q } in
          let r = store_entry ops n hash k now st in
          elim (store_entry-Put n o hash k now st inv' eh) [
            | inl (e0, inv1, eq) ↦
                let w = (==_iff (r.0) 0).1 e0 in
                rw (fill, e, z, w) (new-IsFilled n o hash k now fc.store q inv' inv1 eq)
            | inr (inv1, same, inl e0) ↦
                let w = test_false (r.0) 0 (λ z. o (sym e0 ∙ z)) in
                let w1 = (==_iff (r.0) n).1 e0 in
                rw (fill, e, z, w, w1) (full-IsFilled n o hash k now fc.store q inv' inv1 same)
            | inr (inv1, same, inr (nz, ne, i, e0)) ↦
                let w = test_false (r.0) 0 nz in
                let w1 = test_false (r.0) n ne in
                rw (fill, e, z, w, w1)
                  (duplicate-IsFilled n o hash k now fc.store q inv' inv1 same i e0)
          ]
    ]
