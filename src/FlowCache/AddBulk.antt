-- ===== src/FlowCache/AddBulk.antt =====
-- samples/fcache/src/fc_cache_generate.h: `add_bulk`, against the entries and their times.
use relative_q.Base.{ℕ, ◌≡◌, ◌≤◌, ◌<◌, ◌+◌, ◌^◌, ap, refl, arith}
use relative_q.Hash.Fingerprint.{FpOps}
use relative_q.Hash.Fingerprint.Laws.{FpLaws}
use relative_q.FlowCache.{Store}
use relative_q.FlowCache.Bulk.{Batch, add_hash_stage, add_stage, add_bulk, fill}
use relative_q.FlowCache.Runs.{pipeline2-Inv}
use relative_q.FlowCache.Invariant.{IsStore, Spares, Spares-trans}
use relative_q.FlowCache.Fill.{fill-IsFilled}
use relative_q.FlowCache.FindAdd.{Adds, IsLive, IsLive-Spares, filled-IsAdded}
use relative_q.FlowCache.Batches.{put-elim}

module _ {Key : Type 0} (ops : FpOps Key) (mask : ℕ) (laws : FpLaws ops mask) (now : ℕ)
    (keys : ℕ → Key) (st0 : Store Key) where
  -- The keys below `a` have been hashed, and those below `b` added.
  record IsAdding (a b : ℕ) (s : Batch Key) : Type 0 where
    store : IsStore ops mask laws 0 s.fc.store
    kept : Spares ops mask laws now st0 s.fc.store
    hashed : (i : ℕ) → b ≤ i → i < a → s.hashes i ≡ ops.hash_fn (keys i) mask
    done : (i : ℕ) → i < b → IsLive ops mask laws now s.fc.store (keys i) (s.results i)

  module _ (a b : ℕ) (s : Batch Key) (inv : IsAdding a b s) where
    add_hash_stage-IsAdding : IsAdding (a + 1) b (add_hash_stage ops keys a s)
    unfolding add_hash_stage
    add_hash_stage-IsAdding = record {
      store = inv.store;
      kept = inv.kept;
      hashed = λ i u v.
          put-elim (λ i h. h ≡ ops.hash_fn (keys i) mask) s.hashes a
            (ops.hash_fn (keys a) s.fc.store.head.mask) i
            (ap (ops.hash_fn (keys a)) inv.store.mask_lem) (λ ne. inv.hashed i u (omega arith));
      done = inv.done;
    }

    add_stage-IsAdding : b < a → IsAdding a (b + 1) (add_stage ops keys now b s)
    unfolding add_stage
    add_stage-IsAdding l =
        let st = s.fc.store in
        let r = fill ops (s.hashes b) (keys b) now s.fc in
        let p =
          filled-IsAdded ops mask laws now (keys b) st st (r.0) (r.1.store) (λ n i t. (i, refl, t))
            (fill-IsFilled ops mask laws (s.hashes b) (keys b) now s.fc inv.store
              (inv.hashed b (omega arith) l)) in
        record {
          store = p.store;
          kept = Spares-trans ops mask laws now st0 st (r.1.store) inv.kept p.spares;
          hashed = λ i u v. inv.hashed i (omega arith) v;
          done = λ i u.
              put-elim (λ i n. IsLive ops mask laws now (r.1.store) (keys i) n) s.results b (r.0) i
                p.live
                (λ ne.
                  IsLive-Spares ops mask laws now st (r.1.store) (keys i) (s.results i) p.spares
                    (inv.done i (omega arith)));
        }

module _ {Key : Type 0} (ops : FpOps Key) (mask : ℕ) (laws : FpLaws ops mask) (now : ℕ) where
  -- `add_bulk` on storage that keeps its promises, with enough fuel and fewer than 2^32 - 104 keys,
  -- ends and leaves such storage. Each result is NULL or an entry of the table that has the key and
  -- the present time, and an entry that had this time before is still there with its key.
  pub add_bulk-Adds :
      (keys : ℕ → Key) (fuel nb_keys : ℕ) (b : Batch Key)
      → nb_keys + 104 < 2 ^ 32
      → nb_keys + 32 < fuel
      → IsStore ops mask laws 0 b.fc.store
      → Adds ops mask laws now keys nb_keys b (add_bulk ops keys fuel nb_keys now b)
  unfolding add_bulk
  add_bulk-Adds keys fuel nb_keys b l f inv =
      let st = b.fc.store in
      let (s, e, p) =
        pipeline2-Inv nb_keys l (IsAdding ops mask laws now keys st) (add_hash_stage ops keys)
          (add_stage ops keys now)
          (λ a b s u p. add_hash_stage-IsAdding ops mask laws now keys st a b s p)
          (λ a b s u u' p. add_stage-IsAdding ops mask laws now keys st a b s p u) fuel b f
          (record {
            store = inv;
            kept = λ n i t. (i, refl, t);
            hashed = λ i u v. absurd (omega arith);
            done = λ i u. absurd (omega arith);
          }) in
      (s, e, p.store, p.done, p.kept)
