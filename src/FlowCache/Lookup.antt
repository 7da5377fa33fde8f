-- ===== src/FlowCache/Lookup.antt =====
-- samples/fcache/src/fc_cache_generate.h: `cmp_key` in a pipeline, where the table may have changed
-- since the scan that gave the hits.
use relative_q.Base.{
  if-elim, ℕ, ◌≡◌, ◌≢◌, ◌≤◌, ◌<◌, ◌^◌, ◌∙◌, sym, ap, subst, inl, inr, refl, Bool, ◌==◌, not, ◌&&◌,
  Option-cases, arith,
}
use Prim.Native.Nat.{bit_and}
use relative_q.Base.Bits.{bit_and-le}
use relative_q.Hash.Arch.{find_u32x16_gen}
use relative_q.Hash.Arch.Hits.{hits_loop}
use relative_q.Hash.Arch.Stale.{hits_loop-lt, find_gen-lt}
use relative_q.Hash.Cuckoo.{Head, Buckets}
use relative_q.Hash.Fingerprint.{
  FpOps, FpCtx, match_node, cmp_key, cmp_key_empties, hash_key_2bk, scan_bk, scan_bk_empties,
  buckets,
}
use relative_q.Hash.Fingerprint.Laws.{FpLaws, fp_of, bucket0, bucket1}
use relative_q.FlowCache.Invariant.{In}

module _ {Key : Type 0} (ops : FpOps Key) (mask : ℕ) (laws : FpLaws ops mask) where
  -- The context of a key that has been hashed.
  pub record IsHashed (key : Key) (c : FpCtx Key) : Type 0 where
    pub hash_lem : c.hash ≡ ops.hash_fn key mask
    pub key_lem : c.key ≡ key
    pub fp_lem : c.fp ≡ fp_of ops mask key
    pub bk0_lem : c.bk0 ≡ bucket0 ops mask key
    pub bk1_lem : c.bk1 ≡ bucket1 ops mask key
    pub bk0_le : c.bk0 ≤ mask
    pub bk1_le : c.bk1 ≤ mask

  -- The context of a key whose first bucket has been scanned at some time.
  pub record IsScanned (key : Key) (c : FpCtx Key) : Type 0 where
    pub hashed : IsHashed key c
    pub hits_lt : c.fp_hits0 < 2 ^ 16

  module _ (node_key : ℕ → Key) where
    pub hash_key-IsHashed :
        (h : Head) (key : Key) (c : FpCtx Key)
        → h.mask ≡ mask
        → IsHashed key (hash_key_2bk ops node_key h key c)
    unfolding hash_key_2bk buckets
    hash_key-IsHashed h key c e = record {
      hash_lem = ap (ops.hash_fn key) e;
      key_lem = refl;
      fp_lem = ap (λ m. fp_of ops m key) e;
      bk0_lem = ap (λ m. bucket0 ops m key) e;
      bk1_lem = ap (λ m. bucket1 ops m key) e;
      bk0_le =
          subst (λ m. bit_and ((ops.hash_fn key h.mask).val0) h.mask ≤ m) e (bit_and-le _ h.mask);
      bk1_le =
          subst (λ m. bit_and ((ops.hash_fn key h.mask).val1) h.mask ≤ m) e (bit_and-le _ h.mask);
    }

    pub scan_bk-IsScanned :
        (t : Buckets) (key : Key) (c : FpCtx Key)
        → IsHashed key c
        → IsScanned key (scan_bk ops node_key t c)
    unfolding scan_bk
    scan_bk-IsScanned t key c p = record {
      hashed = record {
        hash_lem = p.hash_lem;
        key_lem = p.key_lem;
        fp_lem = p.fp_lem;
        bk0_lem = p.bk0_lem;
        bk1_lem = p.bk1_lem;
        bk0_le = p.bk0_le;
        bk1_le = p.bk1_le;
      };
      hits_lt = subst (λ m. m < 2 ^ 16) (sym (laws.find_lem _ _)) (find_gen-lt (t.key c.bk0) c.fp);
    }

    pub scan_bk_empties-IsScanned :
        (t : Buckets) (key : Key) (c : FpCtx Key)
        → IsHashed key c
        → IsScanned key (scan_bk_empties ops node_key t c)
    unfolding scan_bk_empties
    scan_bk_empties-IsScanned t key c p = record {
      hashed = record {
        hash_lem = p.hash_lem;
        key_lem = p.key_lem;
        fp_lem = p.fp_lem;
        bk0_lem = p.bk0_lem;
        bk1_lem = p.bk1_lem;
        bk0_le = p.bk0_le;
        bk1_le = p.bk1_le;
      };
      hits_lt =
          subst (λ m. m < 2 ^ 16) (sym (ap (λ r. r.0) (laws.find_2_lem (t.key c.bk0) c.fp 0)))
            (find_gen-lt (t.key c.bk0) c.fp);
    }

    -- An entry of the table that has the key.
    abbrev pub Hit : Buckets → Key → ℕ → Type 0
    Hit t key n = n ≢ 0 → In mask t n × (node_key n ≡ key)

    match_node-Hit :
        (t : Buckets) (b : ℕ) (key : Key) (hits : ℕ)
        → b ≤ mask
        → hits < 2 ^ 16
        → Hit t key (match_node ops node_key t b key hits)
    unfolding match_node
    match_node-Hit t b key hits l w =
        let test : ℕ → Bool =
          λ bit. not (t.idx b bit == 0) && (ops.cmp_fn key (node_key (t.idx b bit)) == 0) in
        elim (Option-cases (hits_loop test 32 hits)) [
          | inl e ↦ rw (match_node, e) (λ z. absurd (z refl))
          | inr (s, e) ↦
              let (u, p) = hits_loop-lt test 32 hits s w e in
              rw (match_node, e)
                (λ z. (
                  (b, s, (l, u), z, refl),
                  sym ((laws.cmp_fn_iff key (node_key (t.idx b s))).0 (ground arith)),
                ))
        ]

    module _ (t : Buckets) (key : Key) (c : FpCtx Key) (p : IsScanned key c) where
      rename : {n : ℕ} → Hit t c.key n → Hit t key n
      rename h z = let (i, e) = h z in (i, e ∙ p.hashed.key_lem)

      abbrev first : ℕ
      first = match_node ops node_key t c.bk0 c.key c.fp_hits0

      first-Hit : Hit t key first
      first-Hit = rename (match_node-Hit t c.bk0 c.key c.fp_hits0 p.hashed.bk0_le p.hits_lt)

      second-Hit :
          (hits : ℕ)
          → hits ≡ find_u32x16_gen (t.key c.bk1) c.fp
          → Hit t key (match_node ops node_key t c.bk1 c.key hits)
      second-Hit hits e = rename (
          match_node-Hit t c.bk1 c.key hits p.hashed.bk1_le
            (subst (λ m. m < 2 ^ 16) (sym e) (find_gen-lt (t.key c.bk1) c.fp)))

      -- `cmp_key` gives NULL or an entry of the table that has the key, whatever has happened
      -- since the scan.
      pub cmp_key-Hit : Hit t key (cmp_key ops node_key t c)
      unfolding cmp_key
      cmp_key-Hit =
          if-elim (Hit t key) (first == 0)
            (second-Hit (ops.find (t.key c.bk1) c.fp) (laws.find_lem (t.key c.bk1) c.fp)) first-Hit

      -- `cmp_key_empties` does too, and keeps the hash and the buckets in the context.
      pub cmp_key_empties-Hit :
          Hit t key ((cmp_key_empties ops node_key t c).0)
          × IsHashed key ((cmp_key_empties ops node_key t c).1)
      unfolding cmp_key_empties
      cmp_key_empties-Hit =
          let hits = (ops.find_2 (t.key c.bk1) c.fp 0).0 in
          let same = ap (λ r. r.0) (laws.find_2_lem (t.key c.bk1) c.fp 0) in
          let h = p.hashed in
          if-elim (λ (r : ℕ × FpCtx Key). Hit t key (r.0) × IsHashed key (r.1)) (first == 0)
            (
              second-Hit hits same,
              record {
                hash_lem = h.hash_lem;
                key_lem = h.key_lem;
                fp_lem = h.fp_lem;
                bk0_lem = h.bk0_lem;
                bk1_lem = h.bk1_lem;
                bk0_le = h.bk0_le;
                bk1_le = h.bk1_le;
              },
            )
            (first-Hit, h)
