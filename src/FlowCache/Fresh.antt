-- ===== src/FlowCache/Fresh.antt =====
-- samples/fcache/src/fc_cache_generate.h: `cmp_key` in a pipeline that has at most taken entries
-- out since the scan.
use relative_q.Base.{
  ==_iff, ne_of_test, ◌⊎◌, ◌↔◌, ap, ℕ, ◌≡◌, ◌≢◌, ◌<◌, ◌∙◌, sym, inl, inr, refl, true, Bool, ◌==◌,
  not, ◌&&◌, Option-cases, arith, test_false, subst, Bool-cases,
}
use relative_q.Hash.Arch.Hits.{search, find-search, search-some, search-none}
use relative_q.Hash.Cuckoo.{Buckets}
use relative_q.Hash.Cuckoo.Valid.{IsValid}
use relative_q.FlowCache.Invariant.{In}
use relative_q.Hash.Cuckoo.Slots.{ap₂}
use relative_q.Hash.Fingerprint.{FpOps, FpCtx, match_node, scan_bk, cmp_key}
use relative_q.Hash.Fingerprint.Laws.{FpLaws, fp_nodes, fp_of, bucket0, bucket1}
use relative_q.Hash.Fingerprint.Find.{true-ne-false}
use relative_q.FlowCache.Lookup.{IsHashed, IsScanned, scan_bk-IsScanned, cmp_key-Hit}

module _ {Key : Type 0} (ops : FpOps Key) (mask : ℕ) (laws : FpLaws ops mask) where
  -- The hits are those of a bucket that held what the first bucket of the key still holds.
  pub record IsFresh (t : Buckets) (key : Key) (c : FpCtx Key) : Type 0 where
    pub scanned : IsScanned ops mask laws key c
    pub was : ℕ → ℕ
    pub hits_lem : c.fp_hits0 ≡ ops.find was c.fp
    pub still : (s : ℕ) → s < 16 → t.idx c.bk0 s ≢ 0 → was s ≡ t.key c.bk0 s

  -- Entries may have gone from the first table to the second, and nothing else has happened.
  abbrev pub Shrinks : Buckets → Buckets → Type 0
  Shrinks t t' = (b s : ℕ) → t'.idx b s ≢ 0 → (t'.idx b s ≡ t.idx b s) × (t'.key b s ≡ t.key b s)

  pub IsFresh-Shrinks :
      (t t' : Buckets) (key : Key) (c : FpCtx Key)
      → Shrinks t t'
      → IsFresh t key c
      → IsFresh t' key c
  IsFresh-Shrinks t t' key c sh p = record {
    scanned = p.scanned;
    was = p.was;
    hits_lem = p.hits_lem;
    still = λ s u o. let (ei, ek) = sh c.bk0 s o in p.still s u (λ z. o (ei ∙ z)) ∙ sym ek;
  }

  module _ (node_key : ℕ → Key) (t : Buckets) where
    pub scan_bk-IsFresh :
        (key : Key) (c : FpCtx Key)
        → IsHashed ops mask laws key c
        → IsFresh t key (scan_bk ops node_key t c)
    unfolding scan_bk
    scan_bk-IsFresh key c p = record {
      scanned = scan_bk-IsScanned ops mask laws node_key t key c p;
      was = t.key c.bk0;
      hits_lem = refl;
      still = λ s u o. refl;
    }

    abbrev test : ℕ → Key → ℕ → Bool
    test b key bit = not (t.idx b bit == 0) && (ops.cmp_fn key (node_key (t.idx b bit)) == 0)

    -- A bucket that holds the key gives a node.
    match_node-some :
        (b s : ℕ) (key : Key) (was : ℕ → ℕ) (fp : ℕ)
        → s < 16
        → t.idx b s ≢ 0
        → node_key (t.idx b s) ≡ key
        → was s ≡ fp
        → match_node ops node_key t b key (ops.find was fp) ≢ 0
    unfolding match_node
    match_node-some b s key was fp u o own e =
        let passes : test b key s ≡ true =
          let z = (laws.cmp_fn_iff key (node_key (t.idx b s))).1 (sym own) in
          let w = test_false (t.idx b s) 0 o in rw (w, z) refl in
        let same = find-search laws.find_lem was fp (test b key) in
        elim (Option-cases (search was fp (test b key) 16 0)) [
          | inl f ↦ absurd (
              true-ne-false (
                sym passes
                ∙ search-none was fp (test b key) 16 0 s f (omega arith) (omega arith) e))
          | inr (s', f) ↦
              let (l, u', k, p) = search-some was fp (test b key) 16 0 s' f in
              rw (match_node, same ∙ f) (λ z. absurd (true-ne-false (sym p ∙ rw z refl)))
        ]

    module _ (valid : IsValid (fp_nodes ops node_key mask laws) t) (key : Key) (c : FpCtx Key)
        (p : IsFresh t key c) where
      abbrev first : ℕ
      first = match_node ops node_key t c.bk0 c.key c.fp_hits0

      abbrev second : ℕ
      second = match_node ops node_key t c.bk1 c.key (ops.find (t.key c.bk1) c.fp)

      -- An entry of the table with the key is in one of the two buckets.
      found : (n : ℕ) → In mask t n → node_key n ≡ key → (first ≢ 0) ⊎ (second ≢ 0)
      found n (b, s, r, o, e) own =
          let h = p.scanned.hashed in
          let ne : t.idx b s ≢ 0 = λ z. o (sym e ∙ z) in
          let own' : node_key (t.idx b s) ≡ key = ap node_key e ∙ own in
          let tag : t.key b s ≡ c.fp =
            valid.owned b s r ne ∙ ap (fp_of ops mask) own' ∙ sym h.fp_lem in
          let named : (b' : ℕ) → b ≡ b' → node_key (t.idx b' s) ≡ c.key =
            λ b' q. ap (λ b. node_key (t.idx b s)) (sym q) ∙ own' ∙ sym h.key_lem in
          elim (valid.placed b s r ne) [
            | inl w ↦
                let q : b ≡ c.bk0 = w ∙ ap (bucket0 ops mask) own' ∙ sym h.bk0_lem in
                let ne' : t.idx c.bk0 s ≢ 0 = λ z. ne (ap (λ b. t.idx b s) q ∙ z) in
                inl (
                  subst (λ x. match_node ops node_key t c.bk0 c.key x ≢ 0) (sym p.hits_lem)
                    (match_node-some c.bk0 s c.key p.was c.fp (r.1) ne' (named c.bk0 q)
                      (p.still s (r.1) ne' ∙ ap (λ b. t.key b s) (sym q) ∙ tag)))
            | inr w ↦
                let q : b ≡ c.bk1 = w ∙ ap (bucket1 ops mask) own' ∙ sym h.bk1_lem in
                inr (
                  match_node-some c.bk1 s c.key (t.key c.bk1) c.fp (r.1)
                    (λ z. ne (ap (λ b. t.idx b s) q ∙ z)) (named c.bk1 q)
                    (ap (λ b. t.key b s) (sym q) ∙ tag))
          ]

      cmp_key-some : (first ≢ 0) ⊎ (second ≢ 0) → cmp_key ops node_key t c ≢ 0
      unfolding cmp_key
      cmp_key-some some_bucket = elim (Bool-cases (first == 0)) [
        | inr z ↦ rw (cmp_key, z) (ne_of_test first 0 z)
        | inl z ↦
            rw (cmp_key, z)
              (elim some_bucket [ inl o ↦ absurd (o ((==_iff first 0).0 z)) | inr o ↦ o ])
      ]

      -- `cmp_key` gives an entry exactly when the table holds it and it has the key.
      pub cmp_key-In :
          (n : ℕ) → n ≢ 0 → (cmp_key ops node_key t c ≡ n) ↔ (In mask t n × (node_key n ≡ key))
      cmp_key-In n o =
          let hit = cmp_key-Hit ops mask laws node_key t key c p.scanned in
          (
            λ e. subst (λ m. In mask t m × (node_key m ≡ key)) e (hit (λ z. o (sym e ∙ z))),
            λ (x, own).
                let (y, own') = hit (cmp_key-some (found n x own)) in
                let (b, s, r, ne, e) = x in
                let (b', s', r', ne', e') = y in
                let (q, q') =
                  valid.unique b s b' s' r r' (λ z. ne (sym e ∙ z)) (λ z. ne' (sym e' ∙ z))
                    (ap node_key e ∙ own ∙ sym own' ∙ ap node_key (sym e')) in
                sym e' ∙ sym (ap₂ t.idx q q') ∙ e,
          )
