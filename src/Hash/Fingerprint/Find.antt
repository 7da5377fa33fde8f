-- ===== src/Hash/Fingerprint/Find.antt =====
-- `find` in the tables of fingerprints.
use relative_q.Base.{
  ℕ, ◌≡◌, ◌≢◌, ◌⊎◌, ◌↔◌, inl, inr, ◌∙◌, sym, refl, ap, none, some, Bool, true, false, not, ◌&&◌,
  ◌==◌, Bool-cases, Option-cases, arith, if◌then◌else◌, ◌<◌, ◌≤◌,
}
use relative_q.Hash.Arch.Hits.{search, find-search, search-some, search-none, hits_loop}
use relative_q.Hash.Cuckoo.{Head, Buckets}
use relative_q.Hash.Cuckoo.Slots.{ap₂}
use relative_q.Hash.Cuckoo.Valid.{IsValid, Stored}
use relative_q.Hash.Fingerprint.{
  FpOps, FpCtx, buckets, find, hash_key, scan_bk, cmp_key, match_node,
}
use relative_q.Hash.Fingerprint.Laws.{FpLaws, fp_nodes, fp_of, bucket0, bucket1, IsHome-le}

-- The table holds node `n`.
abbrev pub Holds : {Key : Type 0} → FpOps Key → (ℕ → Key) → ℕ → Buckets → ℕ → Type 0
Holds ops node_key mask t n = Stored mask t (fp_of ops mask (node_key n)) n

pub true-ne-false : true ≢ false
true-ne-false p = cc

module _ {Key : Type 0} (ops : FpOps Key) (node_key : ℕ → Key) (mask : ℕ) (laws : FpLaws ops mask)
    (t : Buckets) (valid : IsValid (fp_nodes ops node_key mask laws) t) (key : Key) where
  abbrev test : ℕ → ℕ → Bool
  test b bit = not (t.idx b bit == 0) && (ops.cmp_fn key (node_key (t.idx b bit)) == 0)

  match_node-search :
      (b hits : ℕ)
      → hits ≡ ops.find (t.key b) (fp_of ops mask key)
      → match_node ops node_key t b key hits
        ≡ (elim (search (t.key b) (fp_of ops mask key) (test b) 16 0) as (λ _. ℕ) [
          | some s ↦ t.idx b s
          | none ↦ 0
        ])
  unfolding match_node
  match_node-search b hits e =
      ap (λ o. elim o as (λ _. ℕ) [ some s ↦ t.idx b s | none ↦ 0 ])
        (ap (hits_loop (test b) 32) e
          ∙ find-search laws.find_lem (t.key b) (fp_of ops mask key) (test b))

  test-pass : (b s : ℕ) → test b s ≡ true → (t.idx b s ≢ 0) × (key ≡ node_key (t.idx b s))
  test-pass b s e = (ground arith, (laws.cmp_fn_iff key (node_key (t.idx b s))).0 (ground arith))

  pass-test : (b s : ℕ) → t.idx b s ≢ 0 → key ≡ node_key (t.idx b s) → test b s ≡ true
  pass-test b s o e = let z = (laws.cmp_fn_iff key (node_key (t.idx b s))).1 e in ground (arith, z)

  -- A node that the scan of a bucket of the key gives is held and has the key.
  match_node_sound :
      (b hits n : ℕ)
      → hits ≡ ops.find (t.key b) (fp_of ops mask key)
      → (b ≡ bucket0 ops mask key) ⊎ (b ≡ bucket1 ops mask key)
      → n ≢ 0
      → match_node ops node_key t b key hits ≡ n
      → Holds ops node_key mask t n × (node_key n ≡ key)
  match_node_sound b hits n eh home o e =
      let m = match_node-search b hits eh in
      elim (Option-cases (search (t.key b) (fp_of ops mask key) (test b) 16 0)) [
        | inl f ↦ absurd (o (sym e ∙ rw f at m))
        | inr (s, f) ↦
            let (l, u, k, p) = search-some (t.key b) (fp_of ops mask key) (test b) 16 0 s f in
            let (ne, same) = test-pass b s p in
            let i : t.idx b s ≡ n = sym (rw f at m) ∙ e in
            let own : node_key n ≡ key = sym (same ∙ ap node_key i) in
            (
              (
                b,
                s,
                (IsHome-le ops mask key b home, omega arith),
                o,
                k ∙ ap (fp_of ops mask) (sym own),
                i,
              ),
              own,
            )
      ]

  -- Where the scan of a bucket gives nothing, no slot of it holds a node with the key.
  match_node-none :
      (b hits s : ℕ)
      → hits ≡ ops.find (t.key b) (fp_of ops mask key)
      → b ≤ mask
      → match_node ops node_key t b key hits ≡ 0
      → s < 16
      → t.idx b s ≢ 0
      → key ≢ node_key (t.idx b s)
  match_node-none b hits s eh h e u o same =
      let m = match_node-search b hits eh in
      elim (Option-cases (search (t.key b) (fp_of ops mask key) (test b) 16 0)) [
        | inr (s', f) ↦
            let (l, u', k, p) = search-some (t.key b) (fp_of ops mask key) (test b) 16 0 s' f in
            (test-pass b s' p).0 (sym (rw f at m) ∙ e)
        | inl f ↦
            let own = valid.owned b s (h, u) o ∙ ap (fp_of ops mask) (sym same) in
            let no =
              search-none (t.key b) (fp_of ops mask key) (test b) 16 0 s f (omega arith)
                (omega arith) own in
            true-ne-false (sym (pass-test b s o same) ∙ no)
      ]

-- A key has one node.
pub same_node :
    {Key : Type 0} (ops : FpOps Key) (node_key : ℕ → Key) (mask : ℕ) (laws : FpLaws ops mask)
    (t : Buckets)
    → IsValid (fp_nodes ops node_key mask laws) t
    → (a b : ℕ) → Holds ops node_key mask t a
    → Holds ops node_key mask t b
    → node_key a ≡ node_key b
    → a ≡ b
same_node ops node_key mask laws t valid a b (x, s, r, o, ek, ei) (x', s', r', o', ek', ei') e =
    let (p, q) =
      valid.unique x s x' s' r r' (λ w. o (sym ei ∙ w)) (λ w. o' (sym ei' ∙ w))
        (ap node_key ei ∙ e ∙ ap node_key (sym ei')) in
    sym ei ∙ ap₂ t.idx p q ∙ ei'

module _ {Key : Type 0} (ops : FpOps Key) (node_key : ℕ → Key) (h : Head) (laws : FpLaws ops h.mask)
    (t : Buckets) (valid : IsValid (fp_nodes ops node_key h.mask laws) t) where
  -- `find` is the scan of the first bucket of the key and then of the second.
  find-match_node :
      (ctx : FpCtx Key) (key : Key)
      → find ops node_key ctx h t key ≡ (
          let (b0, b1) : ℕ × ℕ = (bucket0 ops h.mask key, bucket1 ops h.mask key) in
          let node =
            match_node ops node_key t b0 key (ops.find (t.key b0) (fp_of ops h.mask key)) in
          let second =
            match_node ops node_key t b1 key (ops.find (t.key b1) (fp_of ops h.mask key)) in
          if node == 0 then second else node)
  unfolding find cmp_key scan_bk hash_key buckets
  find-match_node ctx key = refl

  -- In a valid table `find` gives a node, not NULL, exactly when the table holds that node and the
  -- node has the key, whatever its context holds before.
  pub find-Holds :
      (ctx : FpCtx Key) (key : Key) (n : ℕ)
      → n ≢ 0
      → (find ops node_key ctx h t key ≡ n) ↔ (Holds ops node_key h.mask t n × (node_key n ≡ key))
  find-Holds ctx key n o =
      let b0 = bucket0 ops h.mask key in
      let b1 = bucket1 ops h.mask key in
      let first = match_node ops node_key t b0 key (ops.find (t.key b0) (fp_of ops h.mask key)) in
      let second = match_node ops node_key t b1 key (ops.find (t.key b1) (fp_of ops h.mask key)) in
      let f = find-match_node ctx key in
      let there : (b' s b : ℕ)
          → b ≡ b'
          → match_node ops node_key t b' key (ops.find (t.key b') (fp_of ops h.mask key)) ≡ 0
          → t.idx b s ≢ 0
          → key ≡ node_key (t.idx b s)
          → s < 16
          → ¬ ((b' ≡ bucket0 ops h.mask key) ⊎ (b' ≡ bucket1 ops h.mask key)) =
        λ b' s b wb z ne own u home.
          match_node-none ops node_key h.mask laws t valid key b' _ s refl
            (IsHome-le ops h.mask key b' home) z u (λ v. ne (ap (λ b. t.idx b s) wb ∙ v))
            (own ∙ ap (λ b. node_key (t.idx b s)) wb) in
      let sound = match_node_sound ops node_key h.mask laws t valid key in
      elim (Bool-cases (first == 0)) [
        | inr z ↦
            let q : find ops node_key ctx h t key ≡ first = rw z at f in
            let (st, own) = sound b0 _ first refl (inl refl) (ground arith) refl in
            (
              λ p. sound b0 _ n refl (inl refl) o (sym q ∙ p),
              λ (st', own').
                  q ∙ same_node ops node_key h.mask laws t valid first n st st' (own ∙ sym own'),
            )
        | inl z ↦
            let q : find ops node_key ctx h t key ≡ second = rw z at f in
            (
              λ p. sound b1 _ n refl (inr refl) o (sym q ∙ p),
              λ ((b, s, (l, u), m, ek, ei), own).
                  let ne : t.idx b s ≢ 0 = λ w. m (sym ei ∙ w) in
                  let own' : key ≡ node_key (t.idx b s) = sym own ∙ ap node_key (sym ei) in
                  elim (valid.placed b s (l, u) ne) [
                    | inl w ↦
                        let wb : b ≡ b0 = w ∙ ap (bucket0 ops h.mask) (sym own') in
                        absurd (there b0 s b wb (ground arith) ne own' u (inl refl))
                    | inr w ↦
                        let wb : b ≡ b1 = w ∙ ap (bucket1 ops h.mask) (sym own') in
                        elim (Bool-cases (second == 0)) [
                          | inl z' ↦ absurd (there b1 s b wb (ground arith) ne own' u (inr refl))
                          | inr z' ↦
                              let (st, own2) =
                                sound b1 _ second refl (inr refl) (ground arith) refl in
                              q
                              ∙ same_node ops node_key h.mask laws t valid second n st
                                  (b, s, (l, u), m, ek, ei) (own2 ∙ sym own)
                        ]
                  ],
            )
      ]
