-- ===== src/Hash/Fingerprint/Duplicate.antt =====
-- The scan of `insert` for a node with the key of the new one.
use relative_q.Base.{
  ℕ, ◌≡◌, ◌≢◌, ◌⊎◌, inl, inr, ◌∙◌, sym, ap, Option, none, some, Bool, ◌==◌, ==_iff, Option-cases,
  arith, ◌<◌,
}
use relative_q.Hash.Arch.Hits.{search, find-search, search-some, search-none, hits_loop}
use relative_q.Hash.Cuckoo.{Buckets}
use relative_q.Hash.Cuckoo.Valid.{IsValid, InTable}
use relative_q.Hash.Fingerprint.{FpOps, duplicate}
use relative_q.Hash.Fingerprint.Laws.{
  FpLaws, fp_nodes, fp_of, fp_of_pos, bucket0, bucket1, IsHome-le,
}
use relative_q.Hash.Fingerprint.Find.{Holds, true-ne-false}
use relative_q.Hash.Arch.{find_u32x16_gen}

some-ne-none : {x : ℕ} → some x ≢ none
some-ne-none p = cc

module _ {Key : Type 0} (ops : FpOps Key) (node_key : ℕ → Key) (mask : ℕ) (laws : FpLaws ops mask)
    (t : Buckets) (valid : IsValid (fp_nodes ops node_key mask laws) t) (key : Key) (b : ℕ)
    (home : (b ≡ bucket0 ops mask key) ⊎ (b ≡ bucket1 ops mask key)) where
  abbrev test : ℕ → Bool
  test bit = ops.cmp_fn key (node_key (t.idx b bit)) == 0

  abbrev hits : ℕ
  hits = find_u32x16_gen (t.key b) (fp_of ops mask key)

  duplicate-search :
      duplicate ops node_key t b key hits
      ≡ (elim (search (t.key b) (fp_of ops mask key) test 16 0) as (λ _. Option ℕ) [
        | some s ↦ some (t.idx b s)
        | none ↦ none
      ])
  unfolding duplicate
  duplicate-search =
      ap (λ o. elim o as (λ _. Option ℕ) [ some s ↦ some (t.idx b s) | none ↦ none ])
        (ap (hits_loop test 32) (sym (laws.find_lem (t.key b) (fp_of ops mask key)))
          ∙ find-search laws.find_lem (t.key b) (fp_of ops mask key) test)

  -- A node that it finds is held and has the key.
  pub duplicate-some :
      (n : ℕ)
      → duplicate ops node_key t b key hits ≡ some n
      → Holds ops node_key mask t n × (node_key n ≡ key)
  duplicate-some n e = elim (Option-cases (search (t.key b) (fp_of ops mask key) test 16 0)) [
    | inl f ↦ absurd (some-ne-none (sym e ∙ rw f at duplicate-search))
    | inr (s, f) ↦
        let (l, u, k, p) = search-some (t.key b) (fp_of ops mask key) test 16 0 s f in
        let r : InTable mask b s = (IsHome-le ops mask key b home, omega arith) in
        let i : some (t.idx b s) ≡ some n = sym (rw f at duplicate-search) ∙ e in
        let i' : t.idx b s ≡ n = ap (λ o. elim o as (λ _. ℕ) [ some x ↦ x | none ↦ n ]) i in
        let ne : t.idx b s ≢ 0 = λ z. fp_of_pos ops mask laws key (sym k ∙ valid.empty b s r z) in
        let same = (laws.cmp_fn_iff key (node_key (t.idx b s))).0 ((==_iff _ 0).0 p) in
        let own : node_key n ≡ key = sym (same ∙ ap node_key i') in
        ((b, s, r, (λ z. ne (i' ∙ z)), k ∙ ap (fp_of ops mask) (sym own), i'), own)
  ]

  -- Where it finds none, no slot of the bucket holds a node with the key.
  pub duplicate-none :
      (s : ℕ)
      → duplicate ops node_key t b key hits ≡ none
      → s < 16
      → t.idx b s ≢ 0
      → key ≢ node_key (t.idx b s)
  duplicate-none s e u o same =
      elim (Option-cases (search (t.key b) (fp_of ops mask key) test 16 0)) [
        | inr (s', f) ↦ absurd (some-ne-none (sym (rw f at duplicate-search) ∙ e))
        | inl f ↦
            let own =
              valid.owned b s (IsHome-le ops mask key b home, u) o
              ∙ ap (fp_of ops mask) (sym same) in
            let no =
              search-none (t.key b) (fp_of ops mask key) test 16 0 s f (omega arith) (omega arith)
                own in
            true-ne-false
              (sym ((==_iff _ 0).1 ((laws.cmp_fn_iff key (node_key (t.idx b s))).1 same)) ∙ no)
      ]
