-- ===== src/Hash/Fingerprint/Reinsert.antt =====
-- `insert` of a node that is in the table already.
use Prim.Native.Nat.{bit_and}
use relative_q.Base.{
  ℕ, Bool, ◌≡◌, ◌≢◌, inl, inr, ◌∙◌, sym, refl, ap, none, Option-cases, subst, ◌<◌, Option, some,
}
use relative_q.Hash.Arch.{first_hit}
use relative_q.Hash.Arch.First.{first_hit-some}
use relative_q.Hash.Cuckoo.{Head}
use relative_q.Hash.Cuckoo.Valid.{IsValid}
use relative_q.Hash.Fingerprint.{FpOps, duplicate}
use relative_q.Hash.Fingerprint.Laws.{FpLaws, fp_nodes, bucket0, bucket1, IsHome-le}
use relative_q.Hash.Fingerprint.Fields.{Fields, insert, remove, kickout, place}
use relative_q.Hash.Fingerprint.Duplicate.{duplicate-none}
use relative_q.Hash.Fingerprint.Marked.{set_field-same}
use relative_q.Hash.Fingerprint.Place.{start}
use relative_q.Hash.Fingerprint.Search as Search
use relative_q.Hash.Fingerprint.Search.{insert_hashed-search}

module _ {Key : Type 0} (with_slot : Bool) (ops : FpOps Key) (node_key : ℕ → Key) (h : Head)
    (laws : FpLaws ops h.mask) (st : Fields)
    (valid : IsValid (fp_nodes ops node_key h.mask laws) st.table) (elm s : ℕ) (o : elm ≢ 0)
    (u : s < 16) (e : st.table.idx (bucket1 ops h.mask (node_key elm)) s ≡ elm) where
  abbrev b0 : ℕ
  b0 = bucket0 ops h.mask (node_key elm)

  abbrev b1 : ℕ
  b1 = bucket1 ops h.mask (node_key elm)

  abbrev st0 : Fields
  st0 = start with_slot ops node_key h.mask elm st

  -- A search that finds the key ends there.
  found :
      (d0 d1 : Option ℕ) (rest : ℕ × Head × Fields)
      → (d0 ≡ none → d1 ≢ none)
      → let r = elim d0 as (λ _. ℕ × Head × Fields) [
        | some n ↦ (n, h, st0)
        | none ↦ elim d1 as (λ _. ℕ × Head × Fields) [ some n ↦ (n, h, st0) | none ↦ rest ]
      ] in
        (r.1 ≡ h) × (r.2 ≡ st0)
  found (some n) d1 rest f = (refl, refl)
  found none (some n) rest f = (refl, refl)
  found none none rest f = absurd (f refl refl)

  -- The search finds the key, so that only the first store to the node has happened.
  reinsert :
      ((insert with_slot ops node_key elm h st).1 ≡ h)
      × ((insert with_slot ops node_key elm h st).2 ≡ st0)
  unfolding insert
  reinsert =
      let hash = ops.hash_fn (node_key elm) h.mask in
      let kick = kickout with_slot ops node_key 4 h.mask in
      let put = place with_slot ops node_key elm in
      let q =
        insert_hashed-search ops node_key (λ (st : Fields). st.table) kick put elm hash h st0
          laws.find_lem laws.find_2_lem in
      let same_key = λ (b : ℕ).
        duplicate ops node_key st.table b (node_key elm)
          (Search.hits ops node_key (λ (st : Fields). st.table) kick put elm hash h st0 b) in
      let l1 = IsHome-le ops h.mask (node_key elm) b1 (inr refl) in
      subst (λ (r : ℕ × Head × Fields). (r.1 ≡ h) × (r.2 ≡ st0)) (sym q)
        (found (same_key b0) (same_key b1) _ (λ d d'.
          duplicate-none ops node_key h.mask laws st.table valid (node_key elm) b1 (inr refl) s d' u
            (λ z. o (sym e ∙ z)) (ap node_key (sym e))))

  -- After `insert` of rix_hash_fp.h of a node that is in the second bucket of its key, in a valid
  -- table, the table has the node still, and `remove` of it gives NULL.
  pub remove-reinsert :
      let r = insert with_slot ops node_key elm h st in
      ((r.2).table.idx b1 s ≡ elm) × ((remove with_slot ops node_key elm (r.1) (r.2)).0 ≡ 0)
  unfolding remove
  remove-reinsert =
      let (eh, es) = reinsert in
      let bk : bit_and (st0.hash_field elm) h.mask ≡ b0 =
        ap (λ x. bit_and x h.mask) (set_field-same st.hash_field elm _ elm refl) in
      let none_there : first_hit ops.find (st.table.idx b0) elm ≡ none =
        elim (Option-cases (first_hit ops.find (st.table.idx b0) elm)) [
          | inl f ↦ f
          | inr (s', f) ↦
              let (u', e') = first_hit-some laws.find_lem (st.table.idx b0) elm s' f in
              let (p, q) =
                valid.unique b0 s' b1 s (IsHome-le ops h.mask (node_key elm) b0 (inl refl), u')
                  (IsHome-le ops h.mask (node_key elm) b1 (inr refl), u) (λ z. o (sym e' ∙ z))
                  (λ z. o (sym e ∙ z)) (ap node_key (e' ∙ sym e)) in
              absurd (laws.distinct (node_key elm) p)
        ] in
      let lost : (remove with_slot ops node_key elm h st0).0 ≡ 0 =
        rw (remove, bk, none_there) refl in
      (
        ap (λ (st : Fields). st.table.idx b1 s) es ∙ e,
        (λ i. (remove with_slot ops node_key elm (eh i) (es i)).0) ∙ lost,
      )
