-- ===== src/Hash/Fingerprint/Place.antt =====
-- The hash and the slot that `insert` gives its node.
use Prim.Native.Nat.{bit_and}
use relative_q.Base.{ℕ, Bool, true, ◌≡◌, ◌≢◌, ◌⊎◌, inl, inr, ◌∙◌, sym, refl, ap, Option, none, some}
use relative_q.Hash.Cuckoo.Slots.{set_slot-cases}
use relative_q.Hash.Cuckoo.Valid.{IsValid, InTable}
use relative_q.Hash.Fingerprint.{FpOps}
use relative_q.Hash.Fingerprint.Laws.{FpLaws, fp_nodes}
use relative_q.Hash.Fingerprint.Fields.{Fields, set_field, place}
use relative_q.Hash.Fingerprint.Find.{Holds}
use relative_q.Hash.Fingerprint.Marked.{IsMarked, val0, val1, set_field-same, set_field-other}

module _ {Key : Type 0} (with_slot : Bool) (ops : FpOps Key) (node_key : ℕ → Key) (mask : ℕ) where
  -- What `insert` does first.
  abbrev pub start : ℕ → Fields → Fields
  start elm st = record st { hash_field = set_field st.hash_field elm (val0 ops node_key mask elm) }

  pub start-IsMarked :
      (laws : FpLaws ops mask) (st : Fields) (elm : ℕ)
      → IsValid (fp_nodes ops node_key mask laws) st.table
      → IsMarked with_slot ops node_key mask 0 0 st
      → ¬ Holds ops node_key mask st.table elm
      → IsMarked with_slot ops node_key mask elm (val0 ops node_key mask elm) (start elm st)
  start-IsMarked laws st elm valid marked fresh =
      let v0 = val0 ops node_key mask elm in
      let other : (b s : ℕ) → InTable mask b s → st.table.idx b s ≢ 0 → st.table.idx b s ≢ elm =
        λ b s r o e. fresh (
          b,
          s,
          r,
          (λ z. o (e ∙ z)),
          valid.owned b s r o ∙ ap ((fp_nodes ops node_key mask laws).tag) e,
          e,
        ) in
      let same : (b s : ℕ)
          → InTable mask b s
          → st.table.idx b s ≢ 0
          → set_field st.hash_field elm v0 (st.table.idx b s) ≡ st.hash_field (st.table.idx b s) =
        λ b s r o. set_field-other st.hash_field elm v0 _ (other b s r o) in
      record {
        bucket_of = λ b s r o. ap (λ x. bit_and x mask) (same b s r o) ∙ marked.bucket_of b s r o;
        hash_of = λ b s r o. elim (marked.hash_of b s r o) [
          | inl e ↦ inl (same b s r o ∙ e)
          | inr e ↦ inr (same b s r o ∙ e)
        ];
        slot_of = marked.slot_of;
        apart = λ b s r x e. other b s r (λ z. x (sym e ∙ z)) e;
        kept = λ x. set_field-same st.hash_field elm v0 elm refl;
      }

  pub forget :
      (new value : ℕ) (st : Fields)
      → IsMarked with_slot ops node_key mask new value st
      → IsMarked with_slot ops node_key mask 0 0 st
  forget new value st marked = record {
    bucket_of = marked.bucket_of;
    hash_of = marked.hash_of;
    slot_of = marked.slot_of;
    apart = λ b s r x. absurd (x refl);
    kept = λ x. absurd (x refl);
  }

  module _ (st : Fields) (elm b s fp : ℕ) (o : elm ≢ 0)
      (marked : IsMarked with_slot ops node_key mask elm (val0 ops node_key mask elm) st)
      (hash : Option ℕ) where
    abbrev after : Fields
    after = place with_slot ops node_key elm b s fp hash st

    -- An occupied slot after the store is the one of `elm`, or as before with the same marks.
    place-cases :
        (b' s' : ℕ)
        → InTable mask b' s'
        → after.table.idx b' s' ≢ 0
        → ((b' ≡ b)
            × (after.table.idx b' s' ≡ elm)
            × (with_slot ≡ true → after.slot_field (after.table.idx b' s') ≡ s'))
          ⊎ ((after.table.idx b' s' ≡ st.table.idx b' s')
              × (st.table.idx b' s' ≢ 0)
              × (after.hash_field (after.table.idx b' s') ≡ st.hash_field (st.table.idx b' s'))
              × (with_slot ≡ true
                  → after.slot_field (after.table.idx b' s') ≡ st.slot_field (st.table.idx b' s')))
    unfolding place
    place-cases b' s' r o' = elim (set_slot-cases b s fp elm st.table b' s') [
      | inl (p, q, k, i) ↦ inl (p, i, λ w. rw w (set_field-same st.slot_field elm s _ i ∙ sym q))
      | inr (a, k, i) ↦
          let other : after.table.idx b' s' ≢ elm = λ e. marked.apart b' s' r o (sym i ∙ e) in
          let hashes : (after.hash_field (after.table.idx b' s')
              ≡ st.hash_field (st.table.idx b' s')) =
            elim hash
              as (λ hash.
                (place with_slot ops node_key elm b s fp hash st).hash_field (after.table.idx b' s')
                ≡ st.hash_field (st.table.idx b' s')) [
                  | none ↦ ap st.hash_field i
                  | some v ↦ set_field-other st.hash_field elm v _ other ∙ ap st.hash_field i
                ] in
          inr (
            i,
            (λ z. o' (i ∙ z)),
            hashes,
            λ w. rw w (set_field-other st.slot_field elm s _ other ∙ ap st.slot_field i),
          )
    ]

    pub place-IsMarked :
        bit_and (after.hash_field elm) mask ≡ b
        → (after.hash_field elm ≡ val0 ops node_key mask elm)
          ⊎ (after.hash_field elm ≡ val1 ops node_key mask elm)
        → IsMarked with_slot ops node_key mask 0 0 after
    place-IsMarked at home = record {
      bucket_of = λ b' s' r' o'. elim (place-cases b' s' r' o') [
        | inl (p, i, w) ↦ ap (λ x. bit_and (after.hash_field x) mask) i ∙ at ∙ sym p
        | inr (i, ne, e, w) ↦ ap (λ x. bit_and x mask) e ∙ marked.bucket_of b' s' r' ne
      ];
      hash_of = λ b' s' r' o'. elim (place-cases b' s' r' o') [
        | inl (p, i, w) ↦ elim home [
          | inl e ↦ inl (ap after.hash_field i ∙ e ∙ ap (val0 ops node_key mask) (sym i))
          | inr e ↦ inr (ap after.hash_field i ∙ e ∙ ap (val1 ops node_key mask) (sym i))
        ]
        | inr (i, ne, e, w) ↦ elim (marked.hash_of b' s' r' ne) [
          | inl e' ↦ inl (e ∙ e' ∙ ap (val0 ops node_key mask) (sym i))
          | inr e' ↦ inr (e ∙ e' ∙ ap (val1 ops node_key mask) (sym i))
        ]
      ];
      slot_of = λ b' s' r' o' with. elim (place-cases b' s' r' o') [
        | inl (p, i, w) ↦ w with
        | inr (i, ne, e, w) ↦ w with ∙ marked.slot_of b' s' r' ne with
      ];
      apart = λ b s r x. absurd (x refl);
      kept = λ x. absurd (x refl);
    }
