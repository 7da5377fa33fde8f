-- ===== src/Hash/Fingerprint/RoundTrip.antt =====
-- The tables of marked nodes as their callers see them: `insert`, and `remove` after it.
use relative_q.Base.{
  ℕ, Bool, true, ◌≡◌, ◌≢◌, ◌↔◌, inl, inr, ◌∙◌, sym, refl, ◌<◌, ◌%◌, ◌^◌, ◌+◌, ◌-◌, subst, arith,
}
use relative_q.Hash.Cuckoo.{Head}
use relative_q.Hash.Cuckoo.Valid.{IsValid}
use relative_q.Hash.Fingerprint.{FpOps}
use relative_q.Hash.Fingerprint.Laws.{FpLaws, fp_nodes}
use relative_q.Hash.Fingerprint.Fields.{Fields, insert, remove, remove_slot}
use relative_q.Hash.Fingerprint.Find.{Holds}
use relative_q.Hash.Fingerprint.Marked.{IsMarked}
use relative_q.Hash.Fingerprint.Agree.{insert-Agrees}
use relative_q.Hash.Fingerprint.Insert as Insert
use relative_q.Hash.Fingerprint.Insert.{insert_keyonly-Outcome}
use relative_q.Hash.Fingerprint.Unmark.{Result, remove_marked-Outcome, remove_slot-Outcome}

-- The head after a node came and one went.
count_back : (h : Head) → h.nb < 2 ^ 32 → ((h.nb + 1) % 2 ^ 32 + (2 ^ 32 - 1)) % 2 ^ 32 ≡ h.nb
count_back h l = omega arith

module _ {Key : Type 0} (with_slot : Bool) (ops : FpOps Key) (node_key : ℕ → Key) (h : Head)
    (laws : FpLaws ops h.mask) (elm : ℕ) (o : elm ≢ 0) (st : Fields)
    (valid : IsValid (fp_nodes ops node_key h.mask laws) st.table)
    (marked : IsMarked with_slot ops node_key h.mask 0 0 st)
    (fresh : ¬ Holds ops node_key h.mask st.table elm) where
  abbrev r : ℕ × Head × Fields
  r = insert with_slot ops node_key elm h st

  -- `insert` of rix_hash_fp.h and of rix_hash_slot.h in a valid table of marked nodes, for a node
  -- that is neither NULL nor in the table: a node with its key is there and the buckets do not
  -- change, or it is stored beside all other nodes, or there is no room and the table keeps its
  -- nodes. In each case the table is valid and its nodes are marked afterwards.
  pub insert_marked-Outcome :
      Insert.Outcome ops node_key h laws st.table elm (r.0, r.1, (r.2).table)
      × IsMarked with_slot ops node_key h.mask 0 0 (r.2)
  insert_marked-Outcome =
      let (e, m) = insert-Agrees with_slot ops node_key h laws elm o st valid marked fresh in
      (
        subst (Insert.Outcome ops node_key h laws st.table elm) (sym e)
            (insert_keyonly-Outcome ops node_key h laws st.table elm valid o),
        m,
      )

  abbrev added_head : Head
  added_head = record h { nb = (h.nb + 1) % 2 ^ 32 }

  -- `elm` is given back, and the head and the nodes are those before `insert`.
  abbrev pub IsBack : ℕ × Head × Fields → Type 0
  IsBack q =
      (q.0 ≡ elm)
      × (q.1 ≡ h)
      × ((n : ℕ) → Holds ops node_key h.mask ((q.2).table) n ↔ Holds ops node_key h.mask st.table n)

  -- What `remove` of a table that `insert` has added `elm` to gives.
  removed-IsBack :
      r.0 ≡ 0
      → h.nb < 2 ^ 32
      → (rem : Head → Fields → ℕ × Head × Fields)
      → ((v : IsValid (fp_nodes ops node_key h.mask laws) ((r.2).table))
          → Result with_slot ops node_key added_head laws
              (r.2)
              v
              (insert_marked-Outcome.1)
              elm
              o
              (rem added_head (r.2)))
      → IsBack (rem (r.1) (r.2))
  removed-IsBack z l rem out = elim (insert_marked-Outcome.0) [
    | inl ((b, s, u, m, ek, ei), e, eh, et) ↦ absurd (m z)
    | inr (inr (new, e, eh, k)) ↦ absurd (o (sym e ∙ z))
    | inr (inl (new, e, em, en, v, eq)) ↦
        let head : r.1 ≡ added_head = λ i. record { mask = em i; nb = en i } in
        subst (λ head. IsBack (rem head (r.2))) (sym head)
          (elim ((out v).0) [
            | inr (no_elm, e', eh', et') ↦ absurd (no_elm ((eq elm).1 (inr refl)))
            | inl (holds, e', em', en', v', eq') ↦ (
              e',
              (λ i. record { mask = em' i; nb = (en' ∙ count_back h l) i }),
              λ n. (
                λ x.
                    let (y, d) = (eq' n).0 x in
                    elim ((eq n).0 y) [ inl w ↦ w | inr w ↦ absurd (d w) ],
                λ x.
                    (eq' n).1 (
                      (eq n).1 (inl x),
                      λ w. fresh (subst (Holds ops node_key h.mask st.table) w x),
                    ),
              ),
            )
          ])
  ]

  -- After `insert` has given NULL, `remove` of rix_hash_fp.h gives the node back, and the head and
  -- the nodes of the table are those of before, if the count is one of 32 bits.
  pub insert-remove :
      r.0 ≡ 0 → h.nb < 2 ^ 32 → IsBack (remove with_slot ops node_key elm (r.1) (r.2))
  insert-remove z l =
      removed-IsBack z l (λ h st. remove with_slot ops node_key elm h st)
        (λ v.
          remove_marked-Outcome with_slot ops node_key added_head laws (r.2) v
            (insert_marked-Outcome.1) elm o)

module _ {Key : Type 0} (ops : FpOps Key) (node_key : ℕ → Key) (h : Head) (laws : FpLaws ops h.mask)
    (elm : ℕ) (o : elm ≢ 0) (st : Fields)
    (valid : IsValid (fp_nodes ops node_key h.mask laws) st.table)
    (marked : IsMarked true ops node_key h.mask 0 0 st)
    (fresh : ¬ Holds ops node_key h.mask st.table elm) where
  -- After `insert` of rix_hash_slot.h has given NULL, its `remove` gives the node back, and the
  -- head and the nodes of the table are those of before, if the count is one of 32 bits.
  pub insert-remove_slot :
      (insert true ops node_key elm h st).0 ≡ 0
      → h.nb < 2 ^ 32
      → IsBack true ops node_key h laws elm o st valid marked fresh (
          remove_slot true ops node_key elm
            ((insert true ops node_key elm h st).1)
            ((insert true ops node_key elm h st).2))
  insert-remove_slot z l =
      removed-IsBack true ops node_key h laws elm o st valid marked fresh z l
        (λ h st. remove_slot true ops node_key elm h st)
        (λ v.
          remove_slot-Outcome ops node_key
            (added_head true ops node_key h laws elm o st valid marked fresh) laws
            (r true ops node_key h laws elm o st valid marked fresh).2 v
            ((insert_marked-Outcome true ops node_key h laws elm o st valid marked fresh).1) elm o)
