-- ===== src/FlowCache/Moves.antt =====
-- samples/fcache/src/fc_cache_generate.h: entries that come from and go to the table, in terms of
-- the entries that it holds.
use relative_q.Base.{
  ℕ, ◌≡◌, ◌≢◌, ◌⊎◌, ◌↔◌, ◌+◌, ◌-◌, ◌%◌, ◌^◌, ◌∙◌, sym, ap, subst, inl, inr, true, refl,
}
use relative_q.Hash.Arch.{Hash}
use relative_q.Hash.Cuckoo.{Head, Buckets, set_slot}
use relative_q.Hash.Cuckoo.Valid.{IsValid, InTable}
use relative_q.Hash.Fingerprint.{FpOps, remove_at}
use relative_q.Hash.Fingerprint.Laws.{FpLaws, fp_nodes}
use relative_q.Hash.Fingerprint.Fields.{Fields, insert, insert_with, remove_slot}
use relative_q.Hash.Fingerprint.Marked.{IsMarked}
use relative_q.Hash.Fingerprint.Find.{Holds}
use relative_q.Hash.Fingerprint.Insert as Insert
use relative_q.Hash.Fingerprint.Remove as Remove
use relative_q.Hash.Fingerprint.Remove.{remove_at-some, removed}
use relative_q.Hash.Fingerprint.Unmark.{remove_slot-Outcome, clear-IsMarked}
use relative_q.Hash.Fingerprint.RoundTrip.{insert_marked-Outcome}
use relative_q.FlowCache.Invariant.{In, Holds-In}

module _ {Key : Type 0} (ops : FpOps Key) (node_key : ℕ → Key) (mask : ℕ)
    (laws : FpLaws ops mask) where
  -- The table after an operation is valid and its entries are marked.
  abbrev pub Sound : ℕ × Head × Fields → Type 0
  Sound r =
      ((r.1).mask ≡ mask)
      × IsValid (fp_nodes ops node_key mask laws) ((r.2).table)
      × IsMarked true ops node_key mask 0 0 (r.2)

  abbrev pub Same : Fields → Fields → Type 0
  Same f f' = (n : ℕ) → In mask f'.table n ↔ In mask f.table n

  -- What `insert_hashed` of `elm` gives: NULL, with `elm` added, `elm`, or an entry with its key.
  abbrev pub Inserted : ℕ → Head → Fields → ℕ × Head × Fields → Type 0
  Inserted elm h f r =
      ((r.0 ≡ 0)
        × ((r.1).nb ≡ (h.nb + 1) % 2 ^ 32)
        × ((n : ℕ) → In mask ((r.2).table) n ↔ (In mask f.table n ⊎ (n ≡ elm))))
      ⊎ (((r.1).nb ≡ h.nb)
          × Same f (r.2)
          × ((r.0 ≡ elm)
              ⊎ ((r.0 ≢ 0)
                  × (r.0 ≢ elm)
                  × In mask f.table (r.0)
                  × (node_key (r.0) ≡ node_key elm))))

  -- `elm` has gone, or it was not there and nothing has changed.
  abbrev pub Gone : ℕ → Head → Fields → ℕ × Head × Fields → Type 0
  Gone elm h f r =
      (In mask f.table elm
        × (r.0 ≡ elm)
        × ((r.1).nb ≡ (h.nb + (2 ^ 32 - 1)) % 2 ^ 32)
        × ((n : ℕ) → In mask ((r.2).table) n ↔ (In mask f.table n × (n ≢ elm))))
      ⊎ ((¬ In mask f.table elm) × (r.0 ≡ 0) × (r.1 ≡ h) × Same f (r.2))

  module _ (h : Head) (e : h.mask ≡ mask) (f : Fields)
      (valid : IsValid (fp_nodes ops node_key mask laws) f.table)
      (marked : IsMarked true ops node_key mask 0 0 f) (elm : ℕ) (o : elm ≢ 0) where
    abbrev h0 : Head
    h0 = record { mask = mask; nb = h.nb }

    head_path : h0 ≡ h
    head_path = λ i. record { mask = sym e i; nb = h.nb }

    abbrev hi :
        {t : Buckets} (v : IsValid (fp_nodes ops node_key mask laws) t) (n : ℕ)
        → Holds ops node_key mask t n ↔ In mask t n
    hi v n = Holds-In ops node_key mask laws _ v n

    insert_cases :
        (fresh : ¬ In mask f.table elm)
        → (r : ℕ × Head × Fields)
        → Insert.Outcome ops node_key h0 laws f.table elm (r.0, r.1, (r.2).table)
        → IsMarked true ops node_key mask 0 0 (r.2)
        → Sound r × Inserted elm h f r
    insert_cases fresh r out m = elim out [
      | inl (holds, own, eh, et) ↦
          let same : Same f (r.2) =
            λ n. subst (λ t. In mask t n ↔ In mask f.table n) (sym et) ((λ x. x), λ x. x) in
          let i = (hi valid (r.0)).0 holds in
          (
            (
              ap (λ h. h.mask) eh,
              subst (IsValid (fp_nodes ops node_key mask laws)) (sym et) valid,
              m,
            ),
            inr (
              ap (λ h. h.nb) eh,
              same,
              inr (
                (λ z. let (b, s, u, ne, ei) = i in ne z),
                (λ z. fresh (subst (In mask f.table) z i)),
                i,
                own,
              ),
            ),
          )
      | inr (inl (new, e0, em, en, v, eq)) ↦ (
        (em, v, m),
        inl (
          e0,
          en,
          λ n. (
            λ x. elim ((eq n).0 ((hi v n).1 x)) [ inl y ↦ inl ((hi valid n).0 y) | inr y ↦ inr y ],
            λ x. (hi v n).0 ((eq n).1 (elim x [ inl y ↦ inl ((hi valid n).1 y) | inr y ↦ inr y ])),
          ),
        ),
      )
      | inr (inr (new, e0, eh, (v, eq))) ↦ (
        (ap (λ h. h.mask) eh, v, m),
        inr (
          ap (λ h. h.nb) eh,
          (λ n. (
            (λ x. (hi valid n).0 ((eq _ n).1 ((hi v n).1 x))),
            λ x. (hi v n).0 ((eq _ n).0 ((hi valid n).1 x)),
          )),
          inl e0,
        ),
      )
    ]

    pub insert-Inserted :
        (hash : Hash)
        → hash ≡ ops.hash_fn (node_key elm) mask
        → ¬ In mask f.table elm
        → Sound (insert_with true ops node_key hash elm h f)
          × Inserted elm h f (insert_with true ops node_key hash elm h f)
    unfolding insert
    insert-Inserted hash eh fresh =
        let (out, m) =
          insert_marked-Outcome true ops node_key h0 laws elm o f valid marked
            (λ x. fresh ((hi valid elm).0 x)) in
        subst
          (λ (h' : Head).
            Sound (insert_with true ops node_key hash elm h' f)
            × Inserted elm h f (insert_with true ops node_key hash elm h' f))
          head_path
          (subst
            (λ (hash : Hash).
              Sound (insert_with true ops node_key hash elm h0 f)
              × Inserted elm h f (insert_with true ops node_key hash elm h0 f))
            (sym eh) (insert_cases fresh (insert true ops node_key elm h0 f) out m))

    Gone-cases :
        (r : ℕ × Head × Fields)
        → Remove.Outcome ops node_key h0 laws f.table elm (r.0, r.1, (r.2).table)
        → IsMarked true ops node_key mask 0 0 (r.2)
        → Sound r × Gone elm h f r
    Gone-cases r out m = elim out [
      | inl (holds, e0, em, en, v, eq) ↦ (
        (em, v, m),
        inl (
          (hi valid elm).0 holds,
          e0,
          en,
          λ n. (
            λ x. let (y, d) = (eq n).0 ((hi v n).1 x) in ((hi valid n).0 y, d),
            λ (x, d). (hi v n).0 ((eq n).1 ((hi valid n).1 x, d)),
          ),
        ),
      )
      | inr (absent, e0, eh, et) ↦ (
        (ap (λ h. h.mask) eh, subst (IsValid (fp_nodes ops node_key mask laws)) (sym et) valid, m),
        inr (
          (λ x. absent ((hi valid elm).1 x)),
          e0,
          eh ∙ head_path,
          λ n. subst (λ t. In mask t n ↔ In mask f.table n) (sym et) ((λ x. x), λ x. x),
        ),
      )
    ]

    pub remove-Gone :
        Sound (remove_slot true ops node_key elm h f)
        × Gone elm h f (remove_slot true ops node_key elm h f)
    remove-Gone =
        let (out, m) = remove_slot-Outcome ops node_key h0 laws f valid marked elm o in
        subst
          (λ (h' : Head).
            Sound (remove_slot true ops node_key elm h' f)
            × Gone elm h f (remove_slot true ops node_key elm h' f))
          head_path (Gone-cases (remove_slot true ops node_key elm h0 f) out m)

    -- `remove_at` of the slot of `elm`.
    pub remove_at-Gone :
        (b s : ℕ)
        → InTable mask b s
        → f.table.idx b s ≡ elm
        → (let (n, h', t) = remove_at b s (h, f.table) in
            (n ≡ elm)
            × (t ≡ set_slot b s 0 0 f.table)
            × Sound (n, h', record f { table = t })
            × Gone elm h f (n, h', record f { table = t }))
    remove_at-Gone b s r ei =
        subst
          (λ (h' : Head).
            (let (n, h1, t) = remove_at b s (h', f.table) in
              (n ≡ elm)
              × (t ≡ set_slot b s 0 0 f.table)
              × Sound (n, h1, record f { table = t })
              × Gone elm h f (n, h1, record f { table = t })))
          head_path
          (subst
            (λ (q : ℕ × Head × Buckets).
              (let (n, h1, t) = q in
                (n ≡ elm)
                × (t ≡ set_slot b s 0 0 f.table)
                × Sound (n, h1, record f { table = t })
                × Gone elm h f (n, h1, record f { table = t })))
            (sym (remove_at-some ops node_key h0 laws f.table elm b s (r.1) ei o))
            (let (sound, gone) =
                Gone-cases
                  (
                    elm,
                    record h0 { nb = (h.nb + (2 ^ 32 - 1)) % 2 ^ 32 },
                    record f { table = set_slot b s 0 0 f.table },
                  )
                  (inl (removed ops node_key h0 laws f.table elm valid o b s r ei))
                  (clear-IsMarked true ops node_key mask f marked b s) in
              (refl, refl, sound, gone)))
