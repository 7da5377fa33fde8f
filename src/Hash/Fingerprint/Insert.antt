-- ===== src/Hash/Fingerprint/Insert.antt =====
-- `insert` of rix_hash_keyonly.h, against the set of nodes.
use relative_q.Base.{
  ℕ, ◌≡◌, ◌≢◌, ◌⊎◌, ◌↔◌, ◌∙◌, sym, refl, ◌+◌, ◌%◌, ◌^◌, Option, some, ◌<◌, ap, none, inl, inr,
  subst,
}
use relative_q.Hash.Arch.{find_u32x16_gen}
use relative_q.Hash.Cuckoo.{Head, Buckets, set_slot}
use relative_q.Hash.Cuckoo.Valid.{NodeInfo, IsValid, InTable, Stored, Keeps}
use relative_q.Hash.Cuckoo.Store.{store-IsValid, store-Stored}
use relative_q.Hash.Cuckoo.Frees.{Frees, find_empty-some, Keeps-refl, Keeps-trans}
use relative_q.Hash.Cuckoo.Kickout.{kickout-Frees}
use relative_q.Hash.Fingerprint.{FpOps, duplicate}
use relative_q.Hash.Fingerprint.Laws.{
  FpLaws, fp_nodes, fp_of, fp_of_pos, bucket0, bucket1, IsHome, IsHome-le,
}
use relative_q.Hash.Fingerprint.KeyOnly.{scheme, insert, kickout, place, find_empty}
use relative_q.Hash.Fingerprint.Find.{Holds}
use relative_q.Hash.Fingerprint.Search as Search
use relative_q.Hash.Fingerprint.Search.{insert_hashed-search}
use relative_q.Hash.Fingerprint.Duplicate.{duplicate-some, duplicate-none}
use relative_q.Hash.Fingerprint.Duplicate.{duplicate-some, duplicate-none}

module _ {Key : Type 0} (ops : FpOps Key) (node_key : ℕ → Key) (h : Head) (laws : FpLaws ops h.mask)
    (t : Buckets) (elm : ℕ) where
  abbrev m : NodeInfo (scheme ops node_key) h.mask
  m = fp_nodes ops node_key h.mask laws

  -- No node of the table has the key of `elm`.
  abbrev pub IsNew : Type 0
  IsNew = (n : ℕ) → node_key n ≡ node_key elm → ¬ Holds ops node_key h.mask t n

  -- The key is there: its node is given back and nothing is written.
  abbrev pub IsDuplicate : ℕ × Head × Buckets → Type 0
  IsDuplicate r =
      Holds ops node_key h.mask t (r.0) × (node_key (r.0) ≡ node_key elm) × (r.1 ≡ h) × (r.2 ≡ t)

  -- NULL is given, and `elm` is stored beside the other nodes, wherever these are now.
  abbrev pub IsAdded : ℕ × Head × Buckets → Type 0
  IsAdded r =
      IsNew
      × (r.0 ≡ 0)
      × ((r.1).mask ≡ h.mask)
      × ((r.1).nb ≡ (h.nb + 1) % 2 ^ 32)
      × IsValid m (r.2)
      × ((n : ℕ) → Holds ops node_key h.mask (r.2) n ↔ (Holds ops node_key h.mask t n ⊎ (n ≡ elm)))

  -- There is no room: `elm` is given back, and the nodes are those of before.
  abbrev pub IsFull : ℕ × Head × Buckets → Type 0
  IsFull r = IsNew × (r.0 ≡ elm) × (r.1 ≡ h) × Keeps m t (r.2)

  abbrev pub Outcome : ℕ × Head × Buckets → Type 0
  Outcome r = IsDuplicate r ⊎ (IsAdded r ⊎ IsFull r)

  abbrev b0 : ℕ
  b0 = bucket0 ops h.mask (node_key elm)

  abbrev b1 : ℕ
  b1 = bucket1 ops h.mask (node_key elm)

  abbrev fp : ℕ
  fp = fp_of ops h.mask (node_key elm)

  module _ (valid : IsValid m t) (o : elm ≢ 0) where
    added :
        (t1 : Buckets) (b s : ℕ)
        → IsNew
        → Keeps m t t1
        → s < 16
        → t1.idx b s ≡ 0
        → IsHome ops h.mask (node_key elm) b
        → IsAdded (0, record h { nb = (h.nb + 1) % 2 ^ 32 }, set_slot b s fp elm t1)
    added t1 b s absent (v, eq) u z home =
        let r : InTable h.mask b s = (IsHome-le ops h.mask (node_key elm) b home, u) in
        let ok = fp_of_pos ops h.mask laws (node_key elm) in
        let absent1 : (k n : ℕ) → node_key n ≡ node_key elm → ¬ Stored h.mask t1 k n =
          λ k n q (b', s', r', o', ek, ei).
            let own = v.owned b' s' r' (λ z. o' (sym ei ∙ z)) ∙ ap m.tag ei in
            absent n q ((eq (m.tag n) n).1 (b', s', r', o', own, ei)) in
        let st = store-Stored v b s elm r z o ok home absent1 in
        (
          absent,
          refl,
          refl,
          refl,
          store-IsValid v b s elm r z o ok home absent1,
          λ n. (
            λ x. elim ((st (m.tag n) n).0 x) [
              | inl y ↦ inl ((eq (m.tag n) n).1 y)
              | inr y ↦ inr (y.1)
            ],
            λ x.
                (st (m.tag n) n).1
                  (elim x [ inl y ↦ inl ((eq (m.tag n) n).0 y) | inr e ↦ inr (ap m.tag e, e) ]),
          ),
        )

    abbrev same_key : ℕ → Option ℕ
    same_key b =
        duplicate ops node_key t b (node_key elm)
          (find_u32x16_gen (t.key b) (fp_of ops h.mask (node_key elm)))

    -- Neither bucket of the key has a node with it, so that no bucket has.
    new : same_key b0 ≡ none → same_key b1 ≡ none → IsNew
    new d0 d1 n q (b, s, (l, u), o', ek, ei) =
        let ne : t.idx b s ≢ 0 = λ w. o' (sym ei ∙ w) in
        let same : node_key elm ≡ node_key (t.idx b s) = sym q ∙ ap node_key (sym ei) in
        let at : (b' : ℕ) → IsHome ops h.mask (node_key elm) b' → same_key b' ≡ none → b ≢ b' =
          λ b' home d e.
            duplicate-none ops node_key h.mask laws t valid (node_key elm) b' home s d u
              (λ z. ne (ap (λ b. t.idx b s) e ∙ z)) (same ∙ ap (λ b. node_key (t.idx b s)) e) in
        elim (valid.placed b s (l, u) ne) [
          | inl w ↦ at b0 (inl refl) d0 (w ∙ ap (bucket0 ops h.mask) (sym same))
          | inr w ↦ at b1 (inr refl) d1 (w ∙ ap (bucket1 ops h.mask) (sym same))
        ]

    -- What is left when neither bucket has a free slot.
    crowded :
        IsNew
        → (r1 r2 : Buckets × Option ℕ) → Frees m b0 t r1
        → Frees m b1 (r1.0) r2
        → Outcome (elim (r1.1) as (λ _. ℕ × Head × Buckets) [
          | some s ↦ (0, record h { nb = (h.nb + 1) % 2 ^ 32 }, set_slot b0 s fp elm (r1.0))
          | none ↦ elim (r2.1) as (λ _. ℕ × Head × Buckets) [
            | some s ↦ (0, record h { nb = (h.nb + 1) % 2 ^ 32 }, set_slot b1 s fp elm (r2.0))
            | none ↦ (elm, h, r2.0)
          ]
        ])
    crowded absent (t1, some s) r2 (k, f) f2 =
        let ((l, u), z) = f s refl in inr (inl (added t1 b0 s absent k u z (inl refl)))
    crowded absent (t1, none) (t2, some s) (k, f) (k2, f2) =
        let ((l, u), z) = f2 s refl in
        inr (inl (added t2 b1 s absent (Keeps-trans k k2) u z (inr refl)))
    crowded absent (t1, none) (t2, none) (k, f) (k2, f2) =
        inr (inr (absent, refl, refl, Keeps-trans k k2))

    found : (b n : ℕ) → IsHome ops h.mask (node_key elm) b → same_key b ≡ some n → Outcome (n, h, t)
    found b n home e =
        let (st, own) = duplicate-some ops node_key h.mask laws t valid (node_key elm) b home n e in
        inl (st, own, refl, refl)

    abbrev kick : ℕ → Buckets → Buckets × Option ℕ
    kick = kickout ops node_key 4 h.mask

    insert-search :
        insert ops node_key elm h t
        ≡ Search.search ops node_key
            (λ t. t)
            kick
            (place ops node_key elm)
            elm
            (ops.hash_fn (node_key elm) h.mask)
            h
            t
    unfolding insert
    insert-search =
        insert_hashed-search ops node_key (λ t. t) kick (place ops node_key elm) elm
          (ops.hash_fn (node_key elm) h.mask) h t laws.find_lem laws.find_2_lem

    -- The result of the search, from what each of its parts gives.
    search-Outcome :
        (d0 d1 f0 f1 : Option ℕ)
        → same_key b0 ≡ d0
        → same_key b1 ≡ d1
        → find_empty ops node_key b0 t ≡ f0
        → find_empty ops node_key b1 t ≡ f1
        → Outcome (elim d0 as (λ _. ℕ × Head × Buckets) [
          | some n ↦ (n, h, t)
          | none ↦ elim d1 as (λ _. ℕ × Head × Buckets) [
            | some n ↦ (n, h, t)
            | none ↦
                Search.slots_then ops node_key
                  (λ t. t)
                  kick
                  (place ops node_key elm)
                  elm
                  (ops.hash_fn (node_key elm) h.mask)
                  h
                  t
                  f0
                  f1
          ]
        ])
    search-Outcome (some n) d1 f0 f1 e e' g g' = found b0 n (inl refl) e
    search-Outcome none (some n) f0 f1 e e' g g' = found b1 n (inr refl) e'
    search-Outcome none none (some s) f1 e e' g g' =
        let (u, z) =
          find_empty-some m t b0 s valid (IsHome-le ops h.mask (node_key elm) b0 (inl refl)) g in
        inr (inl (added t b0 s (new e e') (Keeps-refl valid) u z (inl refl)))
    search-Outcome none none none (some s) e e' g g' =
        let (u, z) =
          find_empty-some m t b1 s valid (IsHome-le ops h.mask (node_key elm) b1 (inr refl)) g' in
        inr (inl (added t b1 s (new e e') (Keeps-refl valid) u z (inr refl)))
    search-Outcome none none none none e e' g g' =
        let k1 = kickout-Frees m 4 b0 t (IsHome-le ops h.mask (node_key elm) b0 (inl refl)) valid in
        let k2 =
          kickout-Frees m 4 b1 ((kick b0 t).0) (IsHome-le ops h.mask (node_key elm) b1 (inr refl))
            k1.0.0 in
        crowded (new e e') _ _ k1 k2

    -- `insert` of rix_hash_keyonly.h in a valid table, for a node that is not NULL: a node with
    -- its key is there and nothing changes, or it is stored beside all other nodes, or there is no
    -- room and the table keeps its nodes. In each case the table is valid afterwards.
    pub insert_keyonly-Outcome : Outcome (insert ops node_key elm h t)
    unfolding relative_q.Hash.Cuckoo.find_empty
    insert_keyonly-Outcome =
        subst Outcome (sym insert-search) (search-Outcome _ _ _ _ refl refl refl refl)
