-- ===== src/Hash/KeyTable/Insert.antt =====
-- `insert`, against the set of nodes.
use relative_q.Base.{ℕ, ◌≡◌, ◌≢◌, ◌⊎◌, ◌↔◌, ◌∙◌, sym, refl, ◌+◌, ◌%◌, ◌^◌, Option, some}
use relative_q.Base.{◌≤◌, ◌<◌, ap, none, inl, inr, Option-cases}
use relative_q.Hash.KeyTable.{
  Ops, OpsLaws, scheme, find_empty, Buckets, Head, put, kickout, bucket0, bucket1, insert,
}
use relative_q.Hash.Cuckoo.Valid.{NodeInfo, IsValid, InTable, Stored, Keeps}
use relative_q.Hash.Cuckoo.Store.{store-IsValid, store-Stored}
use relative_q.Hash.Cuckoo.Frees.{Frees, find_empty-some, find_empty-none, Keeps-refl, Keeps-trans}
use relative_q.Hash.KeyTable.Find.{
  locate, in_first, in_second, nowhere, nowhere-Stored, first-InTable, second-InTable,
}
use relative_q.Hash.Cuckoo.Kickout.{kickout-Frees}
use relative_q.Hash.KeyTable.Bounds.{key_nodes, IsHome, bucket0-le, bucket1-le}

module _ (ops : Ops) (laws : OpsLaws ops) (iv : ℕ) (node_key : ℕ → ℕ) (h : Head) (t : Buckets)
    (elm : ℕ) where
  abbrev m : NodeInfo (scheme ops iv) h.mask
  m = key_nodes ops laws iv h.mask node_key

  -- The key is there: its node is given back and nothing is written.
  abbrev pub IsDuplicate : ℕ × Head × Buckets → Type 0
  IsDuplicate r = Stored h.mask t (node_key elm) r.0 × (r.1 ≡ h) × (r.2 ≡ t)

  -- NULL is given, and `elm` is stored beside the other nodes, wherever these are now.
  abbrev pub IsAdded : ℕ × Head × Buckets → Type 0
  IsAdded r =
      ((n : ℕ) → ¬ Stored h.mask t (node_key elm) n)
      × (r.0 ≡ 0)
      × ((r.1).mask ≡ h.mask)
      × ((r.1).nb ≡ (h.nb + 1) % 2 ^ 32)
      × IsValid m (r.2)
      × ((k n : ℕ)
          → Stored h.mask (r.2) k n ↔ (Stored h.mask t k n ⊎ ((k ≡ node_key elm) × (n ≡ elm))))

  -- There is no room: `elm` is given back, and the nodes are those of before.
  abbrev pub IsFull : ℕ × Head × Buckets → Type 0
  IsFull r =
      ((n : ℕ) → ¬ Stored h.mask t (node_key elm) n) × (r.0 ≡ elm) × (r.1 ≡ h) × Keeps m t (r.2)

  abbrev pub Outcome : ℕ × Head × Buckets → Type 0
  Outcome r = IsDuplicate r ⊎ (IsAdded r ⊎ IsFull r)

  module _ (valid : IsValid m t) (o : elm ≢ 0) (ok : node_key elm ≢ iv) where
    duplicate :
        (b s : ℕ) → InTable h.mask b s × (t.key b s ≡ node_key elm) → Outcome (t.idx b s, h, t)
    duplicate b s (r, k) =
        inl ((b, s, r, λ z. ok (sym k ∙ valid.empty b s r z), k, refl), refl, refl)

    added :
        (t1 : Buckets) (b s : ℕ)
        → ((n : ℕ) → ¬ Stored h.mask t (node_key elm) n)
        → Keeps m t t1
        → InTable h.mask b s
        → t1.idx b s ≡ 0
        → IsHome ops h.mask (node_key elm) b
        → Outcome (
          0,
          (put ops iv b s (node_key elm) elm (h, t1)).0,
          (put ops iv b s (node_key elm) elm (h, t1)).1,
        )
    unfolding put
    added t1 b s absent (v, eq) r z home =
        let absent1 : (k n : ℕ) → node_key n ≡ node_key elm → ¬ Stored h.mask t1 k n =
          λ k n q (b', s', r', o', ek, ei).
            let own = v.owned b' s' r' (λ z. o' (sym ei ∙ z)) ∙ ap node_key ei ∙ q in
            absent n ((eq (node_key elm) n).1 (b', s', r', o', own, ei)) in
        let st = store-Stored v b s elm r z o ok home absent1 in
        inr (
          inl (
            absent,
            refl,
            refl,
            refl,
            store-IsValid v b s elm r z o ok home absent1,
            λ k n. (
              λ x. elim ((st k n).0 x) [ inl y ↦ inl ((eq k n).1 y) | inr y ↦ inr y ],
              λ x. (st k n).1 (elim x [ inl y ↦ inl ((eq k n).0 y) | inr y ↦ inr y ]),
            ),
          ))

    abbrev b0 : ℕ
    b0 = bucket0 ops h.mask (node_key elm)

    abbrev b1 : ℕ
    b1 = bucket1 ops h.mask (node_key elm)

    -- What is left when neither bucket has a free slot.
    crowded :
        ((n : ℕ) → ¬ Stored h.mask t (node_key elm) n)
        → (t1 t2 : Buckets) (s1 s2 : Option ℕ) → Frees m b0 t (t1, s1)
        → Frees m b1 t1 (t2, s2)
        → Outcome (elim s1 as (λ _. ℕ × Head × Buckets) [
          | some s ↦ let (h', t') = put ops iv b0 s (node_key elm) elm (h, t1) in (0, h', t')
          | none ↦ elim s2 as (λ _. ℕ × Head × Buckets) [
            | some s ↦ let (h', t') = put ops iv b1 s (node_key elm) elm (h, t2) in (0, h', t')
            | none ↦ (elm, h, t2)
          ]
        ])
    crowded absent t1 t2 (some s) s2 (k, f) f2 =
        let (r, z) = f s refl in added t1 b0 s absent k r z (inl refl)
    crowded absent t1 t2 none (some s) (k, f) (k2, f2) =
        let (r, z) = f2 s refl in added t2 b1 s absent (Keeps-trans k k2) r z (inr refl)
    crowded absent t1 t2 none none (k, f) (k2, f2) =
        inr (inr (absent, refl, refl, Keeps-trans k k2))

    -- `insert` in a valid table, for a node that is not NULL and whose key is not the invalid
    -- one: its key is there and nothing changes, or `elm` is stored beside all other nodes, or
    -- the table is full and keeps its nodes. In each case the table is valid afterwards.
    pub insert-Outcome : Outcome (insert ops iv elm (node_key elm) (h, t))
    unfolding insert
    insert-Outcome = elim (locate ops t b0 b1 (node_key elm)) [
      | in_first s e ↦
          rw (insert, e)
            (duplicate b0 s (first-InTable ops laws h.mask node_key iv t valid (node_key elm) s e))
      | in_second s e e' ↦
          rw (insert, e, e')
            (duplicate b1 s
              (second-InTable ops laws h.mask node_key iv t valid (node_key elm) s e'))
      | nowhere e e' ↦
          let absent = nowhere-Stored ops laws h.mask node_key iv t valid (node_key elm) e e' in
          let (l0, l1) : (b0 ≤ h.mask) × (b1 ≤ h.mask) =
            (bucket0-le ops h.mask (node_key elm), bucket1-le ops h.mask (node_key elm)) in
          elim (Option-cases (find_empty (scheme ops iv) b0 t)) [
            | inr (s, f) ↦
                let (u, z) = find_empty-some m t b0 s valid l0 f in
                rw (insert, e, e', f) (added t b0 s absent (Keeps-refl valid) (l0, u) z (inl refl))
            | inl f ↦ elim (Option-cases (find_empty (scheme ops iv) b1 t)) [
              | inr (s, g) ↦
                  let (u, z) = find_empty-some m t b1 s valid l1 g in
                  rw (insert, e, e', f, g)
                    (added t b1 s absent (Keeps-refl valid) (l1, u) z (inr refl))
              | inl g ↦
                  let k1 = kickout-Frees m 4 b0 t l0 valid in
                  let t1 = (kickout (scheme ops iv) 4 h.mask b0 t).0 in
                  let k2 = kickout-Frees m 4 b1 t1 l1 k1.0.0 in
                  rw (insert, e, e', f, g) (crowded absent t1 _ _ _ k1 k2)
            ]
          ]
    ]

    -- If the key is not in the table and one of its buckets has a slot without a node, `insert`
    -- succeeds.
    pub insert-room :
        ((n : ℕ) → ¬ Stored h.mask t (node_key elm) n)
        → (b s : ℕ) → IsHome ops h.mask (node_key elm) b
        → s < 16
        → t.idx b s ≡ 0
        → (insert ops iv elm (node_key elm) (h, t)).0 ≡ 0
    unfolding insert
    insert-room absent b s home u z =
        let (l0, l1) : (b0 ≤ h.mask) × (b1 ≤ h.mask) =
          (bucket0-le ops h.mask (node_key elm), bucket1-le ops h.mask (node_key elm)) in
        elim (locate ops t b0 b1 (node_key elm)) [
          | in_first s e ↦
              let (r, k) = first-InTable ops laws h.mask node_key iv t valid (node_key elm) s e in
              absurd (absent _ (b0, s, r, (λ z. ok (sym k ∙ valid.empty b0 s r z)), k, refl))
          | in_second s e e' ↦
              let (r, k) = second-InTable ops laws h.mask node_key iv t valid (node_key elm) s e' in
              absurd (absent _ (b1, s, r, (λ z. ok (sym k ∙ valid.empty b1 s r z)), k, refl))
          | nowhere e e' ↦ elim (Option-cases (find_empty (scheme ops iv) b0 t)) [
            | inr (s', f) ↦ rw (insert, e, e', f) refl
            | inl f ↦ elim (Option-cases (find_empty (scheme ops iv) b1 t)) [
              | inr (s', g) ↦ rw (insert, e, e', f, g) refl
              | inl g ↦ elim home [
                | inl p ↦
                    absurd (find_empty-none m t b0 s valid l0 f u (sym (ap (λ b. t.idx b s) p) ∙ z))
                | inr p ↦
                    absurd (find_empty-none m t b1 s valid l1 g u (sym (ap (λ b. t.idx b s) p) ∙ z))
              ]
            ]
          ]
        ]
