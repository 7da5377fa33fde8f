-- ===== src/Hash/KeyTable/Find.antt =====
-- `find`, against the set of nodes.
use relative_q.Base.{
  ℕ, ◌≡◌, ◌≢◌, inl, inr, ◌∙◌, sym, refl, none, some, Bool-cases, Option-cases, ◌==◌, if◌then◌else◌,
  arith, not, ap, ◌↔◌,
}
use relative_q.Hash.Arch.{first_hit, ctz}
use relative_q.Hash.Arch.First.{first_hit-some, first_hit-none}
use relative_q.Hash.Cuckoo.{Buckets, Head}
use relative_q.Hash.KeyTable.{
  Ops, OpsLaws, FindCtx, bucket0, bucket1, find, hash_key, scan_bk, cmp_key,
}
use relative_q.Hash.KeyTable.Bounds.{key_nodes, bucket0-le, bucket1-le}
use relative_q.Hash.Cuckoo.Slots.{ap₂}
use relative_q.Hash.Cuckoo.Valid.{IsValid, InTable, Stored}

-- A test of the mask and `ctz` are the first hit.
hits-first_hit :
    {A : Type 0} (ops : Ops) (arr : ℕ → ℕ) (val : ℕ) (f : ℕ → A) (d : A)
    → (if not (ops.find_key arr val == 0) then f (ctz (ops.find_key arr val)) else d)
      ≡ (elim (first_hit ops.find_key arr val) as (λ _. A) [ some s ↦ f s | none ↦ d ])
unfolding first_hit
hits-first_hit ops arr val f d = elim (Bool-cases (ops.find_key arr val == 0)) [
  | inl e ↦ rw e refl
  | inr e ↦ rw e refl
]

-- The three outcomes of a scan of the two buckets of a key for it.
pub data Located (ops : Ops) (t : Buckets) (b0 b1 key : ℕ) : Type 0 where
  in_first : (s : ℕ) → first_hit ops.find_key (t.key b0) key ≡ some s → Located ops t b0 b1 key
  in_second :
      (s : ℕ)
      → first_hit ops.find_key (t.key b0) key ≡ none
      → first_hit ops.find_key (t.key b1) key ≡ some s
      → Located ops t b0 b1 key
  nowhere :
      first_hit ops.find_key (t.key b0) key ≡ none
      → first_hit ops.find_key (t.key b1) key ≡ none
      → Located ops t b0 b1 key

pub locate : (ops : Ops) (t : Buckets) (b0 b1 key : ℕ) → Located ops t b0 b1 key
locate ops t b0 b1 key = elim (Option-cases (first_hit ops.find_key (t.key b0) key)) [
  | inr (s, e) ↦ in_first s e
  | inl e ↦ elim (Option-cases (first_hit ops.find_key (t.key b1) key)) [
    | inr (s, e') ↦ in_second s e e'
    | inl e' ↦ nowhere e e'
  ]
]

find-first_hit :
    (ops : Ops) (t : Buckets) (key : ℕ) (ctx : FindCtx) (h : Head)
    → find ops ctx h t key
      ≡ (elim (first_hit ops.find_key (t.key (bucket0 ops h.mask key)) key) as (λ _. ℕ) [
        | some s ↦ t.idx (bucket0 ops h.mask key) s
        | none ↦ elim (first_hit ops.find_key (t.key (bucket1 ops h.mask key)) key) as (λ _. ℕ) [
          | some s ↦ t.idx (bucket1 ops h.mask key) s
          | none ↦ 0
        ]
      ])
unfolding find hash_key scan_bk cmp_key
find-first_hit ops t key ctx h =
    let (b0, b1) : ℕ × ℕ = (bucket0 ops h.mask key, bucket1 ops h.mask key) in
    hits-first_hit ops (t.key b0) key (t.idx b0) (
      if not (ops.find_key (t.key b1) key == 0)
      then t.idx b1 (ctz (ops.find_key (t.key b1) key))
      else 0)
    ∙ ap
        (λ d. elim (first_hit ops.find_key (t.key b0) key) as (λ _. ℕ) [
          | some s ↦ t.idx b0 s
          | none ↦ d
        ])
        (hits-first_hit ops (t.key b1) key (t.idx b1) 0)

module _ (ops : Ops) (laws : OpsLaws ops) (mask : ℕ) (node_key : ℕ → ℕ) (iv : ℕ) (t : Buckets)
    (valid : IsValid (key_nodes ops laws iv mask node_key) t) (key : ℕ) where
  abbrev b0 : ℕ
  b0 = bucket0 ops mask key

  abbrev b1 : ℕ
  b1 = bucket1 ops mask key

  -- Where both scans fail, no node is stored under the key.
  pub nowhere-Stored :
      first_hit ops.find_key (t.key b0) key ≡ none
      → first_hit ops.find_key (t.key b1) key ≡ none
      → (n : ℕ) → ¬ Stored mask t key n
  nowhere-Stored e e' n (b, s, (r, u), o, ek, ei) =
      let ne : t.idx b s ≢ 0 = λ z. o (sym ei ∙ z) in
      let own : node_key (t.idx b s) ≡ key = sym (valid.owned b s (r, u) ne) ∙ ek in
      elim (valid.placed b s (r, u) ne) [
        | inl p ↦
            first_hit-none laws.find_key_lem (t.key b0) key s e u
              (sym (ap₂ t.key (p ∙ ap (bucket0 ops mask) own) refl) ∙ ek)
        | inr p ↦
            first_hit-none laws.find_key_lem (t.key b1) key s e' u
              (sym (ap₂ t.key (p ∙ ap (bucket1 ops mask) own) refl) ∙ ek)
      ]

  -- A slot with the key holds every node that is stored under it.
  pub hit-Stored :
      (b s : ℕ) → InTable mask b s → t.key b s ≡ key → (n : ℕ) → Stored mask t key n → t.idx b s ≡ n
  hit-Stored b s r e n (b', s', r', o, ek, ei) = elim (Bool-cases (t.idx b s == 0)) [
    | inl z ↦
        absurd (
          valid.full b' s' r' (λ z. o (sym ei ∙ z)) (ek ∙ sym e ∙ valid.empty b s r (ground arith)))
    | inr z ↦
        let ne : t.idx b s ≢ 0 = ground arith in
        let ne' : t.idx b' s' ≢ 0 = λ z. o (sym ei ∙ z) in
        let (p, q) =
          valid.unique b s b' s' r r' ne ne'
            (sym (valid.owned b s r ne) ∙ e ∙ sym ek ∙ valid.owned b' s' r' ne') in
        ap₂ t.idx p q ∙ ei
  ]

  pub first-InTable :
      (s : ℕ)
      → first_hit ops.find_key (t.key b0) key ≡ some s
      → InTable mask b0 s × (t.key b0 s ≡ key)
  first-InTable s e =
      let (u, k) = first_hit-some laws.find_key_lem (t.key b0) key s e in
      ((bucket0-le ops mask key, u), k)

  pub second-InTable :
      (s : ℕ)
      → first_hit ops.find_key (t.key b1) key ≡ some s
      → InTable mask b1 s × (t.key b1 s ≡ key)
  second-InTable s e =
      let (u, k) = first_hit-some laws.find_key_lem (t.key b1) key s e in
      ((bucket1-le ops mask key, u), k)

module _ (ops : Ops) (laws : OpsLaws ops) (node_key : ℕ → ℕ) (iv : ℕ) (h : Head) (t : Buckets) where
  -- In a valid table `find` gives a node, not NULL, exactly when that node is stored under the
  -- key, whatever its context holds before.
  pub find-Stored :
      IsValid (key_nodes ops laws iv h.mask node_key) t
      → (ctx : FindCtx) (key n : ℕ) → n ≢ 0
      → (find ops ctx h t key ≡ n) ↔ Stored h.mask t key n
  find-Stored valid ctx key n o =
      let b0 = bucket0 ops h.mask key in
      let b1 = bucket1 ops h.mask key in
      let f = find-first_hit ops t key ctx h in
      let hit = hit-Stored ops laws h.mask node_key iv t valid key in
      elim (locate ops t b0 b1 key) [
        | in_first s e ↦
            let (r, k) = first-InTable ops laws h.mask node_key iv t valid key s e in
            let q : find ops ctx h t key ≡ t.idx b0 s = rw e at f in
            (λ p. (b0, s, r, o, k, sym q ∙ p), λ st. q ∙ hit b0 s r k n st)
        | in_second s e e' ↦
            let (r, k) = second-InTable ops laws h.mask node_key iv t valid key s e' in
            let q : find ops ctx h t key ≡ t.idx b1 s = rw (e, e') at f in
            (λ p. (b1, s, r, o, k, sym q ∙ p), λ st. q ∙ hit b1 s r k n st)
        | nowhere e e' ↦
            let q : find ops ctx h t key ≡ 0 = rw (e, e') at f in
            (
              λ p. absurd (o (sym p ∙ q)),
              λ st. absurd (nowhere-Stored ops laws h.mask node_key iv t valid key e e' n st),
            )
      ]
