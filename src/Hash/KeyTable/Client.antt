-- ===== src/Hash/KeyTable/Client.antt =====
-- What a caller of the table sees: how `insert` and `remove` change what `find` gives.
use relative_q.Base.{
  ℕ, ◌≡◌, ◌≢◌, ◌↔◌, inl, inr, ◌∙◌, sym, refl, ◌==◌, ==_iff, Bool-cases, if◌then◌else◌, arith, ap,
  subst,
}
use relative_q.Hash.Cuckoo.{Buckets, Head}
use relative_q.Hash.Cuckoo.Valid.{IsValid, Stored}
use relative_q.Hash.KeyTable.{
  Ops, OpsLaws, FindCtx, find, hash_key, scan_bk, cmp_key, insert, remove,
}
use relative_q.Hash.KeyTable.Bounds.{key_nodes}
use relative_q.Hash.KeyTable.Find.{find-Stored}
use relative_q.Hash.KeyTable.Insert.{insert-Outcome}
use relative_q.Hash.KeyTable.Remove.{remove-Removed}

find_mask :
    (ops : Ops) (ctx : FindCtx) (h h' : Head) (t : Buckets) (key : ℕ)
    → h'.mask ≡ h.mask
    → find ops ctx h' t key ≡ find ops ctx h t key
unfolding find hash_key scan_bk cmp_key
find_mask ops ctx h h' t key e = ap (λ m. find ops ctx (record { mask = m; nb = 0 }) t key) e

-- Two results that agree wherever one is not 0.
same_result : (a b : ℕ) → (a ≢ 0 → b ≡ a) → (b ≢ 0 → a ≡ b) → b ≡ a
same_result a b f g = elim (Bool-cases (a == 0)) [
  | inl e ↦ elim (Bool-cases (b == 0)) [ inl e' ↦ ground arith | inr e' ↦ sym (g (ground arith)) ]
  | inr e ↦ f (ground arith)
]

module _ (ops : Ops) (laws : OpsLaws ops) (iv : ℕ) (node_key : ℕ → ℕ) (h : Head) (t : Buckets)
    (valid : IsValid (key_nodes ops laws iv h.mask node_key) t) (ctx : FindCtx) (elm : ℕ)
    (o : elm ≢ 0) where
  Stored-key : (k n : ℕ) → Stored h.mask t k n → k ≡ node_key n
  Stored-key k n (b, s, r, m, ek, ei) =
      sym ek ∙ valid.owned b s r (λ z. m (sym ei ∙ z)) ∙ ap node_key ei

  -- The nodes that `find` gives in two tables are the same when the tables store the same ones
  -- under the key.
  find_same :
      (t' : Buckets) (key : ℕ)
      → IsValid (key_nodes ops laws iv h.mask node_key) t'
      → ((n : ℕ) → Stored h.mask t key n ↔ Stored h.mask t' key n)
      → find ops ctx h t' key ≡ find ops ctx h t key
  find_same t' key valid' eq =
      same_result (find ops ctx h t key) (find ops ctx h t' key)
        (λ m.
          (find-Stored ops laws node_key iv h t' valid' ctx key _ m).1
            ((eq _).0 ((find-Stored ops laws node_key iv h t valid ctx key _ m).0 refl)))
        (λ m.
          (find-Stored ops laws node_key iv h t valid ctx key _ m).1
            ((eq _).1 ((find-Stored ops laws node_key iv h t' valid' ctx key _ m).0 refl)))

  -- After `insert` has given NULL, `find` gives the new node under its key and under every other
  -- key what it gave before.
  pub find-insert :
      (key : ℕ)
      → node_key elm ≢ iv
      → (insert ops iv elm (node_key elm) (h, t)).0 ≡ 0
      → find ops ctx
          ((insert ops iv elm (node_key elm) (h, t)).1)
          ((insert ops iv elm (node_key elm) (h, t)).2)
          key
        ≡ (if key == node_key elm then elm else find ops ctx h t key)
  find-insert key ok z =
      let r = insert ops iv elm (node_key elm) (h, t) in
      elim (insert-Outcome ops laws iv node_key h t elm valid o ok) [
        | inl ((b, s, u, m, ek, ei), e, e') ↦ absurd (m z)
        | inr (inr (absent, e, e1, k)) ↦ absurd (o (sym e ∙ z))
        | inr (inl (absent, e, em, en, v, st)) ↦
            find_mask ops ctx h r.1 r.2 key em ∙ (elim (Bool-cases (key == node_key elm)) [
              | inl q ↦
                  (let eq = (==_iff key (node_key elm)).0 q in
                    rw q (
                      (find-Stored ops laws node_key iv h r.2 v ctx key elm o).1
                        ((st key elm).1 (inr (eq, refl)))))
              | inr q ↦
                  (rw q (
                    find_same r.2 key v (λ n. (
                      λ x. (st key n).1 (inl x),
                      λ x. elim ((st key n).0 x) [
                        | inl y ↦ y
                        | inr (eq, y) ↦ absurd (ground arith)
                      ],
                    ))))
            ])
      ]

  -- After `remove` has given the node back, `find` gives NULL under its key and under every other
  -- key what it gave before.
  pub find-remove :
      (key : ℕ)
      → (remove ops iv elm (node_key elm) (h, t)).0 ≡ elm
      → find ops ctx
          ((remove ops iv elm (node_key elm) (h, t)).1)
          ((remove ops iv elm (node_key elm) (h, t)).2)
          key
        ≡ (if key == node_key elm then 0 else find ops ctx h t key)
  find-remove key z =
      let r = remove ops iv elm (node_key elm) (h, t) in
      elim (remove-Removed ops laws iv node_key h t elm valid o) [
        | inr (absent, e, e1, e2) ↦ absurd (o (sym z ∙ e))
        | inl (held, e, em, en, v, st) ↦
            find_mask ops ctx h r.1 r.2 key em ∙ (elim (Bool-cases (key == node_key elm)) [
              | inl q ↦
                  let eq = (==_iff key (node_key elm)).0 q in
                  let here =
                    (find-Stored ops laws node_key iv h t valid ctx key elm o).1
                      (subst (λ k. Stored h.mask t k elm) (sym eq) held) in
                  rw q (
                    same_result 0 (find ops ctx h r.2 key) (λ m. absurd (m refl))
                      (λ m.
                        let (old, ne) =
                          (st key _).0
                            ((find-Stored ops laws node_key iv h r.2 v ctx key _ m).0 refl) in
                        absurd (
                          ne (
                            sym ((find-Stored ops laws node_key iv h t valid ctx key _ m).1 old)
                            ∙ here))))
              | inr q ↦ rw q (
                  find_same r.2 key v (λ n. (
                    λ x. (st key n).1 (
                      x,
                      λ y. let own = Stored-key key n x ∙ ap node_key y in absurd (ground arith),
                    ),
                    λ x. ((st key n).0 x).0,
                  )))
            ])
      ]
