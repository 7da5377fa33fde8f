-- ===== src/Hash/KeyTable/Bulk.antt =====
-- rix_hash32.h: the staged lookup of several keys, against what the table stores.
use relative_q.Base.{ℕ, ◌≡◌, ◌≢◌, ◌↔◌, refl, ap, subst, sym, List, [], ◌∷◌, map, length, arith}
use relative_q.Hash.Cuckoo.Valid.{IsValid, Stored}
use relative_q.Hash.KeyTable.{
  Ops, OpsLaws, Buckets, Head, FindCtx, find, hash_key, scan_bk, cmp_key, hash_key_n, scan_bk_n,
  cmp_key_n,
}
use relative_q.Hash.KeyTable.Bounds.{key_nodes}
use relative_q.Hash.KeyTable.Find.{find-Stored}

-- The three bulk stages over as many contexts as keys are `find` for each key.
cmp_key_n-find :
    (ops : Ops) (h : Head) (t : Buckets) (keys : List ℕ) (ctx : List FindCtx) (c : FindCtx)
    → length keys ≡ length ctx
    → cmp_key_n ops t (scan_bk_n ops t (hash_key_n ops h keys ctx)) ≡ map (find ops c h t) keys
unfolding hash_key_n scan_bk_n cmp_key_n find hash_key scan_bk cmp_key
cmp_key_n-find ops h t [] [] c e = refl
cmp_key_n-find ops h t [] (c' ∷ ctx) c e = absurd (omega arith)
cmp_key_n-find ops h t (k ∷ keys) [] c e = absurd (omega arith)
cmp_key_n-find ops h t (k ∷ keys) (c' ∷ ctx) c e =
    ap (λ r. find ops c h t k ∷ r) (cmp_key_n-find ops h t keys ctx c (omega arith))

-- One result for each key, in order: the node that the table stores under the key, or NULL.
abbrev pub IsAnswered : ℕ → Buckets → List ℕ → List ℕ → Type 0
IsAnswered mask t [] [] = Unit
IsAnswered mask t [] (n ∷ results) = ⊥
IsAnswered mask t (k ∷ keys) [] = ⊥
IsAnswered mask t (k ∷ keys) (n ∷ results) =
    ((m : ℕ) → m ≢ 0 → (n ≡ m) ↔ Stored mask t k m) × IsAnswered mask t keys results

module _ (ops : Ops) (laws : OpsLaws ops) (node_key : ℕ → ℕ) (iv : ℕ) (h : Head) (t : Buckets)
    (valid : IsValid (key_nodes ops laws iv h.mask node_key) t) where
  map_find-IsAnswered :
      (c : FindCtx) (keys : List ℕ) → IsAnswered h.mask t keys (map (find ops c h t) keys)
  map_find-IsAnswered c [] = tt
  map_find-IsAnswered c (k ∷ keys) =
      (λ m o. find-Stored ops laws node_key iv h t valid c k m o, map_find-IsAnswered c keys)

  -- In a valid table the three bulk stages, over as many contexts as keys, give for each key in
  -- order the node that is stored under it, or NULL if there is none, whatever the contexts hold
  -- before.
  pub cmp_key_n-IsAnswered :
      (keys : List ℕ) (ctx : List FindCtx)
      → length keys ≡ length ctx
      → IsAnswered h.mask t keys (cmp_key_n ops t (scan_bk_n ops t (hash_key_n ops h keys ctx)))
  cmp_key_n-IsAnswered keys ctx e =
      let c : FindCtx = record { bk0 = 0; bk1 = 0; key = 0; hits0 = 0; hits1 = 0 } in
      subst (IsAnswered h.mask t keys) (sym (cmp_key_n-find ops h t keys ctx c e))
        (map_find-IsAnswered c keys)
