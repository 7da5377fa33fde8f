-- ===== src/Hash/KeyTable/Remove.antt =====
-- `remove`, against the set of nodes.
use relative_q.Base.{
  ℕ, ◌≡◌, ◌≢◌, ◌⊎◌, ◌↔◌, inl, inr, ◌∙◌, sym, refl, none, Option-cases, ◌+◌, ◌-◌, ◌%◌, ◌^◌, ap,
}
use relative_q.Hash.Arch.{first_hit}
use relative_q.Hash.Arch.First.{first_hit-some, first_hit-none}
use relative_q.Hash.Cuckoo.{Buckets, Head}
use relative_q.Hash.KeyTable.{Ops, OpsLaws, scheme, bucket0, bucket1, remove, clear}
use relative_q.Hash.KeyTable.Bounds.{key_nodes, bucket0-le, bucket1-le}
use relative_q.Hash.Cuckoo.Slots.{ap₂}
use relative_q.Hash.Cuckoo.Valid.{NodeInfo, IsValid, InTable, Stored}
use relative_q.Hash.Cuckoo.Clear.{clear-IsValid, clear-Stored}

module _ (ops : Ops) (laws : OpsLaws ops) (iv : ℕ) (node_key : ℕ → ℕ) (h : Head) (t : Buckets)
    (elm : ℕ) where
  abbrev m : NodeInfo (scheme ops iv) h.mask
  m = key_nodes ops laws iv h.mask node_key

  -- `elm` is given back, and it is the one node that has gone.
  abbrev pub IsRemoved : ℕ × Head × Buckets → Type 0
  IsRemoved r =
      Stored h.mask t (node_key elm) elm
      × (r.0 ≡ elm)
      × ((r.1).mask ≡ h.mask)
      × ((r.1).nb ≡ (h.nb + (2 ^ 32 - 1)) % 2 ^ 32)
      × IsValid m (r.2)
      × ((k n : ℕ) → Stored h.mask (r.2) k n ↔ (Stored h.mask t k n × (n ≢ elm)))

  -- `elm` is not in the table: NULL is given and nothing is written.
  abbrev pub IsAbsent : ℕ × Head × Buckets → Type 0
  IsAbsent r = ((k : ℕ) → ¬ Stored h.mask t k elm) × (r.0 ≡ 0) × (r.1 ≡ h) × (r.2 ≡ t)

  module _ (valid : IsValid m t) (o : elm ≢ 0) where
    removed :
        (b s : ℕ)
        → InTable h.mask b s
        → t.idx b s ≡ elm
        → IsRemoved (elm, (clear ops iv b s (h, t)).0, (clear ops iv b s (h, t)).1)
    unfolding clear
    removed b s r e =
        let own = valid.owned b s r (λ z. o (sym e ∙ z)) ∙ ap node_key e in
        (
          (b, s, r, o, own, e),
          refl,
          refl,
          refl,
          clear-IsValid valid b s elm r o e,
          clear-Stored valid b s elm r o e,
        )

    -- A node stored under any key is in one of the buckets of its own key.
    missing :
        first_hit ops.find_idx (t.idx (bucket0 ops h.mask (node_key elm))) elm ≡ none
        → first_hit ops.find_idx (t.idx (bucket1 ops h.mask (node_key elm))) elm ≡ none
        → (k : ℕ) → ¬ Stored h.mask t k elm
    missing e e' k (b, s, (l, u), o, ek, ei) =
        elim (valid.placed b s (l, u) (λ z. o (sym ei ∙ z))) [
          | inl p ↦
              first_hit-none laws.find_idx_lem (t.idx (bucket0 ops h.mask (node_key elm))) elm s e u
                (sym (ap₂ t.idx (p ∙ ap (λ n. bucket0 ops h.mask (node_key n)) ei) refl) ∙ ei)
          | inr p ↦
              first_hit-none laws.find_idx_lem (t.idx (bucket1 ops h.mask (node_key elm))) elm s e'
                u (sym (ap₂ t.idx (p ∙ ap (λ n. bucket1 ops h.mask (node_key n)) ei) refl) ∙ ei)
        ]

    -- `remove` of a node that is not NULL from a valid table: if it is stored, it is given back
    -- and only it has gone from the table, which is valid; if not, NULL is given and nothing
    -- changes.
    pub remove-Removed :
        IsRemoved (remove ops iv elm (node_key elm) (h, t))
        ⊎ IsAbsent (remove ops iv elm (node_key elm) (h, t))
    unfolding remove
    remove-Removed =
        let b0 = bucket0 ops h.mask (node_key elm) in
        let b1 = bucket1 ops h.mask (node_key elm) in
        let l0 = bucket0-le ops h.mask (node_key elm) in
        let l1 = bucket1-le ops h.mask (node_key elm) in
        elim (Option-cases (first_hit ops.find_idx (t.idx b0) elm)) [
          | inr (s, e) ↦
              let (u, i) = first_hit-some laws.find_idx_lem (t.idx b0) elm s e in
              rw (remove, e) (inl (removed b0 s (l0, u) i))
          | inl e ↦ elim (Option-cases (first_hit ops.find_idx (t.idx b1) elm)) [
            | inr (s, e') ↦
                let (u, i) = first_hit-some laws.find_idx_lem (t.idx b1) elm s e' in
                rw (remove, e, e') (inl (removed b1 s (l1, u) i))
            | inl e' ↦ rw (remove, e, e') (inr (missing e e', refl, refl, refl))
          ]
        ]
