-- ===== src/Hash/Fingerprint/Remove.antt =====
-- `remove` of rix_hash_keyonly.h, against the set of nodes.
use relative_q.Base.{
  ℕ, ◌≡◌, ◌≢◌, ◌⊎◌, ◌↔◌, inl, inr, ◌∙◌, sym, refl, none, some, Option-cases, ◌+◌, ◌%◌, ◌^◌, ap,
  ◌==◌, ltb, true, false, ◌<◌, arith, Option, false, ◌-◌, subst,
}
use relative_q.Hash.Arch.{first_hit}
use relative_q.Hash.Arch.First.{first_hit-some, first_hit-none}
use relative_q.Hash.Cuckoo.{Buckets, Head, set_slot}
use relative_q.Hash.Cuckoo.Slots.{ap₂}
use relative_q.Hash.Cuckoo.Valid.{NodeInfo, IsValid, InTable}
use relative_q.Hash.Cuckoo.Clear.{clear-IsValid, clear-Stored}
use relative_q.Hash.Fingerprint.{FpOps, buckets, remove_at}
use relative_q.Hash.Fingerprint.Laws.{FpLaws, fp_nodes, bucket0, bucket1, IsHome, IsHome-le}
use relative_q.Hash.Fingerprint.KeyOnly.{scheme, remove, remove_from}
use relative_q.Hash.Fingerprint.Find.{Holds}

module _ {Key : Type 0} (ops : FpOps Key) (node_key : ℕ → Key) (h : Head) (laws : FpLaws ops h.mask)
    (t : Buckets) (elm : ℕ) where
  abbrev m : NodeInfo (scheme ops node_key) h.mask
  m = fp_nodes ops node_key h.mask laws

  -- `elm` is given back, and it is the one node that has gone.
  abbrev pub IsRemoved : ℕ × Head × Buckets → Type 0
  IsRemoved r =
      Holds ops node_key h.mask t elm
      × (r.0 ≡ elm)
      × ((r.1).mask ≡ h.mask)
      × ((r.1).nb ≡ (h.nb + (2 ^ 32 - 1)) % 2 ^ 32)
      × IsValid m (r.2)
      × ((n : ℕ) → Holds ops node_key h.mask (r.2) n ↔ (Holds ops node_key h.mask t n × (n ≢ elm)))

  -- `elm` is not in the table: NULL is given and nothing is written.
  abbrev pub IsAbsent : ℕ × Head × Buckets → Type 0
  IsAbsent r = (¬ Holds ops node_key h.mask t elm) × (r.0 ≡ 0) × (r.1 ≡ h) × (r.2 ≡ t)

  abbrev pub Outcome : ℕ × Head × Buckets → Type 0
  Outcome r = IsRemoved r ⊎ IsAbsent r

  -- `remove_at` of a slot that holds a node.
  pub remove_at-some :
      (b s : ℕ)
      → s < 16
      → t.idx b s ≡ elm
      → elm ≢ 0
      → remove_at b s (h, t)
        ≡ (elm, record h { nb = (h.nb + (2 ^ 32 - 1)) % 2 ^ 32 }, set_slot b s 0 0 t)
  unfolding remove_at
  remove_at-some b s u e o =
      let l : ltb s 16 ≡ true = ground arith in
      let z : (t.idx b s == 0) ≡ false = ground arith in rw (remove_at, l, z, e) refl

  module _ (valid : IsValid m t) (o : elm ≢ 0) where
    pub removed :
        (b s : ℕ)
        → InTable h.mask b s
        → t.idx b s ≡ elm
        → IsRemoved (elm, record h { nb = (h.nb + (2 ^ 32 - 1)) % 2 ^ 32 }, set_slot b s 0 0 t)
    removed b s r e = (
      (b, s, r, o, valid.owned b s r (λ z. o (sym e ∙ z)) ∙ ap m.tag e, e),
      refl,
      refl,
      refl,
      clear-IsValid valid b s elm r o e,
      λ n. clear-Stored valid b s elm r o e (m.tag n) n,
    )

    abbrev hit : ℕ → Option ℕ
    hit b = first_hit ops.find (t.idx b) elm

    -- A node that neither bucket of its key has is not in the table.
    missing :
        hit (bucket0 ops h.mask (node_key elm)) ≡ none
        → hit (bucket1 ops h.mask (node_key elm)) ≡ none
        → ¬ Holds ops node_key h.mask t elm
    missing e e' (b, s, (l, u), o, ek, ei) = elim (valid.placed b s (l, u) (λ z. o (sym ei ∙ z))) [
      | inl p ↦
          first_hit-none laws.find_lem (t.idx (bucket0 ops h.mask (node_key elm))) elm s e u
            (sym (ap₂ t.idx (p ∙ ap (λ n. bucket0 ops h.mask (node_key n)) ei) refl) ∙ ei)
      | inr p ↦
          first_hit-none laws.find_lem (t.idx (bucket1 ops h.mask (node_key elm))) elm s e' u
            (sym (ap₂ t.idx (p ∙ ap (λ n. bucket1 ops h.mask (node_key n)) ei) refl) ∙ ei)
    ]

    -- A round of `remove` whose bucket has the node.
    round-some :
        (b s : ℕ) (rest : ℕ × Head × Buckets)
        → IsHome ops h.mask (node_key elm) b
        → hit b ≡ some s
        → Outcome (remove_from ops node_key elm b (h, t) rest)
    unfolding remove_from
    round-some b s rest home e =
        let (u, i) = first_hit-some laws.find_lem (t.idx b) elm s e in
        let z : (elm == 0) ≡ false = ground arith in
        rw (remove_from, e, remove_at-some b s u i o, z)
          (inl (removed b s (IsHome-le ops h.mask (node_key elm) b home, u) i))

    round-none :
        (b : ℕ) (rest : ℕ × Head × Buckets)
        → hit b ≡ none
        → remove_from ops node_key elm b (h, t) rest ≡ rest
    unfolding remove_from
    round-none b rest e = rw (remove_from, e) refl

    -- `remove` of rix_hash_keyonly.h, of a node that is not NULL from a valid table: if it is
    -- stored, it is given back and only it has gone from the table, which is valid; if not, NULL is
    -- given and nothing changes.
    pub remove_keyonly-Outcome : Outcome (remove ops node_key elm h t)
    unfolding remove buckets
    remove_keyonly-Outcome =
        let (b0, b1) : ℕ × ℕ =
          (bucket0 ops h.mask (node_key elm), bucket1 ops h.mask (node_key elm)) in
        elim (Option-cases (hit b0)) [
          | inr (s, e) ↦ round-some b0 s _ (inl refl) e
          | inl e ↦ subst Outcome (sym (round-none b0 _ e)) (elim (Option-cases (hit b1)) [
            | inr (s, e') ↦ round-some b1 s _ (inr refl) e'
            | inl e' ↦
                subst Outcome (sym (round-none b1 _ e')) (inr (missing e e', refl, refl, refl))
          ])
        ]
