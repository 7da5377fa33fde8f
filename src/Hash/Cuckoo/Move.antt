-- ===== src/Hash/Cuckoo/Move.antt =====
-- `move_entry` of a node into a free slot of its other bucket, against the invariant.
use relative_q.Base.{ℕ, ◌≡◌, ◌≢◌, ◌⊎◌, inl, inr, ◌∙◌, sym, refl, ap, Bool-cases, false}
use relative_q.Hash.Cuckoo.{Scheme, Buckets, set_slot, move_entry}
use relative_q.Hash.Cuckoo.Slots.{moved-cases, set_slot-cases, is_at, absurd-at, at_same, ap₂}
use relative_q.Hash.Cuckoo.Valid.{NodeInfo, IsValid, InTable, Stored, Keeps}

module _ {c : Scheme} {mask : ℕ} {m : NodeInfo c mask} {t : Buckets} (valid : IsValid m t)
    (b s alt es : ℕ) (target : InTable mask alt es) (source : InTable mask b s) (ne : t.idx b s ≢ 0)
    (free : t.idx alt es ≡ 0) (home : m.IsHome (t.idx b s) alt) where
  abbrev moved : Buckets
  moved = move_entry c b s alt es t

  move-empty :
      (b' s' : ℕ) → InTable mask b' s' → moved.idx b' s' ≡ 0 → moved.key b' s' ≡ c.invalid_key
  unfolding move_entry
  move-empty b' s' r e =
      elim (set_slot-cases b s c.invalid_key 0 (set_slot alt es (t.key b s) (t.idx b s) t) b' s') [
        | inl (p, q, k, i) ↦ k
        | inr (a, k, i) ↦ elim (set_slot-cases alt es (t.key b s) (t.idx b s) t b' s') [
          | inl (p, q, k', i') ↦ absurd (ne (sym i' ∙ sym i ∙ e))
          | inr (a', k', i') ↦ k ∙ k' ∙ valid.empty b' s' r (sym i' ∙ sym i ∙ e)
        ]
      ]

  -- An occupied slot after the move is the target, or a slot that is neither and as before.
  occupied :
      (b' s' : ℕ)
      → moved.idx b' s' ≢ 0
      → ((b' ≡ alt) × (s' ≡ es) × (moved.key b' s' ≡ t.key b s) × (moved.idx b' s' ≡ t.idx b s))
        ⊎ ((is_at b s b' s' ≡ false)
            × (moved.key b' s' ≡ t.key b' s')
            × (moved.idx b' s' ≡ t.idx b' s'))
  unfolding move_entry
  occupied b' s' o = elim (moved-cases b s alt es c.invalid_key t b' s' o) [
    | inl (a, p, q, k, i) ↦ inl (p, q, k, i)
    | inr (a, a', k, i) ↦ inr (a, k, i)
  ]

  move-full :
      (b' s' : ℕ) → InTable mask b' s' → moved.idx b' s' ≢ 0 → moved.key b' s' ≢ c.invalid_key
  move-full b' s' r o e = elim (occupied b' s' o) [
    | inl (p, q, k, i) ↦ valid.full b s source ne (sym k ∙ e)
    | inr (a, k, i) ↦ valid.full b' s' r (λ z. o (i ∙ z)) (sym k ∙ e)
  ]

  move-owned :
      (b' s' : ℕ)
      → InTable mask b' s'
      → moved.idx b' s' ≢ 0
      → moved.key b' s' ≡ m.tag (moved.idx b' s')
  move-owned b' s' r o = elim (occupied b' s' o) [
    | inl (p, q, k, i) ↦ k ∙ valid.owned b s source ne ∙ ap m.tag (sym i)
    | inr (a, k, i) ↦ k ∙ valid.owned b' s' r (λ z. o (i ∙ z)) ∙ ap m.tag (sym i)
  ]

  move-placed :
      (b' s' : ℕ) → InTable mask b' s' → moved.idx b' s' ≢ 0 → m.IsHome (moved.idx b' s') b'
  move-placed b' s' r o = elim (occupied b' s' o) [
    | inl (p, q, k, i) ↦ rw (i, p) home
    | inr (a, k, i) ↦ rw i (valid.placed b' s' r (λ z. o (i ∙ z)))
  ]

  -- Only the source holds the key that was moved.
  not-moved-key :
      (b' s' : ℕ)
      → InTable mask b' s'
      → is_at b s b' s' ≡ false
      → t.idx b' s' ≢ 0
      → m.key (t.idx b s) ≢ m.key (t.idx b' s')
  not-moved-key b' s' r a o e =
      let (p, q) = valid.unique b s b' s' source r ne o e in absurd-at a p q

  move_unique :
      (b' s' b'' s'' : ℕ)
      → InTable mask b' s'
      → InTable mask b'' s''
      → moved.idx b' s' ≢ 0
      → moved.idx b'' s'' ≢ 0
      → m.key (moved.idx b' s') ≡ m.key (moved.idx b'' s'')
      → (b' ≡ b'') × (s' ≡ s'')
  move_unique b' s' b'' s'' r r' o o' e = elim (occupied b' s' o) [
    | inl (p, q, k, i) ↦ elim (occupied b'' s'' o') [
      | inl (p', q', k', i') ↦ (p ∙ sym p', q ∙ sym q')
      | inr (a', k', i') ↦
          absurd
            (not-moved-key b'' s'' r' a' (λ z. o' (i' ∙ z)) (ap m.key (sym i) ∙ e ∙ ap m.key i'))
    ]
    | inr (a, k, i) ↦ elim (occupied b'' s'' o') [
      | inl (p', q', k', i') ↦
          absurd (not-moved-key b' s' r a (λ z. o (i ∙ z)) (ap m.key (sym i') ∙ sym e ∙ ap m.key i))
      | inr (a', k', i') ↦
          let same = valid.unique b' s' b'' s'' r r' in
          same (λ z. o (i ∙ z)) (λ z. o' (i' ∙ z)) (ap m.key (sym i) ∙ e ∙ ap m.key i')
    ]
  ]

  -- A node that was not moved is where it was.
  kept :
      (b' s' n : ℕ)
      → n ≢ 0
      → t.idx b' s' ≡ n
      → is_at b s b' s' ≡ false
      → (moved.key b' s' ≡ t.key b' s') × (moved.idx b' s' ≡ n)
  unfolding move_entry
  kept b' s' n o e a =
      elim (set_slot-cases b s c.invalid_key 0 (set_slot alt es (t.key b s) (t.idx b s) t) b' s') [
        | inl (p, q, k, i) ↦ absurd-at a (sym p) (sym q)
        | inr (a1, k, i) ↦ elim (set_slot-cases alt es (t.key b s) (t.idx b s) t b' s') [
          | inl (p, q, k', i') ↦ absurd (o (sym e ∙ ap₂ t.idx p q ∙ free))
          | inr (a', k', i') ↦ (k ∙ k', i ∙ i' ∙ e)
        ]
      ]

  -- The target holds the moved node.
  arrived : (moved.key alt es ≡ t.key b s) × (moved.idx alt es ≡ t.idx b s)
  unfolding move_entry
  arrived =
      elim (set_slot-cases b s c.invalid_key 0 (set_slot alt es (t.key b s) (t.idx b s) t) alt es) [
        | inl (p, q, k, i) ↦ absurd (ne (sym (ap₂ t.idx p q) ∙ free))
        | inr (a1, k, i) ↦ elim (set_slot-cases alt es (t.key b s) (t.idx b s) t alt es) [
          | inl (p, q, k', i') ↦ (k ∙ k', i ∙ i')
          | inr (a', k', i') ↦ absurd-at {b = alt} {s = es} a' refl refl
        ]
      ]

  Stored-move : (k n : ℕ) → Stored mask t k n → Stored mask moved k n
  Stored-move k n (b', s', r, o, ek, ei) = elim (Bool-cases (is_at b s b' s')) [
    | inl e ↦
        let (p, q) = at_same e in
        let (ak, ai) = arrived in
        (alt, es, target, o, ak ∙ sym (ap₂ t.key p q) ∙ ek, ai ∙ sym (ap₂ t.idx p q) ∙ ei)
    | inr e ↦ let (mk, mi) = kept b' s' n o ei e in (b', s', r, o, mk ∙ ek, mi)
  ]

  move-Stored : (k n : ℕ) → Stored mask moved k n → Stored mask t k n
  move-Stored k n (b', s', r, o, ek, ei) = elim (occupied b' s' (λ z. o (sym ei ∙ z))) [
    | inl (p, q, mk, mi) ↦ (b, s, source, o, sym mk ∙ ek, sym mi ∙ ei)
    | inr (a, mk, mi) ↦ (b', s', r, o, sym mk ∙ ek, sym mi ∙ ei)
  ]

  pub move-Keeps : Keeps m t moved
  move-Keeps = (
    record {
      empty = move-empty;
      full = move-full;
      owned = move-owned;
      placed = move-placed;
      unique = move_unique;
    },
    λ k n. (Stored-move k n, move-Stored k n),
  )
