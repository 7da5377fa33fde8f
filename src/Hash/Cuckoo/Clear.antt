-- ===== src/Hash/Cuckoo/Clear.antt =====
-- A slot whose node is taken out.
use relative_q.Base.{ℕ, ◌≡◌, ◌≢◌, ◌↔◌, inl, inr, ◌∙◌, sym, ap}
use relative_q.Hash.Cuckoo.{Scheme, Buckets, set_slot}
use relative_q.Hash.Cuckoo.Slots.{set_slot-cases, absurd-at, ap₂}
use relative_q.Hash.Cuckoo.Valid.{NodeInfo, IsValid, InTable, Stored}

module _ {c : Scheme} {mask : ℕ} {m : NodeInfo c mask} {t : Buckets} (valid : IsValid m t)
    (b s elm : ℕ) (r : InTable mask b s) (o : elm ≢ 0) (holds : t.idx b s ≡ elm) where
  abbrev cleared : Buckets
  cleared = set_slot b s c.invalid_key 0 t

  pub clear-IsValid : IsValid m cleared
  clear-IsValid = record {
    empty = λ b' s' r' e. elim (set_slot-cases b s c.invalid_key 0 t b' s') [
      | inl (p, q, k, i) ↦ k
      | inr (a, k, i) ↦ k ∙ valid.empty b' s' r' (sym i ∙ e)
    ];
    full = λ b' s' r' e. elim (set_slot-cases b s c.invalid_key 0 t b' s') [
      | inl (p, q, k, i) ↦ absurd (e i)
      | inr (a, k, i) ↦ λ z. valid.full b' s' r' (λ z. e (i ∙ z)) (sym k ∙ z)
    ];
    owned = λ b' s' r' e. elim (set_slot-cases b s c.invalid_key 0 t b' s') [
      | inl (p, q, k, i) ↦ absurd (e i)
      | inr (a, k, i) ↦ k ∙ valid.owned b' s' r' (λ z. e (i ∙ z)) ∙ ap m.tag (sym i)
    ];
    placed = λ b' s' r' e. elim (set_slot-cases b s c.invalid_key 0 t b' s') [
      | inl (p, q, k, i) ↦ absurd (e i)
      | inr (a, k, i) ↦ rw i (valid.placed b' s' r' (λ z. e (i ∙ z)))
    ];
    unique = λ b' s' b'' s'' r' r'' e e' q. elim (set_slot-cases b s c.invalid_key 0 t b' s') [
      | inl (p, q1, k, i) ↦ absurd (e i)
      | inr (a, k, i) ↦ elim (set_slot-cases b s c.invalid_key 0 t b'' s'') [
        | inl (p', q', k', i') ↦ absurd (e' i')
        | inr (a', k', i') ↦
            let same = valid.unique b' s' b'' s'' r' r'' in
            same (λ z. e (i ∙ z)) (λ z. e' (i' ∙ z)) (ap m.key (sym i) ∙ q ∙ ap m.key i')
      ]
    ];
  }

  pub clear-Stored : (k n : ℕ) → Stored mask cleared k n ↔ (Stored mask t k n × (n ≢ elm))
  clear-Stored k n = (
    λ (b', s', r', v, ek, ei). elim (set_slot-cases b s c.invalid_key 0 t b' s') [
      | inl (p, q, k', i) ↦ absurd (v (sym ei ∙ i))
      | inr (a, k', i) ↦ (
        (b', s', r', v, sym k' ∙ ek, sym i ∙ ei),
        λ z.
            let here : t.idx b' s' ≡ elm = sym i ∙ ei ∙ z in
            let ne = λ (w : t.idx b s ≡ 0). o (sym holds ∙ w) in
            let ne' = λ (w : t.idx b' s' ≡ 0). o (sym here ∙ w) in
            let (p, q) = valid.unique b s b' s' r r' ne ne' (ap m.key (holds ∙ sym here)) in
            absurd-at a p q,
      )
    ],
    λ ((b', s', r', v, ek, ei), d). elim (set_slot-cases b s c.invalid_key 0 t b' s') [
      | inl (p, q, k', i) ↦ absurd (d (sym ei ∙ ap₂ t.idx p q ∙ holds))
      | inr (a, k', i) ↦ (b', s', r', v, k' ∙ ek, i ∙ ei)
    ],
  )
