-- ===== src/Hash/Cuckoo/Store.antt =====
-- A new node that is stored in a free slot of one of its buckets.
use relative_q.Base.{ℕ, ◌≡◌, ◌≢◌, ◌⊎◌, ◌↔◌, inl, inr, ◌∙◌, sym, refl, ap}
use relative_q.Hash.Cuckoo.{Scheme, Buckets, set_slot}
use relative_q.Hash.Cuckoo.Slots.{set_slot-cases, absurd-at, ap₂}
use relative_q.Hash.Cuckoo.Valid.{IsValid, NodeInfo, InTable, Stored}

module _ {c : Scheme} {mask : ℕ} {m : NodeInfo c mask} {t : Buckets} (valid : IsValid m t)
    (b s elm : ℕ) (r : InTable mask b s) (free : t.idx b s ≡ 0) (o : elm ≢ 0)
    (ok : m.tag elm ≢ c.invalid_key) (home : m.IsHome elm b)
    (absent : (k n : ℕ) → m.key n ≡ m.key elm → ¬ Stored mask t k n) where
  abbrev pub after : Buckets
  after = set_slot b s (m.tag elm) elm t

  pub store-IsValid : IsValid m after
  store-IsValid = record {
    empty = λ b' s' r' e. elim (set_slot-cases b s (m.tag elm) elm t b' s') [
      | inl (p, q, k, i) ↦ absurd (o (sym i ∙ e))
      | inr (a, k, i) ↦ k ∙ valid.empty b' s' r' (sym i ∙ e)
    ];
    full = λ b' s' r' e. elim (set_slot-cases b s (m.tag elm) elm t b' s') [
      | inl (p, q, k, i) ↦ λ z. ok (sym k ∙ z)
      | inr (a, k, i) ↦ λ z. valid.full b' s' r' (λ z. e (i ∙ z)) (sym k ∙ z)
    ];
    owned = λ b' s' r' e. elim (set_slot-cases b s (m.tag elm) elm t b' s') [
      | inl (p, q, k, i) ↦ k ∙ ap m.tag (sym i)
      | inr (a, k, i) ↦ k ∙ valid.owned b' s' r' (λ z. e (i ∙ z)) ∙ ap m.tag (sym i)
    ];
    placed = λ b' s' r' e. elim (set_slot-cases b s (m.tag elm) elm t b' s') [
      | inl (p, q, k, i) ↦ rw (i, p) home
      | inr (a, k, i) ↦ rw i (valid.placed b' s' r' (λ z. e (i ∙ z)))
    ];
    unique = λ b' s' b'' s'' r' r'' e e' q. elim (set_slot-cases b s (m.tag elm) elm t b' s') [
      | inl (p, q1, k, i) ↦ elim (set_slot-cases b s (m.tag elm) elm t b'' s'') [
        | inl (p', q', k', i') ↦ (p ∙ sym p', q1 ∙ sym q')
        | inr (a', k', i') ↦ absurd (
            absent _ (t.idx b'' s'') (ap m.key (sym i') ∙ sym q ∙ ap m.key i)
              (b'', s'', r'', (λ z. e' (i' ∙ z)), refl, refl))
      ]
      | inr (a, k, i) ↦ elim (set_slot-cases b s (m.tag elm) elm t b'' s'') [
        | inl (p', q', k', i') ↦ absurd (
            absent _ (t.idx b' s') (ap m.key (sym i) ∙ q ∙ ap m.key i')
              (b', s', r', (λ z. e (i ∙ z)), refl, refl))
        | inr (a', k', i') ↦
            let same = valid.unique b' s' b'' s'' r' r'' in
            same (λ z. e (i ∙ z)) (λ z. e' (i' ∙ z)) (ap m.key (sym i) ∙ q ∙ ap m.key i')
      ]
    ];
  }

  pub store-Stored :
      (k n : ℕ) → Stored mask after k n ↔ (Stored mask t k n ⊎ ((k ≡ m.tag elm) × (n ≡ elm)))
  store-Stored k n = (
    λ (b', s', r', v, ek, ei). elim (set_slot-cases b s (m.tag elm) elm t b' s') [
      | inl (p, q, k', i) ↦ inr (sym ek ∙ k', sym ei ∙ i)
      | inr (a, k', i) ↦ inl (b', s', r', v, sym k' ∙ ek, sym i ∙ ei)
    ],
    λ x. elim x [
      | inl (b', s', r', v, ek, ei) ↦ elim (set_slot-cases b s (m.tag elm) elm t b' s') [
        | inl (p, q, k', i) ↦ absurd (v (sym ei ∙ ap₂ t.idx p q ∙ free))
        | inr (a, k', i) ↦ (b', s', r', v, k' ∙ ek, i ∙ ei)
      ]
      | inr (ek, en) ↦ elim (set_slot-cases b s (m.tag elm) elm t b s) [
        | inl (p, q, k', i) ↦ (b, s, r, (λ z. o (sym en ∙ z)), k' ∙ sym ek, i ∙ sym en)
        | inr (a, k', i) ↦ absurd-at {b = b} {s = s} a refl refl
      ]
    ],
  )
