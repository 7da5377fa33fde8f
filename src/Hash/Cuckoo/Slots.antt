-- ===== src/Hash/Cuckoo/Slots.antt =====
-- Reading a slot after a store.
use relative_q.Base.{
  ℕ, Bool, ◌≢◌, ◌≡◌, ◌==◌, ◌⊎◌, false, ◌&&◌, Bool-cases, inl, inr, arith, ◌∙◌, true,
}
use relative_q.Hash.Cuckoo.{Buckets, set_slot}

abbrev pub is_at : ℕ → ℕ → ℕ → ℕ → Bool
is_at b s b' s' = (b' == b) && (s' == s)

pub at_same : {b s b' s' : ℕ} → is_at b s b' s' ≡ true → (b' ≡ b) × (s' ≡ s)
at_same e = (ground arith, ground arith)

pub absurd-at {ℓ} : {A : Type ℓ} {b s b' s' : ℕ} → is_at b s b' s' ≡ false → b ≡ b' → s ≡ s' → A
absurd-at e p q = absurd (ground arith)

pub ap₂ : (f : ℕ → ℕ → ℕ) {a a' b b' : ℕ} → a ≡ a' → b ≡ b' → f a b ≡ f a' b'
ap₂ f p q = λ i. f (p i) (q i)

module _ (b s key idx : ℕ) (t : Buckets) (b' s' : ℕ) where
  -- A slot is the one that was written, or as before.
  pub set_slot-cases :
      ((b' ≡ b)
        × (s' ≡ s)
        × ((set_slot b s key idx t).key b' s' ≡ key)
        × ((set_slot b s key idx t).idx b' s' ≡ idx))
      ⊎ ((is_at b s b' s' ≡ false)
          × ((set_slot b s key idx t).key b' s' ≡ t.key b' s')
          × ((set_slot b s key idx t).idx b' s' ≡ t.idx b' s'))
  unfolding set_slot
  set_slot-cases = elim (Bool-cases (is_at b s b' s')) [
    | inl e ↦ inl (ground arith, ground arith, rw e, rw e)
    | inr e ↦ inr (e, rw e, rw e)
  ]

module _ (b s alt es iv : ℕ) (t : Buckets) (b' s' : ℕ) where
  abbrev moved : Buckets
  moved = set_slot b s iv 0 (set_slot alt es (t.key b s) (t.idx b s) t)

  -- An occupied slot after a move is the target, with what the source held, or as before.
  pub moved-cases :
      moved.idx b' s' ≢ 0
      → ((is_at b s b' s' ≡ false)
          × (b' ≡ alt)
          × (s' ≡ es)
          × (moved.key b' s' ≡ t.key b s)
          × (moved.idx b' s' ≡ t.idx b s))
        ⊎ ((is_at b s b' s' ≡ false)
            × (is_at alt es b' s' ≡ false)
            × (moved.key b' s' ≡ t.key b' s')
            × (moved.idx b' s' ≡ t.idx b' s'))
  moved-cases ne =
      elim (set_slot-cases b s iv 0 (set_slot alt es (t.key b s) (t.idx b s) t) b' s') [
        | inl (p, q, k, i) ↦ absurd (ne i)
        | inr (a, k, i) ↦ elim (set_slot-cases alt es (t.key b s) (t.idx b s) t b' s') [
          | inl (p, q, k', i') ↦ inl (a, p, q, k ∙ k', i ∙ i')
          | inr (a', k', i') ↦ inr (a, a', k ∙ k', i ∙ i')
        ]
      ]
