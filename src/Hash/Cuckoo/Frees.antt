-- ===== src/Hash/Cuckoo/Frees.antt =====
-- Free slots, and what a part of `kickout` that frees one keeps.
use relative_q.Base.{
  ℕ, ◌≤◌, ◌<◌, ◌≡◌, ◌≢◌, inl, inr, refl, none, some, Option, Bool-cases, ◌==◌, subst, arith, sym,
  ◌∙◌,
}
use relative_q.Hash.Arch.First.{first_hit-some, first_hit-none}
use relative_q.Hash.Cuckoo.{Scheme, Buckets, move_entry, find_empty, set_slot}
use relative_q.Hash.Cuckoo.Slots.{set_slot-cases, absurd-at}
use relative_q.Hash.Cuckoo.Valid.{NodeInfo, IsValid, InTable, Keeps}
use relative_q.Hash.Cuckoo.Move.{move-Keeps}

module _ {c : Scheme} {mask : ℕ} {m : NodeInfo c mask} where
  pub Keeps-refl : {t : Buckets} → IsValid m t → Keeps m t t
  Keeps-refl valid = (valid, λ k n. (λ x. x, λ x. x))

  pub Keeps-trans : {t t' t'' : Buckets} → Keeps m t t' → Keeps m t' t'' → Keeps m t t''
  Keeps-trans (v, f) (v', g) =
      (v', λ k n. (λ x. (g k n).0 ((f k n).0 x), λ x. (f k n).1 ((g k n).1 x)))

pub none-ne-some : {A : Type 0} {x : A} → none ≢ some x
none-ne-some p = cc

pub some-inj : {A : Type 0} {x y : A} → some x ≡ some y → x ≡ y
some-inj p = cc

module _ {c : Scheme} {mask : ℕ} (m : NodeInfo c mask) where
  -- A slot that `find_empty` gives holds no node.
  pub find_empty-some :
      (t : Buckets) (b s : ℕ)
      → IsValid m t
      → b ≤ mask
      → find_empty c b t ≡ some s
      → (s < 16) × (t.idx b s ≡ 0)
  unfolding find_empty
  find_empty-some t b s valid h e =
      let (u, k) = first_hit-some m.find_lem (t.key b) c.invalid_key s e in
      elim (Bool-cases (t.idx b s == 0)) [
        | inl z ↦ (u, ground arith)
        | inr z ↦ absurd (valid.full b s (h, u) (ground arith) k)
      ]

  -- Without a free slot every index is in use.
  pub find_empty-none :
      (t : Buckets) (b s : ℕ)
      → IsValid m t
      → b ≤ mask
      → find_empty c b t ≡ none
      → s < 16
      → t.idx b s ≢ 0
  unfolding find_empty
  find_empty-none t b s valid h e u z =
      first_hit-none m.find_lem (t.key b) c.invalid_key s e u (valid.empty b s (h, u) z)

  -- What a part of `kickout` gives: the table is kept, and a slot of `b` that it names is free.
  abbrev pub Frees : ℕ → Buckets → Buckets × Option ℕ → Type 0
  Frees b t r = Keeps m t (r.0) × ((s : ℕ) → r.1 ≡ some s → InTable mask b s × ((r.0).idx b s ≡ 0))

  pub move_entry-idx : (b s alt es : ℕ) (t : Buckets) → (move_entry c b s alt es t).idx b s ≡ 0
  unfolding move_entry
  move_entry-idx b s alt es t =
      elim (set_slot-cases b s c.invalid_key 0 (set_slot alt es (t.key b s) (t.idx b s) t) b s) [
        | inl (p, q, k, i) ↦ i
        | inr (a, k, i) ↦ absurd-at {b = b} {s = s} a refl refl
      ]

  pub some-Frees :
      (t t' : Buckets) (b s : ℕ)
      → Keeps m t t'
      → InTable mask b s
      → t'.idx b s ≡ 0
      → Frees b t (t', some s)
  some-Frees t t' b s k r z =
      (k, λ s' p. subst (λ s'. InTable mask b s' × (t'.idx b s' ≡ 0)) (some-inj p) (r, z))

  -- A node that moves to a free slot of its other bucket leaves its own slot free.
  pub move-Frees :
      (t : Buckets) (b s es key idx : ℕ)
      → IsValid m t
      → InTable mask b s
      → t.idx b s ≢ 0
      → t.key b s ≡ key
      → t.idx b s ≡ idx
      → find_empty c (c.alt_bucket mask b key idx) t ≡ some es
      → Frees b t (move_entry c b s (c.alt_bucket mask b key idx) es t, some s)
  move-Frees t b s es key idx valid r ne ek ei e =
      let alt = c.alt_bucket mask b key idx in
      let own = sym (valid.owned b s r ne) ∙ ek in
      let home' =
        subst (λ key. m.IsHome (t.idx b s) (c.alt_bucket mask b key (t.idx b s))) own
          (m.alt-IsHome (t.idx b s) b ne (valid.placed b s r ne)) in
      let home = subst (λ i. m.IsHome (t.idx b s) (c.alt_bucket mask b key i)) ei home' in
      let h = m.home-le (t.idx b s) alt home in
      let (u, free) = find_empty-some t alt es valid h e in
      let keeps = move-Keeps valid b s alt es (h, u) r ne free home in
      some-Frees t (move_entry c b s alt es t) b s keeps r (move_entry-idx b s alt es t)

  -- The other bucket of the entry of a full slot is in the table.
  pub alt_bucket-le :
      (t : Buckets) (b s : ℕ)
      → IsValid m t
      → InTable mask b s
      → t.idx b s ≢ 0
      → c.alt_bucket mask b (t.key b s) (t.idx b s) ≤ mask
  alt_bucket-le t b s valid r ne = m.home-le (t.idx b s) _ (
      subst (λ key. m.IsHome (t.idx b s) (c.alt_bucket mask b key (t.idx b s)))
        (sym (valid.owned b s r ne)) (m.alt-IsHome (t.idx b s) b ne (valid.placed b s r ne)))

  pub none-Frees : (b : ℕ) (t t' : Buckets) → Keeps m t t' → Frees b t (t', none)
  none-Frees b t t' k = (k, λ s p. cc)

  pub Frees-trans :
      {b : ℕ} {t t' : Buckets} {r : Buckets × Option ℕ} → Keeps m t t' → Frees b t' r → Frees b t r
  Frees-trans k (k', f) = (Keeps-trans k k', f)
