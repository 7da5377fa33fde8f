-- ===== src/Hash/Cuckoo/Kickout.antt =====
-- `kickout` and its two loops, against the invariant.
use relative_q.Base.{
  ℕ, ◌≤◌, ◌<◌, ◌≡◌, ◌≢◌, inl, inr, refl, none, some, Option, Bool-cases, ◌==◌, subst, arith, ◌+◌,
  suc, Option-cases, zero, ◌⊎◌, sym, not, ◌||◌,
}
use relative_q.Hash.Cuckoo.{
  Scheme, Buckets, move_entry, find_empty, pass2, pass1, flipflop, kickout,
}
use relative_q.Hash.Cuckoo.Valid.{NodeInfo, IsValid, Keeps}
use relative_q.Hash.Cuckoo.Frees.{
  none-ne-some, some-inj, some-Frees, move-Frees, none-Frees, Frees-trans, Frees, alt_bucket-le,
  find_empty-some, find_empty-none, Keeps-refl,
}

pick-cases :
    {A : Type 0} (o : Option A) (s : ℕ) (rest : Option (A × ℕ)) (r : A × ℕ)
    → (elim o as (λ _. Option (A × ℕ)) [ some t ↦ some (t, s) | none ↦ rest ]) ≡ some r
    → ((t : A) × (o ≡ some t) × (r ≡ (t, s))) ⊎ (rest ≡ some r)
pick-cases none s rest r e = inr e
pick-cases (some t) s rest r e = inl (t, refl, sym (some-inj e))

module _ {c : Scheme} {mask : ℕ} (m : NodeInfo c mask) where
  module _ (b : ℕ) where
    flipflop-some :
        (s : ℕ) (t t' : Buckets)
        → flipflop c mask b s t ≡ some t'
        → (t.idx b s ≢ 0)
          × ((es : ℕ) × (find_empty c (c.alt_bucket mask b (t.key b s) (t.idx b s)) t ≡ some es)
              × (move_entry c b s (c.alt_bucket mask b (t.key b s) (t.idx b s)) es t ≡ t'))
    unfolding flipflop
    flipflop-some s t t' e = elim (Bool-cases (t.idx b s == 0)) [
      | inl z ↦ absurd (none-ne-some (rw z at e))
      | inr z ↦ elim (Option-cases (find_empty c (c.alt_bucket mask b (t.key b s) (t.idx b s)) t)) [
        | inl o ↦ absurd (none-ne-some (rw (z, o) at e))
        | inr (es, o) ↦ (ground arith, (es, o, some-inj (rw (z, o) at e)))
      ]
    ]

    pass1_zero : (s : ℕ) (t : Buckets) (r : Buckets × ℕ) → pass1 c mask b 0 s t ≢ some r
    unfolding pass1
    pass1_zero s t r = none-ne-some

    pass1-cases :
        (n s : ℕ) (t : Buckets) (r : Buckets × ℕ)
        → pass1 c mask b (suc n) s t ≡ some r
        → ((t' : Buckets) × (flipflop c mask b s t ≡ some t') × (r ≡ (t', s)))
          ⊎ (pass1 c mask b n (s + 1) t ≡ some r)
    unfolding pass1
    pass1-cases n s t r e = pick-cases (flipflop c mask b s t) s (pass1 c mask b n (s + 1) t) r e

  module _ (b : ℕ) (h : b ≤ mask) where
    flipflop-Frees :
        (t : Buckets) (valid : IsValid m t) (s : ℕ)
        → s < 16
        → (t' : Buckets) → flipflop c mask b s t ≡ some t'
        → Frees m b t (t', some s)
    flipflop-Frees t valid s u t' e =
        let (ne, (es, o, q)) = flipflop-some b s t t' e in
        subst (λ t'. Frees m b t (t', some s)) q
          (move-Frees m t b s es (t.key b s) (t.idx b s) valid (h, u) ne refl refl o)

    pass1-Frees :
        (t : Buckets) (valid : IsValid m t) (n s : ℕ)
        → s + n ≤ 16
        → (r : Buckets × ℕ) → pass1 c mask b n s t ≡ some r
        → Frees m b t (r.0, some (r.1))
    pass1-Frees t valid zero s u r e = absurd (pass1_zero b s t r e)
    pass1-Frees t valid (suc n) s u r e = elim (pass1-cases b n s t r e) [
      | inl (t', f, q) ↦
          subst (λ r. Frees m b t (r.0, some (r.1))) (sym q)
            (flipflop-Frees t valid s (omega arith) t' f)
      | inr q ↦ pass1-Frees t valid n (s + 1) (omega arith) r q
    ]

    -- The part of the second loop after `kick` has freed a slot in the other bucket.
    pass2-Frees :
        (kick : ℕ → Buckets → Buckets × Option ℕ)
        → ((b' : ℕ) (t : Buckets) → b' ≤ mask → IsValid m t → Frees m b' t (kick b' t))
        → (n s : ℕ) → s + n ≤ 16
        → (t : Buckets) (valid : IsValid m t) → Frees m b t (pass2 c kick mask b n s t)
    unfolding pass2
    pass2-Frees kick K zero s u t valid = none-Frees m b t t (Keeps-refl valid)
    pass2-Frees kick K (suc n) s u t valid =
        let alt = c.alt_bucket mask b (t.key b s) (t.idx b s) in
        let t' = (kick alt t).0 in
        elim (Bool-cases (t.idx b s == 0)) [
          | inl z ↦ rw z (pass2-Frees kick K n (s + 1) (omega arith) t valid)
          | inr z ↦
              let (k, f) =
                K alt t (alt_bucket-le m t b s valid (h, omega arith) (ground arith)) valid in
              let rest = Frees-trans m k (pass2-Frees kick K n (s + 1) (omega arith) t' k.0) in
              elim (Option-cases ((kick alt t).1)) [
                | inl o ↦ rw (z, o) rest
                | inr (fs, o) ↦
                    let w0 = not ((t'.key) b s == t.key b s) || not ((t'.idx) b s == t.idx b s) in
                    elim (Bool-cases w0) [
                      | inl w ↦ elim (Option-cases (find_empty c b t')) [
                        | inl g ↦ rw (z, o, w, g) rest
                        | inr (fs, g) ↦
                            rw (z, o, w, g)
                              (some-Frees m t t' b fs k (h, (find_empty-some m t' b fs k.0 h g).0)
                                (find_empty-some m t' b fs k.0 h g).1)
                      ]
                      | inr w ↦ elim (Option-cases (find_empty c alt t')) [
                        | inl g ↦ rw (z, o, w, g) (none-Frees m b t t' k)
                        | inr (es, g) ↦
                            rw (z, o, w, g)
                              (Frees-trans m k (
                                move-Frees m t' b s es (t.key b s) (t.idx b s) k.0 (h, omega arith)
                                  (ground arith) (ground arith) (ground arith) g))
                      ]
                    ]
              ]
        ]

  kickout-zero-Frees : (b : ℕ) (t : Buckets) → IsValid m t → Frees m b t (kickout c 0 mask b t)
  unfolding kickout
  kickout-zero-Frees b t valid = none-Frees m b t t (Keeps-refl valid)

  pick-Frees :
      (b : ℕ) (t : Buckets) (o : Option (Buckets × ℕ)) (d : Buckets × Option ℕ)
      → Frees m b t d
      → ((r : Buckets × ℕ) → o ≡ some r → Frees m b t (r.0, some (r.1)))
      → Frees m b t (elim o as (λ _. Buckets × Option ℕ) [ some (t', s) ↦ (t', some s) | none ↦ d ])
  pick-Frees b t none d p q = p
  pick-Frees b t (some r) d p q = q r refl

  kickout-suc-Frees :
      (depth b : ℕ) (t : Buckets)
      → Frees m b t (pass2 c (kickout c depth mask) mask b 16 0 t)
      → ((r : Buckets × ℕ) → pass1 c mask b 16 0 t ≡ some r → Frees m b t (r.0, some (r.1)))
      → Frees m b t (kickout c (suc depth) mask b t)
  unfolding kickout
  kickout-suc-Frees depth b t p q =
      pick-Frees b t (pass1 c mask b 16 0 t) (pass2 c (kickout c depth mask) mask b 16 0 t) p q

  -- `kickout` at any depth keeps the invariant and the nodes stored, and the slot that it gives
  -- is a slot of its bucket without a node.
  pub kickout-Frees :
      (depth b : ℕ) (t : Buckets) → b ≤ mask → IsValid m t → Frees m b t (kickout c depth mask b t)
  kickout-Frees zero b t h valid = kickout-zero-Frees b t valid
  kickout-Frees (suc depth) b t h valid =
      let deep =
        pass2-Frees b h (kickout c depth mask) (λ b' t h v. kickout-Frees depth b' t h v) 16 0
          (omega arith) t valid in
      kickout-suc-Frees depth b t deep (λ r e. pass1-Frees b h t valid 16 0 (omega arith) r e)

  -- `kickout` at any depth, from any bucket of a valid table, leaves a valid table with the same
  -- nodes, whether it finds a slot or not.
  pub kickout-Keeps :
      (depth b : ℕ) (t : Buckets)
      → b ≤ mask
      → IsValid m t
      → Keeps m t ((kickout c depth mask b t).0)
  kickout-Keeps depth b t h valid = (kickout-Frees depth b t h valid).0

  -- A slot that `kickout` gives is one of the sixteen of its bucket, and holds no node.
  pub kickout-some :
      (depth b s : ℕ) (t : Buckets)
      → b ≤ mask
      → IsValid m t
      → (kickout c depth mask b t).1 ≡ some s
      → (s < 16) × (((kickout c depth mask b t).0).idx b s ≡ 0)
  kickout-some depth b s t h valid e =
      let ((l, u), z) = (kickout-Frees depth b t h valid).1 s e in (u, z)

  -- After `kickout` has given a slot, `find_empty` finds one in the bucket: the second loop of
  -- `kickout` never writes to slot -1.
  pub kickout-find_empty :
      (depth b s : ℕ) (t : Buckets)
      → b ≤ mask
      → IsValid m t
      → (kickout c depth mask b t).1 ≡ some s
      → find_empty c b ((kickout c depth mask b t).0) ≢ none
  kickout-find_empty depth b s t h valid e f =
      let ((l, u), z) = (kickout-Frees depth b t h valid).1 s e in
      let v = (kickout-Keeps depth b t h valid).0 in
      find_empty-none m ((kickout c depth mask b t).0) b s v h f u z
