-- ===== src/Hash/KeyTable/Init.antt =====
-- `init`, against the invariant.
use relative_q.Base.{
  ℕ, zero, suc, ◌<◌, ◌≡◌, ◌⊎◌, inl, inr, ◌∙◌, sym, refl, false, arith, ◌==◌, Bool-cases, ◌^◌, ◌+◌,
  ◌-◌, ◌%◌,
}
use relative_q.Hash.KeyTable.Bounds.{key_nodes}
use relative_q.Hash.KeyTable.{Ops, Buckets, init_slots, init_buckets, init, OpsLaws}
use relative_q.Hash.Cuckoo.Slots.{set_slot-cases, is_at}
use relative_q.Hash.Cuckoo.Valid.{IsValid, InTable, Stored}

below : (b n b' s' : ℕ) → s' < suc n → b' ≡ b → is_at b n b' s' ≡ false → s' < n
below b n b' s' h e a = ground arith

module _ (ops : Ops) (iv : ℕ) where
  abbrev IsClear : Buckets → ℕ → ℕ → Type 0
  IsClear t b s = (t.key b s ≡ iv) × (t.idx b s ≡ 0)

  init_slots-other :
      (b n : ℕ) (t : Buckets) (b' s' : ℕ)
      → (s' < n) × (b' ≡ b) ⊎ IsClear t b' s'
      → IsClear (init_slots ops iv b n t) b' s'
  unfolding init_slots
  init_slots-other b zero t b' s' (inl (h, e)) = absurd (omega arith)
  init_slots-other b zero t b' s' (inr c) = c
  init_slots-other b (suc n) t b' s' x =
      elim (set_slot-cases b n iv 0 (init_slots ops iv b n t) b' s') [
        | inl (p, q, k, i) ↦ (k, i)
        | inr (a, k, i) ↦
            let (ck, ci) =
              init_slots-other b n t b' s'
                (elim x [ inl (h, e) ↦ inl (below b n b' s' h e a, e) | inr c ↦ inr c ]) in
            (k ∙ ck, i ∙ ci)
      ]

  init_buckets-IsClear :
      (n : ℕ) (t : Buckets) (b s : ℕ) → b < n → s < 16 → IsClear (init_buckets ops iv n t) b s
  unfolding init_buckets
  init_buckets-IsClear zero t b s h u = absurd (omega arith)
  init_buckets-IsClear (suc n) t b s h u =
      init_slots-other n 16 (init_buckets ops iv n t) b s (elim (Bool-cases (b == n)) [
        | inl e ↦ inl (u, ground arith)
        | inr e ↦ inr (init_buckets-IsClear n t b s (ground arith) u)
      ])

  -- The table that `init` leaves on any memory is valid and holds no node, for any number of
  -- buckets that an `unsigned` holds and that is not 0; its mask is one less than that number.
  pub init-IsValid :
      (laws : OpsLaws ops) (node_key : ℕ → ℕ) (nb_bk : ℕ) (t : Buckets)
      → 0 < nb_bk
      → nb_bk < 2 ^ 32
      → (((init ops iv nb_bk t).0).mask + 1 ≡ nb_bk)
        × (((init ops iv nb_bk t).0).nb ≡ 0)
        × IsValid
            (key_nodes ops laws iv (((init ops iv nb_bk t).0).mask) node_key)
            ((init ops iv nb_bk t).1)
        × ((k n : ℕ) → ¬ Stored (((init ops iv nb_bk t).0).mask) ((init ops iv nb_bk t).1) k n)
  unfolding init
  init-IsValid laws node_key nb_bk t h u =
      let m : (nb_bk + (2 ^ 32 - 1)) % 2 ^ 32 + 1 ≡ nb_bk = omega arith in
      let clear : (b s : ℕ)
          → InTable ((nb_bk + (2 ^ 32 - 1)) % 2 ^ 32) b s
          → IsClear (init_buckets ops iv nb_bk t) b s =
        λ b s (l, v). init_buckets-IsClear nb_bk t b s (omega (arith, m)) v in
      (
        m,
        refl,
        record {
          empty = λ b s r e. (clear b s r).0;
          full = λ b s r e. absurd (e (clear b s r).1);
          owned = λ b s r e. absurd (e (clear b s r).1);
          placed = λ b s r e. absurd (e (clear b s r).1);
          unique = λ b s b' s' r r' e e' q. absurd (e (clear b s r).1);
        },
        λ k n (b, s, r, o, ek, ei). o (sym ei ∙ (clear b s r).1),
      )
