-- ===== src/Hash/Cuckoo/Walk.antt =====
-- `walk`, and the callback on a list of nodes.
use relative_q.Base.{
  ℕ, zero, suc, ◌<◌, ◌≡◌, ◌↔◌, inl, inr, refl, arith, ◌==◌, Bool-cases, ◌+◌, ◌%◌, ◌^◌,
  if◌then◌else◌, List, [], ◌∷◌, ◌++◌, ◌∈◌,
}
use relative_q.Hash.Cuckoo.{Head, Buckets}
use relative_q.Hash.Cuckoo.Valid.{Stored}
use relative_q.Hash.Cuckoo.Nodes.{slot_nodes, nodes, nodes-Stored}

-- `cb` takes what it works on and a node, and gives what it leaves and its return value.
module _ {ℓ} {S : Type ℓ} (cb : S → ℕ → S × ℕ) (t : Buckets) where
  -- The inner loop with `n` slots left from `s` on.
  walk_slots : ℕ → ℕ → ℕ → S → S × ℕ
  walk_slots b zero s st = (st, 0)
  walk_slots b (suc n) s st =
      let (st', r) = cb st (t.idx b s) in
      let skip = walk_slots b n (s + 1) st in
      let rest = walk_slots b n (s + 1) st' in
      if t.idx b s == 0 then skip else if r == 0 then rest else (st', r)

  walk_buckets : ℕ → ℕ → S → S × ℕ
  unfolding walk_slots
  walk_buckets zero b st = (st, 0)
  walk_buckets (suc n) b st =
      let (st', r) = walk_slots b 16 0 st in
      let rest = walk_buckets n (b + 1) st' in if r == 0 then rest else (st', r)

  pub walk : Head → S → S × ℕ
  unfolding walk_buckets
  walk h st = walk_buckets ((h.mask + 1) % 2 ^ 32) 0 st

  -- The callback on a list of nodes.
  pub run : List ℕ → S → S × ℕ
  run [] st = (st, 0)
  run (x ∷ xs) st =
      let (st', r) = cb st x in let rest = run xs st' in if r == 0 then rest else (st', r)

  run-append :
      (xs ys : List ℕ) (st : S)
      → run (xs ++ ys) st ≡ (if (run xs st).1 == 0 then run ys ((run xs st).0) else run xs st)
  unfolding run
  run-append [] ys st = refl
  run-append (x ∷ xs) ys st = elim (Bool-cases ((cb st x).1 == 0)) [
    | inl e ↦ rw e (run-append xs ys ((cb st x).0))
    | inr e ↦ rw (e, e) refl
  ]

module _ {ℓ} {S : Type ℓ} (cb : S → ℕ → S × ℕ) (t : Buckets) where
  walk_slots-run :
      (b n s : ℕ) (st : S) → walk_slots cb t b n s st ≡ run cb t (slot_nodes t b n s) st
  unfolding walk_slots slot_nodes run
  walk_slots-run b zero s st = refl
  walk_slots-run b (suc n) s st =
      let skip = walk_slots-run b n (s + 1) st in
      let rest = walk_slots-run b n (s + 1) ((cb st (t.idx b s)).0) in
      elim (Bool-cases (t.idx b s == 0)) [
        | inl e ↦ rw e skip
        | inr e ↦ elim (Bool-cases ((cb st (t.idx b s)).1 == 0)) [
          | inl z ↦ rw (e, z) rest
          | inr z ↦ rw (e, z) refl
        ]
      ]

  -- The slots of one bucket, `m` of them, and then the other buckets.
  bucket-run :
      (n b m : ℕ) (st : S)
      → ((st : S) → walk_buckets cb t n (b + 1) st ≡ run cb t (nodes t n (b + 1)) st)
      → (if (walk_slots cb t b m 0 st).1 == 0
          then walk_buckets cb t n (b + 1) ((walk_slots cb t b m 0 st).0)
          else ((walk_slots cb t b m 0 st).0, (walk_slots cb t b m 0 st).1))
        ≡ run cb t (slot_nodes t b m 0 ++ nodes t n (b + 1)) st
  bucket-run n b m st ih =
      let xs = slot_nodes t b m 0 in
      let a = run-append cb t xs (nodes t n (b + 1)) st in
      let w = walk_slots-run b m 0 st in
      elim (Bool-cases ((run cb t xs st).1 == 0)) [
        | inl z ↦ rw (w, a, z) (ih ((run cb t xs st).0))
        | inr z ↦ rw (w, a, z) refl
      ]

  walk_buckets-run : (n b : ℕ) (st : S) → walk_buckets cb t n b st ≡ run cb t (nodes t n b) st
  unfolding walk_buckets nodes run
  walk_buckets-run zero b st = refl
  walk_buckets-run (suc n) b st = bucket-run n b 16 st (λ st. walk_buckets-run n (b + 1) st)

  -- For a table whose number of buckets an `unsigned` holds, `walk` runs the callback on a list
  -- of nodes until it returns a value that is not 0, and returns that, or 0; the nodes of the list
  -- are those that the table holds.
  pub walk-run :
      (h : Head) (st : S)
      → h.mask + 1 < 2 ^ 32
      → (walk cb t h st ≡ run cb t (nodes t (h.mask + 1) 0) st)
        × ((x : ℕ) → (x ∈ nodes t (h.mask + 1) 0) ↔ ((k : ℕ) × Stored h.mask t k x))
  unfolding walk
  walk-run h st u =
      let e : (h.mask + 1) % 2 ^ 32 ≡ h.mask + 1 = omega arith in
      (rw e (walk_buckets-run (h.mask + 1) 0 st), λ x. nodes-Stored t h.mask x)
