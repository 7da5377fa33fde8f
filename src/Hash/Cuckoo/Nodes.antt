-- ===== src/Hash/Cuckoo/Nodes.antt =====
-- The nodes of a table, in the order of the buckets and slots.
use relative_q.Base.{
  ℕ, zero, suc, ◌≤◌, ◌<◌, ◌≡◌, ◌≢◌, ◌⊎◌, ◌↔◌, inl, inr, ◌∙◌, sym, refl, arith, ◌==◌, Bool-cases, ap,
  ◌+◌, if◌then◌else◌, List, [], ◌∷◌, ◌++◌, ◌∈◌, contains-append, true, ◌||◌, false, Bool, contains,
  ==_iff,
}
use relative_q.Hash.Cuckoo.{Buckets}
use relative_q.Hash.Cuckoo.Valid.{Stored}

-- The nodes of the slots from `s` on, and of the buckets from `b` on.
unfoldable pub slot_nodes : Buckets → ℕ → ℕ → ℕ → List ℕ
slot_nodes t b zero s = []
slot_nodes t b (suc n) s =
    let rest = slot_nodes t b n (s + 1) in if t.idx b s == 0 then rest else t.idx b s ∷ rest

unfoldable pub nodes : Buckets → ℕ → ℕ → List ℕ
nodes t zero b = []
nodes t (suc n) b = slot_nodes t b 16 0 ++ nodes t n (b + 1)

or_true : (b : Bool) → (b || true) ≡ true
or_true true = refl
or_true false = refl

or-cases : (b c : Bool) → (b || c) ≡ true → (b ≡ true) ⊎ (c ≡ true)
or-cases true c e = inl e
or-cases false c e = inr e

mem_append-cases : (x : ℕ) (xs ys : List ℕ) → x ∈ xs ++ ys → (x ∈ xs) ⊎ (x ∈ ys)
mem_append-cases x xs ys m =
    or-cases (contains x xs) (contains x ys) (sym (contains-append x xs ys) ∙ m)

cases-append : (x : ℕ) (xs ys : List ℕ) → (x ∈ xs) ⊎ (x ∈ ys) → x ∈ xs ++ ys
cases-append x xs ys (inl m) = contains-append x xs ys ∙ ap (λ b. b || contains x ys) m
cases-append x xs ys (inr m) = contains-append x xs ys ∙ (rw m (or_true (contains x xs)))

module _ (t : Buckets) where
  nodes_zero : (x b : ℕ) → ¬ (x ∈ nodes t 0 b)
  unfolding nodes
  nodes_zero x b m = cc

  nodes_suc :
      (x n b : ℕ) → x ∈ nodes t (suc n) b → (x ∈ slot_nodes t b 16 0) ⊎ (x ∈ nodes t n (b + 1))
  unfolding nodes
  nodes_suc x n b m = mem_append-cases x (slot_nodes t b 16 0) (nodes t n (b + 1)) m

  suc_nodes :
      (x n b : ℕ) → (x ∈ slot_nodes t b 16 0) ⊎ (x ∈ nodes t n (b + 1)) → x ∈ nodes t (suc n) b
  unfolding nodes
  suc_nodes x n b m = cases-append x (slot_nodes t b 16 0) (nodes t n (b + 1)) m

  mem-slot_nodes :
      (x b n s : ℕ) → x ∈ slot_nodes t b n s → (s' : ℕ) × (s' < s + n) × (x ≢ 0) × (t.idx b s' ≡ x)
  unfolding slot_nodes
  mem-slot_nodes x b zero s m = absurd cc
  mem-slot_nodes x b (suc n) s m =
      let a = t.idx b s in
      let xs = slot_nodes t b n (s + 1) in
      let m' : x ∈ (if a == 0 then xs else a ∷ xs) = m in
      elim (Bool-cases (a == 0)) [
        | inl e ↦
            let (s', u, o, q) = mem-slot_nodes x b n (s + 1) (rw e at m') in (s', omega arith, o, q)
        | inr e ↦ elim (Bool-cases (x == a)) [
          | inl z ↦ (s, omega arith, ground arith, ground arith)
          | inr z ↦
              let m2 : ((x == a) || contains x xs) ≡ true = rw e at m' in
              let (s', u, o, q) = mem-slot_nodes x b n (s + 1) (rw z at m2) in
              (s', omega arith, o, q)
        ]
      ]

  slot_nodes-mem :
      (x b n s s' : ℕ) → s ≤ s' → s' < s + n → x ≢ 0 → t.idx b s' ≡ x → x ∈ slot_nodes t b n s
  unfolding slot_nodes
  slot_nodes-mem x b zero s s' l u o e = absurd (omega arith)
  slot_nodes-mem x b (suc n) s s' l u o e =
      let a = t.idx b s in
      elim (Bool-cases (s == s')) [
        | inl z ↦
            let q : (x == a) ≡ true =
              (==_iff x a).1 (sym e ∙ ap (t.idx b) (sym ((==_iff s s').0 z))) in
            let w : (a == 0) ≡ false = ground arith in rw (w, q) refl
        | inr z ↦
            let ih = slot_nodes-mem x b n (s + 1) s' (ground arith) (omega arith) o e in
            elim (Bool-cases (a == 0)) [ inl w ↦ rw w ih | inr w ↦ rw (w, ih) (or_true (x == a)) ]
      ]

  mem-nodes :
      (x n b : ℕ)
      → x ∈ nodes t n b
      → (b' : ℕ) × (s' : ℕ) × (b' < b + n) × (s' < 16) × (x ≢ 0) × (t.idx b' s' ≡ x)
  mem-nodes x zero b m = absurd (nodes_zero x b m)
  mem-nodes x (suc n) b m = elim (nodes_suc x n b m) [
    | inl p ↦
        let (s', u, o, q) = mem-slot_nodes x b 16 0 p in (b, s', omega arith, omega arith, o, q)
    | inr p ↦ let (b', s', l, u, o, q) = mem-nodes x n (b + 1) p in (b', s', omega arith, u, o, q)
  ]

  nodes-mem :
      (x n b b' s' : ℕ) → b ≤ b' → b' < b + n → s' < 16 → x ≢ 0 → t.idx b' s' ≡ x → x ∈ nodes t n b
  nodes-mem x zero b b' s' l u v o e = absurd (omega arith)
  nodes-mem x (suc n) b b' s' l u v o e = elim (Bool-cases (b == b')) [
    | inl z ↦
        let q = ap (λ b. t.idx b s') ((==_iff b b').0 z) ∙ e in
        suc_nodes x n b (inl (slot_nodes-mem x b 16 0 s' (omega arith) v o q))
    | inr z ↦ suc_nodes x n b (inr (nodes-mem x n (b + 1) b' s' (ground arith) (omega arith) v o e))
  ]

  -- The nodes that `walk` passes to the callback are those of the table.
  pub nodes-Stored : (mask x : ℕ) → (x ∈ nodes t (mask + 1) 0) ↔ ((k : ℕ) × Stored mask t k x)
  nodes-Stored mask x = (
    λ m.
        let (b, s, l, u, o, q) = mem-nodes x (mask + 1) 0 m in
        (t.key b s, (b, s, (omega arith, u), o, refl, q)),
    λ (k, (b, s, (l, u), o, ek, ei)).
        nodes-mem x (mask + 1) 0 b s (omega arith) (omega arith) u o ei,
  )
