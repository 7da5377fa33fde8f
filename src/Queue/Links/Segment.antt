-- ===== src/Queue/Links/Segment.antt =====
-- What a chain of link words stands for: the indices that it runs through.
use relative_q.Base.{
  ℕ, ◌≡◌, ◌≢◌, refl, List, [], ◌∷◌, ◌++◌, arith, ◌==◌, if◌then◌else◌, ◌∈◌, ◌∉◌, ◌∙◌, Distinct,
  head_or, last_or, ne-last_or, mem_self, ne_of_mem,
}
use relative_q.Queue.Links.{Links, nil}

-- The elements `xs` are linked both ways, behind `p` and before `q`.
abbrev pub Segment : Links → ℕ → List ℕ → ℕ → Type 0
Segment m p [] q = Unit
Segment m p (x ∷ xs) q = (x ≢ nil) × (m.prev x ≡ p) × (m.next x ≡ head_or xs q) × Segment m x xs q

pub Segment-append :
    (m : Links) (p : ℕ) (xs ys : List ℕ) (q : ℕ)
    → Segment m p (xs ++ ys) q
    → Segment m p xs (head_or ys q) × Segment m (last_or p xs) ys q
Segment-append m p [] ys q s = (tt, s)
Segment-append m p (x ∷ []) ys q (a, b, c, s) = ((a, b, c, tt), s)
Segment-append m p (x ∷ y ∷ xs) ys q (a, b, c, s) =
    let (l, r) = Segment-append m x (y ∷ xs) ys q s in ((a, b, c, l), r)

pub append-Segment :
    (m : Links) (p : ℕ) (xs ys : List ℕ) (q : ℕ)
    → Segment m p xs (head_or ys q)
    → Segment m (last_or p xs) ys q
    → Segment m p (xs ++ ys) q
append-Segment m p [] ys q l r = r
append-Segment m p (x ∷ []) ys q (a, b, c, _) r = (a, b, c, r)
append-Segment m p (x ∷ y ∷ xs) ys q (a, b, c, l) r =
    (a, b, c, append-Segment m x (y ∷ xs) ys q l r)

-- No element has the index that stands for the null pointer.
pub nil-not_mem : (m : Links) (p : ℕ) (xs : List ℕ) (q : ℕ) → Segment m p xs q → nil ∉ xs
nil-not_mem m p [] q s = refl
nil-not_mem m p (x ∷ xs) q (a, b, c, s) = ground (arith, nil-not_mem m x xs q s)

module _ (m m' : Links) where
  -- A segment survives every change elsewhere.
  pub frame :
      (p : ℕ) (xs : List ℕ) (q : ℕ)
      → Segment m p xs q
      → ((a : ℕ) → a ∈ xs → m'.next a ≡ m.next a)
      → ((a : ℕ) → a ∈ xs → m'.prev a ≡ m.prev a)
      → Segment m' p xs q
  frame p [] q s n v = tt
  frame p (x ∷ xs) q (a, b, c, s) n v = (
    a,
    ground (arith, v x),
    ground (arith, n x),
    frame x xs q s (λ a i. n a (ground arith)) (λ a i. v a (ground arith)),
  )

  -- A segment takes a new element behind it.
  pub relink_next :
      (p : ℕ) (xs : List ℕ) (q q' : ℕ)
      → Segment m p xs q
      → Distinct xs
      → ((a : ℕ) → a ∈ xs → m'.next a ≡ (if a == last_or p xs then q' else m.next a))
      → ((a : ℕ) → a ∈ xs → m'.prev a ≡ m.prev a)
      → Segment m' p xs q'
  relink_next p [] q q' s d n v = tt
  relink_next p (x ∷ []) q q' (a, b, c, s) d n v = (a, ground (arith, v x), ground (arith, n x), tt)
  relink_next p (x ∷ y ∷ xs) q q' (a, b, c, s) (out, d) n v = (
    a,
    ground (arith, v x),
    rw (ne-last_or x y xs out) at (n x (mem_self x (y ∷ xs))) ∙ c,
    relink_next x (y ∷ xs) q q' s d (λ a i. ground (arith, n a)) (λ a i. ground (arith, v a)),
  )

  -- A segment takes a new element before it.
  pub relink_prev :
      (p p' : ℕ) (xs : List ℕ) (q : ℕ)
      → Segment m p xs q
      → Distinct xs
      → ((a : ℕ) → a ∈ xs → m'.next a ≡ m.next a)
      → ((a : ℕ) → a ∈ xs → m'.prev a ≡ (if a == head_or xs q then p' else m.prev a))
      → Segment m' p' xs q
  relink_prev p p' [] q s d n v = tt
  relink_prev p p' (x ∷ xs) q (a, b, c, s) (out, d) n v = (
    a,
    ground (arith, v x),
    n x (mem_self x xs) ∙ c,
    frame x xs q s (λ a i. n a (ground arith))
        (λ a i. rw (ne_of_mem a x xs i out) at (v a (ground arith))),
  )

-- A segment takes new elements at both ends.
pub relink :
    (m m' : Links) (p p' : ℕ) (xs : List ℕ) (q q' : ℕ)
    → Segment m p xs q
    → Distinct xs
    → ((a : ℕ) → a ∈ xs → m'.next a ≡ (if a == last_or p xs then q' else m.next a))
    → ((a : ℕ) → a ∈ xs → m'.prev a ≡ (if a == head_or xs q' then p' else m.prev a))
    → Segment m' p' xs q'
relink m m' p p' xs q q' s d n v =
    let half = record m { next = m'.next } in
    relink_prev half m' p p' xs q' (relink_next m half p xs q q' s d n (λ a i. refl)) d
      (λ a i. refl) v
