-- ===== src/Queue/Circleq/Remove.antt =====
-- `RIX_CIRCLEQ_REMOVE` against the list of the elements.
use relative_q.Base.{
  ℕ, List, ◌≡◌, ◌==◌, if◌then◌else◌, true, ◌∷◌, false, arith, ◌++◌, [], Distinct, head_or,
  Distinct-rotate, ◌∙◌, ap, Distinct-remove, ==_refl, last_or, ne-last_or_out, ne-head_or, mem_self,
  not-mem-append, ◌∉◌,
}
use relative_q.Queue.Links.{Links, nil}
use relative_q.Queue.Links.Splice.{Unlinked, SameOutside}
use relative_q.Queue.Circleq.{Head, remove}
use relative_q.Queue.Circleq.Ring.{Ring, Holds, Becomes, Ring-rotate, leave-Ring, Unlinked-same}

-- What is left in front when `e` goes.
first_left :
    (n f e : ℕ) (xs ys : List ℕ)
    → f ≡ head_or (xs ++ (e ∷ ys)) nil
    → n ≡ head_or (ys ++ xs) e
    → e ∉ xs
    → e ∉ ys
    → (if n == e then nil else if f == e then n else f) ≡ head_or (xs ++ ys) nil
first_left n f e [] [] p q ox oy = ground arith
first_left n f e [] (y ∷ ys) p q ox oy = ground arith
first_left n f e (x ∷ xs) [] p q ox oy = ground arith
first_left n f e (x ∷ xs) (y ∷ ys) p q ox oy = ground arith

module _ (e : ℕ) (h : Head) (m : Links) where
  remove-cleared : ((remove e (h, m)).1.next e ≡ nil) × ((remove e (h, m)).1.prev e ≡ nil)
  unfolding remove
  remove-cleared = ground arith

  remove-first :
      (remove e (h, m)).0.first
      ≡ (if m.next e == e then nil else if h.first == e then m.next e else h.first)
  unfolding remove
  remove-first = ground arith

  remove_alone-same :
      (m.next e == e) ≡ true
      → (a : ℕ) → (a == e) ≡ false
      → ((remove e (h, m)).1.next a ≡ m.next a) × ((remove e (h, m)).1.prev a ≡ m.prev a)
  unfolding remove
  remove_alone-same z a o = rw z (ground arith)

  remove-Unlinked :
      (l r : ℕ)
      → m.prev e ≡ l
      → m.next e ≡ r
      → (l == e) ≡ false
      → (r == e) ≡ false
      → Unlinked m (remove e (h, m)).1 l e r
  unfolding remove
  remove-Unlinked l r p q ol or =
      let z : (m.next e == e) ≡ false = rw q or in
      rw z (record { next = λ a na. ground arith; prev = λ a na. ground arith })

  -- Whether the element was alone or not: the ring, and what was written.
  remove-Ring :
      (zs : List ℕ)
      → Ring m (e ∷ zs)
      → Distinct (e ∷ zs)
      → Ring (remove e (h, m)).1 zs
        × SameOutside (e ∷ m.prev e ∷ m.next e ∷ []) m (remove e (h, m)).1
  remove-Ring [] r d =
      let z : (m.next e == e) ≡ true = ap (λ i. i == e) r.2 ∙ ==_refl e in
      (tt, λ a n o. remove_alone-same z a (ground arith))
  remove-Ring (z ∷ zs) r d =
      let w =
        remove-Unlinked (last_or z zs) z r.1 r.2 (ne-last_or_out e nil (z ∷ zs) r.0 d.0)
          (ne-head_or e (z ∷ zs) nil r.0 d.0) in
      (
        leave-Ring m (remove e (h, m)).1 e z (z ∷ zs) (mem_self z zs) w r d,
        rw (r.1, r.2) (Unlinked-same m (remove e (h, m)).1 (last_or z zs) e z w),
      )

  -- `RIX_CIRCLEQ_REMOVE` of a queued element closes the ring behind it, moves the head on if it was
  -- the first, clears its links, and writes only these and those of its two neighbours.
  pub remove-Circleq :
      (xs ys : List ℕ)
      → Holds (h, m) (xs ++ (e ∷ ys))
      → Becomes m (e ∷ m.prev e ∷ m.next e ∷ []) (xs ++ ys) (remove e (h, m))
        × ((remove e (h, m)).1.next e ≡ nil)
        × ((remove e (h, m)).1.prev e ≡ nil)
  remove-Circleq xs ys q =
      let d = Distinct-rotate xs (e ∷ ys) q.distinct in
      let ring = Ring-rotate m xs (e ∷ ys) q.links in
      let (r, s) = remove-Ring (ys ++ xs) ring d in
      let (oy, ox) = not-mem-append e ys xs d.0 in
      (
        record {
          holds = record {
            first = remove-first ∙ first_left (m.next e) h.first e xs ys q.first ring.2 ox oy;
            links = Ring-rotate (remove e (h, m)).1 ys xs r;
            distinct = Distinct-remove e xs ys q.distinct;
          };
          same = s;
        },
        remove-cleared.0,
        remove-cleared.1,
      )
