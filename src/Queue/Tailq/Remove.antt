-- ===== src/Queue/Tailq/Remove.antt =====
-- `RIX_TAILQ_REMOVE` against the list of the elements.

use relative_q.Base.{
  ℕ, ◌≡◌, ◌∙◌, List, ◌∷◌, ◌++◌, arith, ◌==◌, if◌then◌else◌, head_or, last_or, Bool-cases, inl, inr,
  false, Disjoint-symm, mem_self, Distinct-append, ne-head_or, ne-last_or_out, if-head_or,
  if-last_or, head_or-append, last_or-append,
}
use relative_q.Queue.Links.{Links, nil}
use relative_q.Queue.Links.Segment.{Segment-append, nil-not_mem}
use relative_q.Queue.Links.Splice.{Unlinked}
use relative_q.Queue.Tailq.{Head, remove}
use relative_q.Queue.Tailq.Holds.{Holds, Becomes, Unlinked-Becomes}

module _ (e : ℕ) (h : Head) (m : Links) where
  remove-Unlinked :
      (l r : ℕ)
      → m.prev e ≡ l
      → m.next e ≡ r
      → (l == e) ≡ false
      → (r == e) ≡ false
      → Unlinked m (remove e (h, m)).1 l e r
  unfolding remove
  remove-Unlinked l r p q ol or = elim (Bool-cases (m.next e == nil)) [
    | inl z ↦ elim (Bool-cases (m.prev e == nil)) [
      | inl y ↦ rw (z, y) (record { next = λ a na. ground arith; prev = λ a na. ground arith })
      | inr y ↦ rw (z, y) (record { next = λ a na. ground arith; prev = λ a na. ground arith })
    ]
    | inr z ↦ elim (Bool-cases (m.prev e == nil)) [
      | inl y ↦ rw (z, y) (record { next = λ a na. ground arith; prev = λ a na. ground arith })
      | inr y ↦ rw (z, y) (record { next = λ a na. ground arith; prev = λ a na. ground arith })
    ]
  ]

  remove-ends :
      ((remove e (h, m)).0.first ≡ (if m.prev e == nil then m.next e else h.first))
      × ((remove e (h, m)).0.last ≡ (if m.next e == nil then m.prev e else h.last))
  unfolding remove
  remove-ends = ground arith

  remove-cleared : ((remove e (h, m)).1.next e ≡ nil) × ((remove e (h, m)).1.prev e ≡ nil)
  unfolding remove
  remove-cleared = ground arith

  -- `RIX_TAILQ_REMOVE` of a queued element closes the gap between its neighbours, clears the
  -- element's own links, and writes the links of no element outside the queue.
  pub remove-Tailq :
      (xs ys : List ℕ)
      → Holds (h, m) (xs ++ (e ∷ ys))
      → Becomes m (xs ++ (e ∷ ys)) (xs ++ ys) (remove e (h, m))
        × ((remove e (h, m)).1.next e ≡ nil)
        × ((remove e (h, m)).1.prev e ≡ nil)
  remove-Tailq xs ys q =
      let (f, l) = remove-ends in
      let (sl, (na, pa, qa, sr)) = Segment-append m nil xs (e ∷ ys) nil q.links in
      let (dl, (oy, dr), apart) = Distinct-append xs (e ∷ ys) q.distinct in
      let ox = Disjoint-symm xs (e ∷ ys) apart e (mem_self e ys) in
      let zx = nil-not_mem m nil xs e sl in
      let zy = nil-not_mem m e ys nil sr in
      let (c, d) = remove-cleared in
      (
        Unlinked-Becomes h _ m _ e xs ys
            (f
              ∙ rw (pa, qa, q.first, head_or-append, head_or-append)
                  (if-last_or (head_or ys nil) e xs zx))
            (l
              ∙ rw (pa, qa, q.last, last_or-append, last_or-append)
                  (if-head_or (last_or nil xs) e ys zy))
            (remove-Unlinked (last_or nil xs) (head_or ys nil) pa qa (ne-last_or_out e nil xs na ox)
              (ne-head_or e ys nil na oy))
            q,
        c,
        d,
      )
