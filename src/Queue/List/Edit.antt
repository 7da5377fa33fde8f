-- ===== src/Queue/List/Edit.antt =====
-- The insertions of RIX_LIST and its removal, against the list of the elements.
use mathlib.Core.List.{append_assoc}
use relative_q.Base.{
  ℕ, ◌≡◌, ◌≢◌, refl, List, [], ◌∷◌, ◌++◌, arith, ◌==◌, if◌then◌else◌, ◌∉◌, head_or, last_or,
  Bool-cases, ◌∙◌, ne-head_or, ne-last_or_out, if-last_or, head_or-append, last_or-append,
  not-mem-append, contains_tail, contains-append, inl, inr, false, Disjoint-symm, mem_self,
  Distinct-append,
}
use relative_q.Queue.Links.{Links, nil}
use relative_q.Queue.Links.Segment.{Segment-append, nil-not_mem}
use relative_q.Queue.Links.Splice.{Linked, Unlinked}
use relative_q.Queue.List.{Head, insert_head, insert_after, insert_before, remove}
use relative_q.Queue.List.Holds.{Holds, Becomes, Linked-Becomes, Unlinked-Becomes}

module _ (e : ℕ) (h : Head) (m : Links) where
  insert_head-Linked :
      (r : ℕ) → h.first ≡ r → (r == e) ≡ false → Linked m (insert_head e (h, m)).1 nil e r
  unfolding insert_head
  insert_head-Linked r p o = elim (Bool-cases (h.first == nil)) [
    | inl z ↦ rw z (record { next = λ a na. ground arith; prev = λ a na. ground arith })
    | inr z ↦ rw z (record { next = λ a na. ground arith; prev = λ a na. ground arith })
  ]

  module _ (at : ℕ) (ne : at ≢ nil) (apart : (at == e) ≡ false) where
    insert_after-Linked :
        (r : ℕ) → m.next at ≡ r → (r == e) ≡ false → Linked m (insert_after at e (h, m)).1 at e r
    unfolding insert_after
    insert_after-Linked r p o = elim (Bool-cases (m.next at == nil)) [
      | inl z ↦ rw z (record { next = λ a na. ground arith; prev = λ a na. ground arith })
      | inr z ↦ rw z (record { next = λ a na. ground arith; prev = λ a na. ground arith })
    ]

    insert_before-Linked :
        (l : ℕ) → m.prev at ≡ l → (l == e) ≡ false → Linked m (insert_before at e (h, m)).1 l e at
    unfolding insert_before
    insert_before-Linked l p o = elim (Bool-cases (m.prev at == nil)) [
      | inl z ↦ rw z (record { next = λ a na. ground arith; prev = λ a na. ground arith })
      | inr z ↦ rw z (record { next = λ a na. ground arith; prev = λ a na. ground arith })
    ]

  remove-Unlinked :
      (l r : ℕ)
      → m.prev e ≡ l
      → m.next e ≡ r
      → (l == e) ≡ false
      → (r == e) ≡ false
      → Unlinked m (remove e (h, m)).1 l e r
  unfolding remove
  remove-Unlinked l r p q ol or = elim (Bool-cases (m.next e == nil)) [
    | inl z ↦ elim (Bool-cases (m.prev e == nil)) [
      | inl y ↦ rw (z, y) (record { next = λ a na. ground arith; prev = λ a na. ground arith })
      | inr y ↦ rw (z, y) (record { next = λ a na. ground arith; prev = λ a na. ground arith })
    ]
    | inr z ↦ elim (Bool-cases (m.prev e == nil)) [
      | inl y ↦ rw (z, y) (record { next = λ a na. ground arith; prev = λ a na. ground arith })
      | inr y ↦ rw (z, y) (record { next = λ a na. ground arith; prev = λ a na. ground arith })
    ]
  ]

  insert_head-first : (insert_head e (h, m)).0.first ≡ e
  unfolding insert_head
  insert_head-first = refl

  insert_after-first : (at : ℕ) → (insert_after at e (h, m)).0.first ≡ h.first
  unfolding insert_after
  insert_after-first at = refl

  insert_before-first :
      (at : ℕ) → (insert_before at e (h, m)).0.first ≡ (if m.prev at == nil then e else h.first)
  unfolding insert_before
  insert_before-first at = ground arith

  remove-first : (remove e (h, m)).0.first ≡ (if m.prev e == nil then m.next e else h.first)
  unfolding remove
  remove-first = ground arith

  remove-cleared : ((remove e (h, m)).1.next e ≡ nil) × ((remove e (h, m)).1.prev e ≡ nil)
  unfolding remove
  remove-cleared = ground arith

  -- `RIX_LIST_INSERT_HEAD` of an element that is not listed puts it in front of the others, and
  -- writes the links of no element outside the list.
  pub insert_head-cons :
      (xs : List ℕ)
      → e ≢ nil
      → Holds (h, m) xs
      → e ∉ xs
      → Becomes m (e ∷ xs) (e ∷ xs) (insert_head e (h, m))
  insert_head-cons xs ne q o =
      Linked-Becomes h _ m _ e [] xs insert_head-first
        (insert_head-Linked (head_or xs nil) q.first (ne-head_or e xs nil ne o)) q ne refl o

  -- `RIX_LIST_REMOVE` of a listed element closes the gap between its neighbours, clears the
  -- element's own links, and writes the links of no element outside the list.
  pub remove-List :
      (xs ys : List ℕ)
      → Holds (h, m) (xs ++ (e ∷ ys))
      → Becomes m (xs ++ (e ∷ ys)) (xs ++ ys) (remove e (h, m))
        × ((remove e (h, m)).1.next e ≡ nil)
        × ((remove e (h, m)).1.prev e ≡ nil)
  remove-List xs ys q =
      let (sl, (na, pa, qa, sr)) = Segment-append m nil xs (e ∷ ys) nil q.links in
      let (dl, (oy, dr), apart) = Distinct-append xs (e ∷ ys) q.distinct in
      let ox = Disjoint-symm xs (e ∷ ys) apart e (mem_self e ys) in
      let zx = nil-not_mem m nil xs e sl in
      let (c, d) = remove-cleared in
      (
        Unlinked-Becomes h _ m _ e xs ys
            (remove-first
              ∙ rw (pa, qa, q.first, head_or-append, head_or-append)
                  (if-last_or (head_or ys nil) e xs zx))
            (remove-Unlinked (last_or nil xs) (head_or ys nil) pa qa (ne-last_or_out e nil xs na ox)
              (ne-head_or e ys nil na oy))
            q,
        c,
        d,
      )

module _ (e : ℕ) (h : Head) (m : Links) (ne : e ≢ nil) (at : ℕ) (xs ys : List ℕ)
    (q : Holds (h, m) (xs ++ (at ∷ ys))) (o : e ∉ xs ++ (at ∷ ys)) where
  -- `RIX_LIST_INSERT_AFTER` puts an element that is not listed right behind the element `at`.
  pub insert_after-splice :
      Becomes m (xs ++ (at ∷ e ∷ ys)) (xs ++ (at ∷ e ∷ ys)) (insert_after at e (h, m))
  insert_after-splice =
      let (sl, (na, pa, qa, sr)) = Segment-append m nil xs (at ∷ ys) nil q.links in
      let (ox, oy) = not-mem-append e xs (at ∷ ys) o in
      let oy' = contains_tail e at ys oy in
      let split = λ (zs : List ℕ). append_assoc xs (at ∷ []) zs in
      rw (← split (e ∷ ys)) (
        Linked-Becomes h _ m _ e (xs ++ (at ∷ [])) ys
          (insert_after-first e h m at
            ∙ q.first
            ∙ rw (split (e ∷ ys), head_or-append, head_or-append) refl)
          (rw (last_or-append) (
            insert_after-Linked e h m at na (ground arith) (head_or ys nil) qa
              (ne-head_or e ys nil ne oy')))
          (rw (split ys) q) ne (ground (arith, contains-append e xs (at ∷ []))) oy')

  -- `RIX_LIST_INSERT_BEFORE` puts an element that is not listed right before the element `at`.
  pub insert_before-List :
      Becomes m (xs ++ (e ∷ at ∷ ys)) (xs ++ (e ∷ at ∷ ys)) (insert_before at e (h, m))
  insert_before-List =
      let (sl, (na, pa, qa, sr)) = Segment-append m nil xs (at ∷ ys) nil q.links in
      let (ox, oy) = not-mem-append e xs (at ∷ ys) o in
      let z = nil-not_mem m nil xs at sl in
      Linked-Becomes h _ m _ e xs (at ∷ ys)
        (insert_before-first e h m at
          ∙ rw (pa, q.first, head_or-append, head_or-append) (if-last_or e at xs z))
        (insert_before-Linked e h m at na (ground arith) (last_or nil xs) pa
          (ne-last_or_out e nil xs ne ox))
        q ne ox oy
