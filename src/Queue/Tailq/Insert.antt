-- ===== src/Queue/Tailq/Insert.antt =====
-- The four insertions of RIX_TAILQ, against the list of the elements.
use relative_q.Base.{
  ℕ, ◌≡◌, ◌≢◌, refl, List, [], ◌∷◌, ◌++◌, arith, ◌==◌, if◌then◌else◌, ◌∉◌, head_or, last_or,
  Bool-cases, ◌∙◌, ne-head_or, ne-last_or_out, if-head_or, if-last_or, head_or-append,
  last_or-append, sym, not-mem-append, contains_tail, contains-append, inl, inr, false,
}
use relative_q.Queue.Links.{Links, nil}
use mathlib.Core.List.{append-nil, append_assoc}
use relative_q.Queue.Links.Segment.{Segment-append, nil-not_mem}
use relative_q.Queue.Links.Splice.{Linked}
use relative_q.Queue.Tailq.{Head, insert_head, insert_tail, insert_after, insert_before}
use relative_q.Queue.Tailq.Holds.{Holds, Becomes, Linked-Becomes}

-- Each insertion links the element between its two neighbours.
module _ (e : ℕ) (h : Head) (m : Links) where
  insert_head-Linked :
      (r : ℕ) → h.first ≡ r → (r == e) ≡ false → Linked m (insert_head e (h, m)).1 nil e r
  unfolding insert_head
  insert_head-Linked r p o = elim (Bool-cases (h.first == nil)) [
    | inl z ↦ rw z (record { next = λ a na. ground arith; prev = λ a na. ground arith })
    | inr z ↦ rw z (record { next = λ a na. ground arith; prev = λ a na. ground arith })
  ]

  insert_tail-Linked :
      (l : ℕ) → h.last ≡ l → (l == e) ≡ false → Linked m (insert_tail e (h, m)).1 l e nil
  unfolding insert_tail
  insert_tail-Linked l p o = elim (Bool-cases (h.last == nil)) [
    | inl z ↦ rw z (record { next = λ a na. ground arith; prev = λ a na. ground arith })
    | inr z ↦ rw z (record { next = λ a na. ground arith; prev = λ a na. ground arith })
  ]

  module _ (at : ℕ) (ne : at ≢ nil) (apart : (at == e) ≡ false) where
    insert_after-Linked :
        (r : ℕ) → m.next at ≡ r → (r == e) ≡ false → Linked m (insert_after at e (h, m)).1 at e r
    unfolding insert_after
    insert_after-Linked r p o = elim (Bool-cases (m.next at == nil)) [
      | inl z ↦ rw z (record { next = λ a na. ground arith; prev = λ a na. ground arith })
      | inr z ↦ rw z (record { next = λ a na. ground arith; prev = λ a na. ground arith })
    ]

    insert_before-Linked :
        (l : ℕ) → m.prev at ≡ l → (l == e) ≡ false → Linked m (insert_before at e (h, m)).1 l e at
    unfolding insert_before
    insert_before-Linked l p o = elim (Bool-cases (m.prev at == nil)) [
      | inl z ↦ rw z (record { next = λ a na. ground arith; prev = λ a na. ground arith })
      | inr z ↦ rw z (record { next = λ a na. ground arith; prev = λ a na. ground arith })
    ]

  insert_head-ends :
      ((insert_head e (h, m)).0.first ≡ e)
      × ((insert_head e (h, m)).0.last ≡ (if h.first == nil then e else h.last))
  unfolding insert_head
  insert_head-ends = ground arith

  insert_tail-ends :
      ((insert_tail e (h, m)).0.first ≡ (if h.last == nil then e else h.first))
      × ((insert_tail e (h, m)).0.last ≡ e)
  unfolding insert_tail
  insert_tail-ends = ground arith

  module _ (at : ℕ) where
    insert_after-ends :
        ((insert_after at e (h, m)).0.first ≡ h.first)
        × ((insert_after at e (h, m)).0.last ≡ (if m.next at == nil then e else h.last))
    unfolding insert_after
    insert_after-ends = ground arith

    insert_before-ends :
        ((insert_before at e (h, m)).0.first ≡ (if m.prev at == nil then e else h.first))
        × ((insert_before at e (h, m)).0.last ≡ h.last)
    unfolding insert_before
    insert_before-ends = ground arith

module _ (e : ℕ) (h : Head) (m : Links) (ne : e ≢ nil) where
  -- `RIX_TAILQ_INSERT_HEAD` of an element that is not queued puts it in front of the others, and
  -- writes the links of no element outside the queue.
  pub insert_head-cons :
      (xs : List ℕ) → Holds (h, m) xs → e ∉ xs → Becomes m (e ∷ xs) (e ∷ xs) (insert_head e (h, m))
  insert_head-cons xs q o =
      let (f, l) = insert_head-ends e h m in
      let z = nil-not_mem m nil xs nil q.links in
      Linked-Becomes h _ m _ e [] xs f (l ∙ rw (q.first, q.last) (if-head_or e nil xs z))
        (insert_head-Linked e h m (head_or xs nil) q.first (ne-head_or e xs nil ne o)) q ne refl o

  -- `RIX_TAILQ_INSERT_TAIL` of an element that is not queued puts it behind the others, and
  -- writes the links of no element outside the queue.
  pub insert_tail-Tailq :
      (xs : List ℕ)
      → Holds (h, m) xs
      → e ∉ xs
      → Becomes m (xs ++ (e ∷ [])) (xs ++ (e ∷ [])) (insert_tail e (h, m))
  insert_tail-Tailq xs q o =
      let (f, l) = insert_tail-ends e h m in
      let z = nil-not_mem m nil xs nil q.links in
      Linked-Becomes h _ m _ e xs []
        (f ∙ rw (q.first, q.last) (if-last_or e nil xs z ∙ sym (head_or-append xs (e ∷ []) nil)))
        (l ∙ sym (last_or-append nil xs (e ∷ [])))
        (insert_tail-Linked e h m (last_or nil xs) q.last (ne-last_or_out e nil xs ne o))
        (rw append-nil q) ne o refl

  module _ (at : ℕ) (xs ys : List ℕ) (q : Holds (h, m) (xs ++ (at ∷ ys)))
      (o : e ∉ xs ++ (at ∷ ys)) where
    -- `RIX_TAILQ_INSERT_AFTER` puts an element that is not queued right behind the element `at`.
    pub insert_after-Tailq :
        Becomes m (xs ++ (at ∷ e ∷ ys)) (xs ++ (at ∷ e ∷ ys)) (insert_after at e (h, m))
    insert_after-Tailq =
        let (f, l) = insert_after-ends e h m at in
        let (sl, (na, pa, qa, sr)) = Segment-append m nil xs (at ∷ ys) nil q.links in
        let (ox, oy) = not-mem-append e xs (at ∷ ys) o in
        let z = nil-not_mem m at ys nil sr in
        let oy' = contains_tail e at ys oy in
        let split = λ (zs : List ℕ). append_assoc xs (at ∷ []) zs in
        rw (← split (e ∷ ys)) (
          Linked-Becomes h _ m _ e (xs ++ (at ∷ [])) ys
            (f ∙ q.first ∙ rw (split (e ∷ ys), head_or-append, head_or-append) refl)
            (l
              ∙ rw (qa, q.last, split (e ∷ ys), last_or-append, last_or-append)
                  (if-head_or e at ys z))
            (rw (last_or-append) (
              insert_after-Linked e h m at na (ground arith) (head_or ys nil) qa
                (ne-head_or e ys nil ne oy')))
            (rw (split ys) q) ne (ground (arith, contains-append e xs (at ∷ []))) oy')

    -- `RIX_TAILQ_INSERT_BEFORE` puts an element that is not queued right before the element `at`.
    pub insert_before-Tailq :
        Becomes m (xs ++ (e ∷ at ∷ ys)) (xs ++ (e ∷ at ∷ ys)) (insert_before at e (h, m))
    insert_before-Tailq =
        let (f, l) = insert_before-ends e h m at in
        let (sl, (na, pa, qa, sr)) = Segment-append m nil xs (at ∷ ys) nil q.links in
        let (ox, oy) = not-mem-append e xs (at ∷ ys) o in
        let z = nil-not_mem m nil xs at sl in
        Linked-Becomes h _ m _ e xs (at ∷ ys)
          (f ∙ rw (pa, q.first, head_or-append, head_or-append) (if-last_or e at xs z))
          (l ∙ q.last ∙ rw (last_or-append, last_or-append))
          (insert_before-Linked e h m at na (ground arith) (last_or nil xs) pa
            (ne-last_or_out e nil xs ne ox))
          q ne ox oy
