-- ===== src/Queue/Stailq/Insert.antt =====
-- The insertions of RIX_STAILQ against the list of the elements.
use mathlib.Core.List.{append-nil}
use relative_q.Base.{
  ◌≡◌, ◌≢◌, ◌++◌, ◌==◌, if◌then◌else◌, ◌∉◌, ◌∷◌, false, arith, [], Bool-cases, last_or, ◌∙◌, inl,
  ne-last_or_out, if-head_or, last_or-append, inr, if-last_or, sym, head_or-append, Distinct-insert,
  refl,
}
use relative_q.Queue.Links.{nil}
use relative_q.Queue.Slist
use relative_q.Queue.Slist.Laws
use relative_q.Queue.Chain.Splice
use relative_q.Queue.Chain.Splice.{Chain-append, nil-not_mem_Chain}
use relative_q.Queue.Stailq.{Head, insert_head, insert_tail, insert_after, ℕ, List}
use relative_q.Queue.Stailq.View.{
  view, Holds, Becomes, insert_after-view, insert_head-last, insert_after-last,
}

module _ (h : Head) (next : ℕ → ℕ) where
  insert_head-Slist :
      (e : ℕ) (xs : List ℕ)
      → Laws.Holds (view (h, next)) xs
      → e ≢ nil
      → e ∉ xs
      → Laws.Becomes next (e ∷ []) (e ∷ xs) (view (insert_head e (h, next)))
  unfolding insert_head Slist.insert_head
  insert_head-Slist e xs q ne o =
      Laws.insert_head-cons (record { first = h.first }) next e xs q ne o

  -- `RIX_STAILQ_INSERT_HEAD` of an element that is not queued puts it in front of the others, and
  -- writes its link alone.
  pub insert_head-cons :
      (e : ℕ) (xs : List ℕ)
      → Holds (h, next) xs
      → e ≢ nil
      → e ∉ xs
      → Becomes next (e ∷ []) (e ∷ xs) (insert_head e (h, next))
  insert_head-cons e xs q ne o = record {
    chain = insert_head-Slist e xs q.chain ne o;
    last =
        insert_head-last h next e
        ∙ rw (q.chain.first, q.last)
            (if-head_or e nil xs (nil-not_mem_Chain next xs nil q.chain.links));
  }

  -- `RIX_STAILQ_INSERT_AFTER` puts an element that is not queued right behind the element `at`,
  -- and writes the links of these two alone.
  pub insert_after-splice :
      (at e : ℕ) (xs ys : List ℕ)
      → Holds (h, next) (xs ++ (at ∷ ys))
      → e ≢ nil
      → e ∉ xs ++ (at ∷ ys)
      → Becomes next (at ∷ e ∷ []) (xs ++ (at ∷ e ∷ ys)) (insert_after at e (h, next))
  insert_after-splice at e xs ys q ne o =
      let (cl, (na, qa, cr)) = Chain-append next xs (at ∷ ys) nil q.chain.links in
      record {
        chain =
            rw insert_after-view
              (Laws.insert_after-Slist (record { first = h.first }) next at e xs ys q.chain ne o);
        last =
            insert_after-last h next at e
            ∙ rw (qa, q.last, last_or-append, last_or-append)
                (if-head_or e at ys (nil-not_mem_Chain next ys nil cr));
      }

  insert_tail-next :
      (e l : ℕ)
      → h.last ≡ l
      → (l == e) ≡ false
      → (a : ℕ) → a ≢ nil
      → (insert_tail e (h, next)).1 a ≡ (if a == e then nil else if a == l then e else next a)
  unfolding insert_tail
  insert_tail-next e l p o a n = elim (Bool-cases (h.last == nil)) [
    | inl z ↦ rw z (ground arith)
    | inr z ↦ rw z (ground arith)
  ]

  insert_tail-ends :
      (e : ℕ)
      → ((insert_tail e (h, next)).0.first ≡ (if h.last == nil then e else h.first))
        × ((insert_tail e (h, next)).0.last ≡ e)
  unfolding insert_tail
  insert_tail-ends e = ground arith

  -- `RIX_STAILQ_INSERT_TAIL` of an element that is not queued puts it behind the others, and
  -- writes its link and that of the old last element alone.
  pub insert_tail-Stailq :
      (e : ℕ) (xs : List ℕ)
      → Holds (h, next) xs
      → e ≢ nil
      → e ∉ xs
      → Becomes next (e ∷ last_or nil xs ∷ []) (xs ++ (e ∷ [])) (insert_tail e (h, next))
  insert_tail-Stailq e xs q ne o =
      let (f, l) = insert_tail-ends e in
      let n = insert_tail-next e (last_or nil xs) q.last (ne-last_or_out e nil xs ne o) in
      record {
        chain = record {
          holds = record {
            first =
                f
                ∙ rw (q.chain.first, q.last)
                    (if-last_or e nil xs (nil-not_mem_Chain next xs nil q.chain.links)
                      ∙ sym (head_or-append xs (e ∷ []) nil));
            links =
                Splice.linked next _ e xs [] n (rw append-nil q.chain.links)
                  (rw append-nil q.chain.distinct) ne o refl;
            distinct = Distinct-insert e xs [] (rw append-nil q.chain.distinct) o refl;
          };
          same = λ a na out. n a na ∙ ground arith;
        };
        last = l ∙ sym (last_or-append nil xs (e ∷ []));
      }
