-- ===== src/Queue/Tailq/Concat.antt =====
-- `RIX_TAILQ_CONCAT` against the lists of the elements.
use mathlib.Core.List.{append-nil}
use relative_q.Base.{
  ℕ, ◌≡◌, refl, ◌∙◌, List, [], ◌∷◌, ◌++◌, arith, ◌==◌, head_or, last_or, ◌∉◌, false, Disjoint,
  mem_self, append-Distinct, last_or-append, sym, ne_of_mem, ne_of_not_mem, not-mem-append,
  head_or-not_mem, last_or-not_mem, last_or-mem_of_mem,
}
use relative_q.Queue.Links.{Links, nil, set_next, set_prev}
use relative_q.Queue.Links.Segment.{Segment, append-Segment, nil-not_mem, relink_next, relink_prev}
use relative_q.Queue.Tailq.{Head, concat}
use relative_q.Queue.Tailq.Holds.{Holds, Becomes}

module _ (h1 h2 : Head) (m : Links) where
  joined : Links
  unfolding set_next set_prev
  joined = set_prev h2.first h1.last (set_next h1.last h2.first m)

  concat_second_empty : h2.first ≡ nil → concat h2 (h1, m) ≡ (h2, (h1, m))
  unfolding concat
  concat_second_empty z = rw z

  concat_first_empty :
      (h2.first == nil) ≡ false
      → h1.first ≡ nil
      → concat h2 (h1, m)
        ≡ (record { first = nil; last = nil }, (record { first = h2.first; last = h2.last }, m))
  unfolding concat
  concat_first_empty n z = rw (n, z)

  concat-joined :
      (h2.first == nil) ≡ false
      → (h1.first == nil) ≡ false
      → concat h2 (h1, m)
        ≡ (record { first = nil; last = nil }, (record h1 { last = h2.last }, joined))
  unfolding concat joined
  concat-joined n z = rw (n, z)

  joined-Segment :
      (xs ys : List ℕ)
      → Holds (h1, m) xs
      → Holds (h2, m) ys
      → Disjoint xs ys
      → Segment joined nil (xs ++ ys) nil
  unfolding joined
  joined-Segment xs ys p q apart =
      let zx = nil-not_mem m nil xs nil p.links in
      let zy = nil-not_mem m nil ys nil q.links in
      let hx : h2.first ∉ xs = rw q.first (head_or-not_mem xs ys nil apart zx) in
      let ly : h1.last ∉ ys = rw p.last (last_or-not_mem xs ys nil apart zy) in
      append-Segment joined nil xs ys nil
        (relink_next m joined nil xs nil (head_or ys nil) p.links p.distinct
          (λ a i. rw (← p.last, ← q.first)) (λ a i. rw (ne_of_mem a _ xs i hx)))
        (relink_prev m joined nil (last_or nil xs) ys nil q.links q.distinct
          (λ a i. rw (ne_of_mem a _ ys i ly)) (λ a i. rw (← p.last, ← q.first)))

  joined-same :
      (a : ℕ)
      → (a == h1.last) ≡ false
      → (a == h2.first) ≡ false
      → (joined.next a ≡ m.next a) × (joined.prev a ≡ m.prev a)
  unfolding joined
  joined-same a p q = (rw p, rw q)

  -- `RIX_TAILQ_CONCAT` of two queues with no element in common moves the second behind the first,
  -- empties the second head, and writes the links of no other element.
  pub concat-Tailq :
      (xs ys : List ℕ)
      → Holds (h1, m) xs
      → Holds (h2, m) ys
      → Disjoint xs ys
      → Becomes m (xs ++ ys) (xs ++ ys) (concat h2 (h1, m)).1
        × Holds ((concat h2 (h1, m)).0, (concat h2 (h1, m)).1.1) []
  concat-Tailq xs [] p q apart =
      rw (concat_second_empty q.first, append-nil)
        (
          record { holds = p; same = λ a n o. (refl, refl) },
          record { first = q.first; last = q.last; links = tt; distinct = tt },
        )
  concat-Tailq [] (y ∷ ys) p q apart = rw (concat_first_empty (ground arith) p.first) (
    record { holds = q; same = λ a n o. (refl, refl) },
    record { first = refl; last = refl; links = tt; distinct = tt },
  )
  concat-Tailq (x ∷ xs) (y ∷ ys) p q apart = rw (concat-joined (ground arith) (ground arith)) (
    record {
      holds = record {
        first = p.first;
        last = q.last ∙ sym (last_or-append x xs (y ∷ ys));
        links = joined-Segment (x ∷ xs) (y ∷ ys) p q apart;
        distinct = append-Distinct (x ∷ xs) (y ∷ ys) p.distinct q.distinct apart;
      };
      same = λ a n o.
          let (ox, oy) = not-mem-append a (x ∷ xs) (y ∷ ys) o in
          joined-same a
            (rw p.last
              (ne_of_not_mem a _ (x ∷ xs) ox (last_or-mem_of_mem nil x (x ∷ xs) (mem_self x xs))))
            (rw q.first (ne_of_not_mem a y (y ∷ ys) oy (mem_self y ys)));
    },
    record { first = refl; last = refl; links = tt; distinct = tt },
  )
