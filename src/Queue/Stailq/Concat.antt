-- ===== src/Queue/Stailq/Concat.antt =====
-- `RIX_STAILQ_CONCAT` against the lists of the elements.
use relative_q.Base.{
  Disjoint, ◌==◌, ◌≡◌, true, false, last_or, if◌then◌else◌, ◌∷◌, ◌++◌, ap, ◌∙◌, arith,
  append-Distinct, sym, last_or-append, refl,
}
use mathlib.Core.List.{append-nil, List, []}
use relative_q.Queue.Links.{nil, update}
use relative_q.Queue.Chain.Splice
use relative_q.Queue.Stailq.{Head, concat, ℕ, ◌==◌}
use relative_q.Queue.Stailq.View.{Holds, Becomes}

module _ (h1 h2 : Head) (next : ℕ → ℕ) where
  concat_second_empty : (h2.first == nil) ≡ true → concat h2 (h1, next) ≡ (h2, (h1, next))
  unfolding concat
  concat_second_empty z = rw z

  concat_first_empty :
      (h2.first == nil) ≡ false
      → (h1.first == nil) ≡ true
      → concat h2 (h1, next)
        ≡ (record { first = nil; last = nil }, (record { first = h2.first; last = h2.last }, next))
  unfolding concat
  concat_first_empty n z = rw (n, z)

  concat-joined :
      (h2.first == nil) ≡ false
      → (h1.first == nil) ≡ false
      → concat h2 (h1, next) ≡ (
        record { first = nil; last = nil },
        (record h1 { last = h2.last }, update next h1.last h2.first),
      )
  unfolding concat
  concat-joined n z = rw (n, z)

  joined-next :
      (l r : ℕ)
      → h1.last ≡ l
      → h2.first ≡ r
      → (a : ℕ) → update next h1.last h2.first a ≡ (if a == l then r else next a)
  joined-next l r p q a = rw (p, q)

  -- `RIX_STAILQ_CONCAT` of two queues with no element in common moves the second behind the first,
  -- empties the second head, and writes at most the link of the first queue's last element.
  pub concat-Stailq :
      (xs ys : List ℕ)
      → Holds (h1, next) xs
      → Holds (h2, next) ys
      → Disjoint xs ys
      → Becomes next (last_or nil xs ∷ []) (xs ++ ys) (concat h2 (h1, next)).1
        × Holds ((concat h2 (h1, next)).0, (concat h2 (h1, next)).1.1) []
  concat-Stailq xs [] p q apart =
      rw (concat_second_empty (ap (λ i. i == nil) q.chain.first), append-nil)
        (
          record { chain = record { holds = p.chain; same = λ a n o. refl }; last = p.last },
          record {
            chain = record { first = q.chain.first; links = tt; distinct = tt };
            last = q.last;
          },
        )
  concat-Stailq [] (y ∷ ys) p q apart =
      rw
        (concat_first_empty (ap (λ i. i == nil) q.chain.first ∙ ground arith)
          (ap (λ i. i == nil) p.chain.first))
        (
          record { chain = record { holds = q.chain; same = λ a n o. refl }; last = q.last },
          record { chain = record { first = refl; links = tt; distinct = tt }; last = refl },
        )
  concat-Stailq (x ∷ xs) (y ∷ ys) p q apart =
      rw
        (concat-joined (ap (λ i. i == nil) q.chain.first ∙ ground arith)
          (ap (λ i. i == nil) p.chain.first ∙ ground arith))
        (
          record {
            chain = record {
              holds = record {
                first = p.chain.first;
                links =
                    Splice.joined next _ (x ∷ xs) (y ∷ ys) nil
                      (λ a n. joined-next (last_or x xs) y p.last q.chain.first a) p.chain.links
                      q.chain.links p.chain.distinct apart;
                distinct =
                    append-Distinct (x ∷ xs) (y ∷ ys) p.chain.distinct q.chain.distinct apart;
              };
              same = λ a n o. joined-next (last_or x xs) y p.last q.chain.first a ∙ ground arith;
            };
            last = q.last ∙ sym (last_or-append x xs (y ∷ ys));
          },
          record { chain = record { first = refl; links = tt; distinct = tt }; last = refl },
        )
