-- ===== src/Queue/Stailq/Remove.antt =====
-- The removals of RIX_STAILQ against the list of the elements.
use relative_q.Base.{
  ◌≡◌, Bool-cases, ◌≢◌, ◌==◌, ◌++◌, inl, true, ◌∉◌, ◌<◌, ◌∷◌, inr, ap, some, Distinct-append, false,
  last_or, ◌∙◌, arith, if-head_or, last_or-append, ==_refl, ne-head_or, refl, length, Disjoint-symm,
  mem_self, ne_of_mem, contains_tail, not-mem-append, init_of-append, last_or-ne_zero, init_of,
}
use mathlib.Core.List.{tail, List, []}
use relative_q.Queue.Links.{nil}
use relative_q.Queue.Slist.Laws
use relative_q.Queue.Chain.{foreach-Chain}
use relative_q.Queue.Chain.Splice.{Chain-append, nil-not_mem_Chain}
use relative_q.Queue.Chain.Search.{find_before, find_before-mem, find_before-absent}
use relative_q.Queue.Stailq.{
  Head, Queue, remove_head, remove_after, remove, remove_head_until, foreach, ℕ,
}
use relative_q.Queue.Stailq.View.{
  Holds, Becomes, remove_head-view, remove_head-last, remove_after-view, remove_after-last,
}

module _ (h : Head) (next : ℕ → ℕ) where
  remove_head-next : (remove_head (h, next)).1 ≡ next
  unfolding remove_head
  remove_head-next = elim (Bool-cases (h.first == nil)) [ inl z ↦ rw z | inr z ↦ rw z ]

  -- `RIX_STAILQ_REMOVE_HEAD` drops the first element and writes no link; on an empty queue it does
  -- nothing.
  pub remove_head-tail :
      (xs : List ℕ)
      → Holds (h, next) xs
      → Holds (remove_head (h, next)) (tail xs) × ((remove_head (h, next)).1 ≡ next)
  unfolding remove_head
  remove_head-tail [] q =
      let e : (h.first == nil) ≡ true = ap (λ i. i == nil) q.chain.first in rw e (q, refl)
  remove_head-tail (x ∷ xs) q =
      let e : (h.first == nil) ≡ false = ap (λ i. i == nil) q.chain.first ∙ ground arith in
      let z = nil-not_mem_Chain next xs nil q.chain.links.2 in
      (
        record {
          chain =
              rw (remove_head-view h next)
                (Laws.remove_head-tail (record { first = h.first }) next (x ∷ xs) q.chain).0;
          last =
              remove_head-last h next e
              ∙ rw (q.chain.first, q.chain.links.1, q.last) (if-head_or nil x xs z);
        },
        remove_head-next,
      )

  -- `RIX_STAILQ_REMOVE_AFTER` drops the element behind `at`, and writes the link of `at` alone.
  pub remove_after-splice :
      (at e : ℕ) (xs ys : List ℕ)
      → Holds (h, next) (xs ++ (at ∷ e ∷ ys))
      → Becomes next (at ∷ []) (xs ++ (at ∷ ys)) (remove_after at (h, next))
  remove_after-splice at e xs ys q =
      let (cl, (na, qa, (ne, qe, cr))) = Chain-append next xs (at ∷ e ∷ ys) nil q.chain.links in
      let z : (next at == nil) ≡ false = ap (λ i. i == nil) qa ∙ ground arith in
      record {
        chain =
            rw (remove_after-view h next at)
              (Laws.remove_after-splice (record { first = h.first }) next at e xs ys q.chain);
        last =
            remove_after-last h next at z
            ∙ rw (qa, qe, q.last, last_or-append, last_or-append)
                (if-head_or at e ys (nil-not_mem_Chain next ys nil cr));
      }

module _ (h : Head) (next : ℕ → ℕ) (fuel e : ℕ) where
  -- `RIX_STAILQ_REMOVE` of a queued element ends, drops it, and writes at most the link of the
  -- element before it.
  pub remove-Stailq :
      (xs ys : List ℕ)
      → Holds (h, next) (xs ++ (e ∷ ys))
      → length xs < fuel
      → (q : Queue) × (remove fuel e (h, next) ≡ some q)
        × Becomes next (last_or nil xs ∷ []) (xs ++ ys) q
  unfolding remove
  remove-Stailq [] ys q f =
      let (r, s) = remove_head-tail h next (e ∷ ys) q in
      let z : (h.first == e) ≡ true = ap (λ i. i == e) q.chain.first ∙ ==_refl e in
      (
        remove_head (h, next),
        rw z,
        record {
          chain = record { holds = r.chain; same = λ a n o. ap (λ (g : ℕ → ℕ). g a) s };
          last = r.last;
        },
      )
  remove-Stailq (x ∷ xs) ys q f =
      let (ox, dr, apart) = Distinct-append (x ∷ xs) (e ∷ ys) q.chain.distinct in
      let o = Disjoint-symm (x ∷ xs) (e ∷ ys) apart e (mem_self e ys) in
      let z : (h.first == e) ≡ false =
        ap (λ i. i == e) q.chain.first ∙ ne_of_mem x e (x ∷ xs) (mem_self x xs) o in
      let found : find_before next e fuel h.first ≡ some (last_or x xs) =
        ap (find_before next e fuel) q.chain.first
        ∙ find_before-mem next e fuel x xs ys q.chain.links (contains_tail e x xs o)
            (omega arith) in
      let all = nil-not_mem_Chain next (x ∷ (xs ++ (e ∷ ys))) nil q.chain.links in
      let n = (not-mem-append nil (x ∷ xs) (e ∷ ys) all).0 in
      let split = init_of-append x xs (e ∷ ys) in
      (
        remove_after (last_or x xs) (h, next),
        rw (z, found, last_or-ne_zero x xs n),
        rw init_of-append at
            (remove_after-splice h next (last_or x xs) e (init_of x xs) ys (rw split q)),
      )

  -- `RIX_STAILQ_REMOVE` of an element that is not queued ends and changes nothing.
  pub remove-absent :
      (xs : List ℕ)
      → Holds (h, next) xs
      → e ≢ nil
      → e ∉ xs
      → length xs < fuel
      → remove fuel e (h, next) ≡ some (h, next)
  unfolding remove
  remove-absent xs q ne o f =
      let z : (h.first == e) ≡ false = ap (λ i. i == e) q.chain.first ∙ ne-head_or e xs nil ne o in
      let found : find_before next e fuel h.first ≡ some nil =
        ap (find_before next e fuel) q.chain.first
        ∙ find_before-absent next e fuel xs ne q.chain.links o f in
      rw (z, found)

module _ (h : Head) (next : ℕ → ℕ) where
  -- `RIX_STAILQ_REMOVE_HEAD_UNTIL` drops the elements up to and with `e`, and writes no link.
  pub remove_head_until-Stailq :
      (e : ℕ) (xs ys : List ℕ)
      → Holds (h, next) (xs ++ (e ∷ ys))
      → Holds (remove_head_until e (h, next)) ys × ((remove_head_until e (h, next)).1 ≡ next)
  unfolding remove_head_until
  remove_head_until-Stailq e xs ys q =
      let (cl, (ne, qe, cr)) = Chain-append next xs (e ∷ ys) nil q.chain.links in
      let (dl, (oy, dr), apart) = Distinct-append xs (e ∷ ys) q.chain.distinct in
      let z : (e == nil) ≡ false = ground arith in
      (
        record {
          chain = record { first = rw (z, qe); links = cr; distinct = dr };
          last =
              rw (z, qe, q.last, last_or-append)
                (if-head_or nil e ys (nil-not_mem_Chain next ys nil cr));
        },
        refl,
      )

  -- `RIX_STAILQ_FOREACH` visits the elements in order.
  pub foreach-order :
      (xs : List ℕ) (fuel : ℕ)
      → Holds (h, next) xs
      → length xs < fuel
      → foreach fuel (h, next) ≡ some xs
  unfolding foreach
  foreach-order xs fuel q f = rw q.chain.first (foreach-Chain next fuel xs q.chain.links f)
