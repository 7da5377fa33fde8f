-- ===== src/Queue/Slist/Remove.antt =====
-- `RIX_SLIST_REMOVE` and the loop of RIX_SLIST against the list of the elements.
use relative_q.Base.{
  ℕ, ◌<◌, ◌≡◌, ◌≢◌, List, [], ◌∷◌, ◌++◌, arith, ◌==◌, ◌∉◌, some, length, last_or, true, ap, false,
  Distinct-append, ◌∙◌, Disjoint-symm, ne-head_or, mem_self, ne_of_mem, contains_tail,
  not-mem-append, init_of-append, last_or-ne_zero, init_of,
}
use relative_q.Queue.Links.{nil}
use relative_q.Queue.Chain.{foreach-Chain}
use relative_q.Queue.Chain.Splice.{nil-not_mem_Chain}
use relative_q.Queue.Chain.Search.{find_before, find_before-mem, find_before-absent}
use relative_q.Queue.Slist.{Head, Queue, remove_head, remove_after, remove, foreach}
use relative_q.Queue.Slist.Laws.{Holds, Becomes, remove_head-tail, remove_after-splice}

module _ (h : Head) (next : ℕ → ℕ) (fuel e : ℕ) where
  -- `RIX_SLIST_REMOVE` of a listed element ends, drops it, and writes at most the link of the
  -- element before it.
  pub remove-Slist :
      (xs ys : List ℕ)
      → Holds (h, next) (xs ++ (e ∷ ys))
      → length xs < fuel
      → (q : Queue) × (remove fuel e (h, next) ≡ some q)
        × Becomes next (last_or nil xs ∷ []) (xs ++ ys) q
  unfolding remove
  remove-Slist [] ys q f =
      let (r, s) = remove_head-tail h next (e ∷ ys) q in
      let z : (h.first == e) ≡ true = ground arith in
      (remove_head (h, next), rw z, record { holds = r; same = λ a n o. ap (λ (g : ℕ → ℕ). g a) s })
  remove-Slist (x ∷ xs) ys q f =
      let (ox, dr, apart) = Distinct-append (x ∷ xs) (e ∷ ys) q.distinct in
      let o = Disjoint-symm (x ∷ xs) (e ∷ ys) apart e (mem_self e ys) in
      let z : (h.first == e) ≡ false =
        ap (λ i. i == e) q.first ∙ ne_of_mem x e (x ∷ xs) (mem_self x xs) o in
      let found : find_before next e fuel h.first ≡ some (last_or x xs) =
        ap (find_before next e fuel) q.first
        ∙ find_before-mem next e fuel x xs ys q.links (contains_tail e x xs o) (omega arith) in
      let n =
        (not-mem-append nil (x ∷ xs) (e ∷ ys)
          (nil-not_mem_Chain next (x ∷ (xs ++ (e ∷ ys))) nil q.links)).0 in
      let split = init_of-append x xs (e ∷ ys) in
      (
        remove_after (last_or x xs) (h, next),
        rw (z, found, last_or-ne_zero x xs n),
        rw init_of-append at
            (remove_after-splice h next (last_or x xs) e (init_of x xs) ys (rw split q)),
      )

  -- `RIX_SLIST_REMOVE` of an element that is not listed ends and changes nothing.
  pub remove_absent-Slist :
      (xs : List ℕ)
      → Holds (h, next) xs
      → e ≢ nil
      → e ∉ xs
      → length xs < fuel
      → remove fuel e (h, next) ≡ some (h, next)
  unfolding remove
  remove_absent-Slist xs q ne o f =
      let z : (h.first == e) ≡ false = ap (λ i. i == e) q.first ∙ ne-head_or e xs nil ne o in
      let found : find_before next e fuel h.first ≡ some nil =
        ap (find_before next e fuel) q.first ∙ find_before-absent next e fuel xs ne q.links o f in
      rw (z, found)

  -- `RIX_SLIST_FOREACH` visits the elements in order.
  pub foreach-order :
      (xs : List ℕ) → Holds (h, next) xs → length xs < fuel → foreach fuel (h, next) ≡ some xs
  unfolding foreach
  foreach-order xs q f = rw q.first (foreach-Chain next fuel xs q.links f)
