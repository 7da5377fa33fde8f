-- ===== src/Queue/List/Swap.antt =====
-- `RIX_LIST_SWAP` and the loops of RIX_LIST.
use relative_q.Base.{
  ℕ, zero, suc, ◌<◌, ◌≡◌, List, [], ◌∷◌, arith, some, length, head_or, ◌∙◌, ap, sym,
}
use relative_q.Queue.Chain.{Segment-Chain, foreach-Chain, foreach_safe_step}
use relative_q.Queue.Links.{Links, nil}
use relative_q.Queue.Links.Segment.{Segment, frame}
use relative_q.Queue.Walk
use relative_q.Queue.List.{Head, Queue, remove, foreach, foreach_safe, swap, clear_prev}
use relative_q.Queue.List.Holds.{Holds}
use relative_q.Queue.List.Edit.{remove-List}

clear_prev-next : (h : Head) (m : Links) (a : ℕ) → (clear_prev h m).next a ≡ m.next a
unfolding clear_prev
clear_prev-next h m a = ground arith

-- Clearing the first element's `prev` again changes nothing.
clear_prev-prev :
    (h : Head) (m : Links) (xs : List ℕ)
    → h.first ≡ head_or xs nil
    → Segment m nil xs nil
    → (a : ℕ) → (clear_prev h m).prev a ≡ m.prev a
unfolding clear_prev
clear_prev-prev h m [] p s a = ground arith
clear_prev-prev h m (x ∷ xs) p (n, b, c, s) a = ground arith

clear_prev-Holds :
    (h g : Head) (m : Links) (xs ys : List ℕ)
    → Holds (h, m) xs
    → Holds (g, m) ys
    → Holds (g, clear_prev h m) ys
clear_prev-Holds h g m xs ys p q = record {
  first = q.first;
  links =
      frame m _ nil ys nil q.links (λ a i. clear_prev-next h m a)
        (λ a i. clear_prev-prev h m xs p.first p.links a);
  distinct = q.distinct;
}

module _ (h1 h2 : Head) (m : Links) (xs ys : List ℕ) where
  -- `RIX_LIST_SWAP` exchanges the elements of two lists, and changes no link.
  pub swap-List :
      Holds (h1, m) xs
      → Holds (h2, m) ys
      → Holds ((swap h1 h2 m).0, (swap h1 h2 m).2) ys
        × Holds ((swap h1 h2 m).1, (swap h1 h2 m).2) xs
        × ((a : ℕ) → (swap h1 h2 m).2.next a ≡ m.next a)
        × ((a : ℕ) → (swap h1 h2 m).2.prev a ≡ m.prev a)
  unfolding swap
  swap-List p q =
      let m1 = clear_prev h2 m in
      let p1 = clear_prev-Holds h2 h1 m ys xs q p in
      let q1 = clear_prev-Holds h2 h2 m ys ys q q in
      (
        clear_prev-Holds h1 h2 m1 xs ys p1 q1,
        clear_prev-Holds h1 h1 m1 xs xs p1 p1,
        λ a. clear_prev-next h1 m1 a ∙ clear_prev-next h2 m a,
        λ a.
            clear_prev-prev h1 m1 xs p1.first p1.links a
            ∙ clear_prev-prev h2 m ys q.first q.links a,
      )

-- `RIX_LIST_FOREACH` visits the elements in order.
pub foreach-order :
    (h : Head) (m : Links) (xs : List ℕ) (fuel : ℕ)
    → Holds (h, m) xs
    → length xs < fuel
    → foreach fuel (h, m) ≡ some xs
unfolding foreach
foreach-order h m xs fuel q f =
    rw q.first (foreach-Chain m.next fuel xs (Segment-Chain m nil xs nil q.links) f)

-- A `RIX_LIST_FOREACH_SAFE` whose body is `RIX_LIST_REMOVE` ends, and leaves the list empty.
pub foreach_safe-remove :
    (xs : List ℕ) (h : Head) (m : Links) (fuel : ℕ)
    → Holds (h, m) xs
    → length xs < fuel
    → (q : Queue) × (foreach_safe remove fuel (h, m) ≡ some q) × Holds q []
unfolding foreach_safe Walk.foreach_safe
foreach_safe-remove xs h m zero q f = absurd (omega arith)
foreach_safe-remove [] h m (suc fuel) q f = ((h, m), rw q.first, q)
foreach_safe-remove (x ∷ xs) h m (suc fuel) q f =
    let r = (remove-List x h m [] xs q).0.holds in
    let (done, run, empty) =
      foreach_safe-remove xs (remove x (h, m)).0 (remove x (h, m)).1 fuel r (omega arith) in
    let next : Queue → ℕ → ℕ = λ s. s.1.next in
    (
      done,
      ap (Walk.foreach_safe next remove (suc fuel) (h, m)) q.first
          ∙ foreach_safe_step next remove fuel (h, m) x (head_or xs nil) (ground arith) q.links.2
          ∙ ap (Walk.foreach_safe next remove fuel (remove x (h, m))) (sym r.first)
          ∙ run,
      empty,
    )
