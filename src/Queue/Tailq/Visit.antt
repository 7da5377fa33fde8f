-- ===== src/Queue/Tailq/Visit.antt =====
-- The loops of RIX_TAILQ, against the list of the elements.
use mathlib.Core.List.{reverse}
use relative_q.Base.{
  ℕ, zero, suc, ◌<◌, ◌≡◌, List, [], ◌∷◌, arith, some, length, head_or, ◌∙◌, ap, sym,
}
use relative_q.Queue.Chain.{
  length-reverse_aux, Segment-Chain, Segment-Chain_reverse, head_or-reverse_aux, foreach-Chain,
  foreach_safe_step,
}
use relative_q.Queue.Links.{Links, nil}
use relative_q.Queue.Walk
use relative_q.Queue.Tailq.{Head, Queue, remove, foreach, foreach_reverse, foreach_safe}
use relative_q.Queue.Tailq.Holds.{Holds}
use relative_q.Queue.Tailq.Remove.{remove-Tailq}

module _ (h : Head) (m : Links) (xs : List ℕ) (fuel : ℕ) where
  -- `RIX_TAILQ_FOREACH` visits the elements in order.
  pub foreach-order : Holds (h, m) xs → length xs < fuel → foreach fuel (h, m) ≡ some xs
  unfolding foreach
  foreach-order q f =
      rw q.first (foreach-Chain m.next fuel xs (Segment-Chain m nil xs nil q.links) f)

  -- `RIX_TAILQ_FOREACH_REVERSE` visits them from the last to the first.
  pub foreach_reverse-order :
      Holds (h, m) xs → length xs < fuel → foreach_reverse fuel (h, m) ≡ some (reverse xs)
  unfolding foreach_reverse
  foreach_reverse-order q f =
      rw (q.last, ← head_or-reverse_aux xs [])
        (foreach-Chain m.prev fuel (reverse xs) (Segment-Chain_reverse m xs [] nil q.links tt)
          (omega (arith, length-reverse_aux xs [])))

-- A `RIX_TAILQ_FOREACH_SAFE` whose body is `RIX_TAILQ_REMOVE` ends, and leaves the queue empty.
pub foreach_safe-Tailq :
    (xs : List ℕ) (h : Head) (m : Links) (fuel : ℕ)
    → Holds (h, m) xs
    → length xs < fuel
    → (q : Queue) × (foreach_safe remove fuel (h, m) ≡ some q) × Holds q []
unfolding foreach_safe Walk.foreach_safe
foreach_safe-Tailq xs h m zero q f = absurd (omega arith)
foreach_safe-Tailq [] h m (suc fuel) q f = ((h, m), rw q.first, q)
foreach_safe-Tailq (x ∷ xs) h m (suc fuel) q f =
    let r = (remove-Tailq x h m [] xs q).0.holds in
    let (done, run, empty) =
      foreach_safe-Tailq xs (remove x (h, m)).0 (remove x (h, m)).1 fuel r (omega arith) in
    let next : Queue → ℕ → ℕ = λ s. s.1.next in
    (
      done,
      ap (Walk.foreach_safe next remove (suc fuel) (h, m)) q.first
          ∙ foreach_safe_step next remove fuel (h, m) x (head_or xs nil) (ground arith) q.links.2
          ∙ ap (Walk.foreach_safe next remove fuel (remove x (h, m))) (sym r.first)
          ∙ run,
      empty,
    )
