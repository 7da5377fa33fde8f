-- ===== src/Queue/Circleq/Visit.antt =====
-- The loops of RIX_CIRCLEQ.
use relative_q.Base.{
  ℕ, List, ◌∷◌, suc, ◌≡◌, some, ◌==◌, false, arith, [], ap, ◌∙◌, ◌∉◌, Distinct, length, last_or,
  ◌<◌, ==_refl, ne_of_not_mem_symm, head_or, if◌then◌else◌, mem_self, ne-last_or, contains_tail,
  refl,
}
use mathlib.Core.List.{reverse, reverse_aux}
use relative_q.Queue.Walk
use relative_q.Queue.Chain.{Chain, foreach-Chain, head_or-reverse_aux, length-reverse_aux}
use relative_q.Queue.Links.Segment.{Segment}
use relative_q.Queue.Links.{Links, nil}
use relative_q.Queue.Circleq.{
  Head, Queue, remove, safe_loop, safe_step, foreach_safe, foreach, foreach_reverse, ring_step,
}
use relative_q.Queue.Circleq.Ring.{Holds, Ring}
use relative_q.Queue.Circleq.Remove.{remove-Circleq}

safe_step_cleared :
    (start next : ℕ) (m : Links)
    → (start == nil) ≡ false
    → m.next start ≡ nil
    → safe_step start next m ≡ nil
unfolding safe_step
safe_step_cleared start next m z c = rw (z, c) (ground arith)

safe_loop_stops :
    (body : ℕ → Queue → Queue) (fuel start i : ℕ) (q : Queue)
    → (i == nil) ≡ false
    → safe_step start (q.1.next i) (body i q).1 ≡ nil
    → safe_loop body (suc (suc fuel)) start i q ≡ some (body i q)
unfolding safe_loop
safe_loop_stops body fuel start i q z s = rw (z, s)

-- A `RIX_CIRCLEQ_FOREACH_SAFE` that removes the elements it visits ends after the first of them,
-- with the others still queued: once its starting element is removed, its step test reads the
-- cleared link of that element and takes it for the end of the ring.
pub foreach_safe_stops-Circleq :
    (h : Head) (m : Links) (x y : ℕ) (xs : List ℕ) (fuel : ℕ)
    → Holds (h, m) (x ∷ y ∷ xs)
    → (foreach_safe remove (suc (suc fuel)) (h, m) ≡ some (remove x (h, m)))
      × Holds (remove x (h, m)) (y ∷ xs)
unfolding foreach_safe
foreach_safe_stops-Circleq h m x y xs fuel q =
    let z : (x == nil) ≡ false = ground arith in
    let (b, c, d) = remove-Circleq x h m [] (y ∷ xs) q in
    (
      ap (λ i. safe_loop remove (suc (suc fuel)) i i (h, m)) q.first
          ∙ safe_loop_stops remove fuel x x (h, m) z
              (safe_step_cleared x (m.next x) (remove x (h, m)).1 z c),
      b.holds,
    )

-- The forward step of the loops follows the chain, and ends it where the ring closes.
ring-Chain :
    (m : Links) (p x : ℕ) (xs : List ℕ) (f : ℕ)
    → Segment m p (x ∷ xs) f
    → f ∉ xs
    → Chain (ring_step m.next f) (x ∷ xs) nil
ring-Chain m p x [] f (a, b, c, s) o = (a, rw (c, ==_refl), tt)
ring-Chain m p x (y ∷ ys) f (a, b, c, s) o = (
  a,
  rw (c, ne_of_not_mem_symm f y (y ∷ ys) o (mem_self y ys)),
  ring-Chain m x y ys f s (contains_tail f y ys o),
)

-- So does the backward step, in reverse.
ring-Chain_reverse :
    (m : Links) (p x : ℕ) (xs ys : List ℕ) (q l : ℕ)
    → Segment m p (x ∷ xs) q
    → Distinct (x ∷ xs)
    → l ≡ last_or x xs
    → (if p == l then nil else p) ≡ head_or ys nil
    → Chain (ring_step m.prev l) ys nil
    → Chain (ring_step m.prev l) (reverse_aux (x ∷ xs) ys) nil
ring-Chain_reverse m p x [] ys q l (a, b, c, s) d e h r = (a, rw b h, r)
ring-Chain_reverse m p x (z ∷ zs) ys q l (a, b, c, s) (o, d) e h r =
    ring-Chain_reverse m x z zs (x ∷ ys) q l s d e (rw (e, ne-last_or x z zs o)) (a, rw b h, r)

module _ (h : Head) (m : Links) (fuel : ℕ) where
  -- `RIX_CIRCLEQ_FOREACH` visits each element once, in order from the first.
  pub foreach-order :
      (xs : List ℕ) → Holds (h, m) xs → length xs < fuel → foreach fuel (h, m) ≡ some xs
  unfolding foreach
  foreach-order xs q f = rw q.first (run xs q.links q.distinct f)
    where
      run :
          (xs : List ℕ)
          → Ring m xs
          → Distinct xs
          → length xs < fuel
          → Walk.foreach (ring_step m.next (head_or xs nil)) fuel (head_or xs nil) ≡ some xs
      run [] r d f = foreach-Chain (ring_step m.next nil) fuel [] tt f
      run (x ∷ xs) r (o, d) f =
          foreach-Chain (ring_step m.next x) fuel (x ∷ xs) (ring-Chain m (last_or x xs) x xs x r o)
            f

  -- `RIX_CIRCLEQ_FOREACH_REVERSE` visits each element once, from the last to the first.
  pub foreach_reverse-Circleq :
      (xs : List ℕ)
      → Holds (h, m) xs
      → length xs < fuel
      → foreach_reverse fuel (h, m) ≡ some (reverse xs)
  unfolding foreach_reverse
  foreach_reverse-Circleq [] q f = rw q.first (foreach-Chain (ring_step m.prev nil) fuel [] tt f)
  foreach_reverse-Circleq (x ∷ xs) q f =
      let z : (h.first == nil) ≡ false = ground arith in
      let start : m.prev h.first ≡ last_or x xs = ap m.prev q.first ∙ q.links.1 in
      rw (z, start, ← head_or-reverse_aux (x ∷ xs) [])
        (foreach-Chain (ring_step m.prev (head_or (reverse (x ∷ xs)) nil)) fuel (reverse (x ∷ xs))
          (rw (head_or-reverse_aux xs (x ∷ [])) (
            ring-Chain_reverse m (last_or x xs) x xs [] x (last_or x xs) q.links q.distinct refl
              (rw ==_refl) tt))
          (omega (arith, length-reverse_aux (x ∷ xs) [])))
