-- ===== src/Queue/Chain/Search.antt =====
-- The search that `RIX_SLIST_REMOVE` and `RIX_STAILQ_REMOVE` of include/rix/rix_queue.h make.
use relative_q.Base.{
  ℕ, zero, suc, ◌<◌, ◌≡◌, ◌≢◌, refl, List, [], ◌∷◌, ◌++◌, arith, ◌==◌, if◌then◌else◌, ◌||◌, ◌∉◌,
  Option, none, some, length, head_or, last_or, true, false, contains_tail, ne-head_or,
}
use relative_q.Queue.Links.{nil}
use relative_q.Queue.Chain.{Chain}

-- `while (cur && NEXT(cur) != e) cur = NEXT(cur);` gives the element whose successor is `e`, or
-- the null index. On fuel: `none` means that it ran out.
unfoldable pub find_before : (ℕ → ℕ) → ℕ → ℕ → ℕ → Option ℕ
find_before next e zero cur = none
find_before next e (suc fuel) cur =
    let rest = find_before next e fuel (next cur) in
    if (cur == nil) || (next cur == e) then some cur else rest

module _ (next : ℕ → ℕ) (e : ℕ) where
  pub find_before-mem :
      (fuel x : ℕ) (xs ys : List ℕ)
      → Chain next (x ∷ (xs ++ (e ∷ ys))) nil
      → e ∉ xs
      → length xs < fuel
      → find_before next e fuel x ≡ some (last_or x xs)
  unfolding find_before
  find_before-mem zero x xs ys c o f = absurd (omega arith)
  find_before-mem (suc fuel) x [] ys (a, b, c) o f =
      let h : (next x == e) ≡ true = ground arith in
      let z : (x == nil) ≡ false = ground arith in rw (z, h)
  find_before-mem (suc fuel) x (y ∷ xs) ys (a, b, c) o f =
      let h : (y == e) ≡ false = ground arith in
      let z : (x == nil) ≡ false = ground arith in
      rw (z, b, h) (find_before-mem fuel y xs ys c (contains_tail e y xs o) (omega arith))

  pub find_before-absent :
      (fuel : ℕ) (xs : List ℕ)
      → e ≢ nil
      → Chain next xs nil
      → e ∉ xs
      → length xs < fuel
      → find_before next e fuel (head_or xs nil) ≡ some nil
  unfolding find_before
  find_before-absent zero xs ne c o f = absurd (omega arith)
  find_before-absent (suc fuel) [] ne c o f = refl
  find_before-absent (suc fuel) (x ∷ xs) ne (a, b, c) o f =
      let o' = contains_tail e x xs o in
      let h = ne-head_or e xs nil ne o' in
      let z : (x == nil) ≡ false = ground arith in
      rw (z, b, h) (find_before-absent fuel xs ne c o' (omega arith))
