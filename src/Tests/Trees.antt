-- ===== src/Tests/Trees.antt =====
-- Searches in a tree of the elements 1, 2 and 3, in this order, with 2 at the root.
use relative_q.Base.{◌*◌, ℕ, ◌≡◌, ◌==◌, if◌then◌else◌, some, refl, arith, ltb, ◌*◌}
use relative_q.Tree.{Sign, below, equal, above, Tree, find, nfind}
use relative_q.Tree.Search.{
  Shape, tip, fork, elements, matches, at_least, first_or, Spans, Splits, find-first, nfind-first,
}

abbrev three : Tree
three = record {
  root = 2;
  left = λ x. if x == 2 then 1 else 0;
  right = λ x. if x == 2 then 3 else 0;
}

abbrev shape : Shape
shape = fork (fork tip 1 tip) 2 (fork tip 3 tip)

-- The key of element `x` is `10 x`.
abbrev order : ℕ → ℕ → Sign
order key x = if ltb key (10 * x) then below else if key == 10 * x then equal else above

three-Spans : Spans three shape 2
unfolding Spans
three-Spans = (refl, omega arith, (refl, omega arith, refl, refl), (refl, omega arith, refl, refl))

find-first_example :
    find (order 30) 4 three ≡ some (first_or (matches (order 30) three) 0 (elements shape))
unfolding Splits
find-first_example =
    find-first (order 30) three shape 4 three-Spans
      (
        (refl, refl, (λ v. refl), λ v. refl),
        (refl, refl, (λ v. refl), λ v. refl),
        (λ v. refl),
        λ v. absurd (v refl),
      )
      (omega arith)

nfind-first_example :
    nfind (order 15) 4 three ≡ some (first_or (at_least (order 15) three) 0 (elements shape))
unfolding Splits
nfind-first_example =
    nfind-first (order 15) three shape 4 three-Spans
      (
        (refl, refl, (λ v. refl), λ v. refl),
        (refl, refl, (λ v. refl), λ v. refl),
        (λ v. refl),
        λ v. refl,
      )
      (omega arith)
