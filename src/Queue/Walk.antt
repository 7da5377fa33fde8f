-- ===== src/Queue/Walk.antt =====
-- The `for` loops of include/rix/rix_queue.h, as recursion on fuel: `none` means that it ran out.
use relative_q.Base.{ℕ, zero, suc, List, [], ◌∷◌, ◌==◌, if◌then◌else◌, Option, none, some}
use mathlib.Core.Option

abbrev nil : ℕ
nil = 0

-- `..._FOREACH` with a body that changes no link: the elements visited, in order.
unfoldable pub foreach : (ℕ → ℕ) → ℕ → ℕ → Option (List ℕ)
foreach next zero i = none
foreach next (suc fuel) i =
    let rest = Option.map (λ xs. i ∷ xs) (foreach next fuel (next i)) in
    if i == nil then some [] else rest

-- `..._FOREACH_SAFE`: the successor is read before the body runs, and the body may relink.
unfoldable pub foreach_safe {ℓ} : {S : Type ℓ} → (S → ℕ → ℕ) → (ℕ → S → S) → ℕ → S → ℕ → Option S
foreach_safe next body zero s i = none
foreach_safe next body (suc fuel) s i =
    let rest = foreach_safe next body fuel (body i s) (next s i) in
    if i == nil then some s else rest
