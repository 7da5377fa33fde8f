-- ===== src/Queue/Chain.antt =====
-- What a chain of `next` links stands for, and the loops over it.
pub mod Splice
pub mod Search
use mathlib.Core.List.{reverse_aux}
use relative_q.Base.{
  ℕ, zero, suc, ◌+◌, ◌<◌, ◌≡◌, ◌≢◌, refl, List, [], ◌∷◌, arith, ◌==◌, some, length, head_or,
  last_or, false,
}
use relative_q.Queue.Links.{Links, nil}
use relative_q.Queue.Links.Segment.{Segment}
use relative_q.Queue.Walk

-- Each of the elements `xs` leads to the next one, and the last one to `q`.
abbrev pub Chain : (ℕ → ℕ) → List ℕ → ℕ → Type 0
Chain next [] q = Unit
Chain next (x ∷ xs) q = (x ≢ nil) × (next x ≡ head_or xs q) × Chain next xs q

pub Segment-Chain : (m : Links) (p : ℕ) (xs : List ℕ) (q : ℕ) → Segment m p xs q → Chain m.next xs q
Segment-Chain m p [] q s = tt
Segment-Chain m p (x ∷ xs) q (a, b, c, s) = (a, c, Segment-Chain m x xs q s)

-- Against the `prev` links the elements stand in reverse.
pub Segment-Chain_reverse :
    (m : Links) (xs ys : List ℕ) (q : ℕ)
    → Segment m (head_or ys nil) xs q
    → Chain m.prev ys nil
    → Chain m.prev (reverse_aux xs ys) nil
Segment-Chain_reverse m [] ys q s c = c
Segment-Chain_reverse m (x ∷ xs) ys q (a, b, e, s) c =
    Segment-Chain_reverse m xs (x ∷ ys) q s (a, b, c)

pub head_or-reverse_aux :
    (xs ys : List ℕ) → head_or (reverse_aux xs ys) nil ≡ last_or (head_or ys nil) xs
head_or-reverse_aux [] ys = refl
head_or-reverse_aux (x ∷ xs) ys = head_or-reverse_aux xs (x ∷ ys)

pub length-reverse_aux : (xs ys : List ℕ) → length (reverse_aux xs ys) ≡ length xs + length ys
length-reverse_aux [] ys = omega arith
length-reverse_aux (x ∷ xs) ys = omega (arith, length-reverse_aux xs (x ∷ ys))

pub foreach-Chain :
    (next : ℕ → ℕ) (fuel : ℕ) (xs : List ℕ)
    → Chain next xs nil
    → length xs < fuel
    → Walk.foreach next fuel (head_or xs nil) ≡ some xs
unfolding Walk.foreach
foreach-Chain next zero xs c f = absurd (omega arith)
foreach-Chain next (suc fuel) [] c f = refl
foreach-Chain next (suc fuel) (x ∷ xs) (a, b, c) f =
    let e : (x == nil) ≡ false = ground arith in
    rw (e, b, foreach-Chain next fuel xs c (omega arith))

pub foreach_safe_step {ℓ} :
    {S : Type ℓ} (next : S → ℕ → ℕ) (body : ℕ → S → S) (fuel : ℕ) (s : S) (i t : ℕ)
    → (i == nil) ≡ false
    → next s i ≡ t
    → Walk.foreach_safe next body (suc fuel) s i ≡ Walk.foreach_safe next body fuel (body i s) t
unfolding Walk.foreach_safe
foreach_safe_step next body fuel s i t e p = rw (e, p)
