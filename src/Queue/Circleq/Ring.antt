-- ===== src/Queue/Circleq/Ring.antt =====
-- Rings of links, and what an insertion and a removal do to them. A ring has no distinguished
-- element, so that a change at any place is one before the first element.
use relative_q.Base.{List, ℕ, last_or, ◌≡◌, ◌++◌, ◌∷◌, head_or, Distinct, last_or-append, ◌≢◌, ◌∉◌}
use mathlib.Core.List.{append-nil}
use relative_q.Base.{List, [], ◌∷◌, ==_refl, ne_of_mem, ne_of_mem_nil, ◌∈◌, ◌∙◌, arith, sym, subst}
use relative_q.Queue.Links.{Links, nil}
use relative_q.Queue.Links.Segment.{Segment, Segment-append, append-Segment, nil-not_mem, relink}
use relative_q.Queue.Links.Splice.{Linked, Unlinked, SameOutside}
use relative_q.Queue.Circleq.{Queue}

abbrev pub Ring : Links → List ℕ → Type 0
Ring m xs = Segment m (last_or nil xs) xs (head_or xs nil)

-- The queue holds the elements `xs`, in this order from its first.
pub record Holds (q : Queue) (xs : List ℕ) : Type 0 where
  pub first : q.0.first ≡ head_or xs nil
  pub links : Ring q.1 xs
  pub distinct : Distinct xs

-- `q` holds `xs`, and nothing but the links of `touched` was written.
pub record Becomes (m : Links) (touched xs : List ℕ) (q : Queue) : Type 0 where
  pub holds : Holds q xs
  pub same : SameOutside touched m q.1

pub Ring-rotate : (m : Links) (xs ys : List ℕ) → Ring m (xs ++ ys) → Ring m (ys ++ xs)
Ring-rotate m [] ys r = rw append-nil r
Ring-rotate m (x ∷ xs) [] r = subst (Ring m) (append-nil (x ∷ xs)) r
Ring-rotate m (x ∷ xs) (y ∷ ys) r =
    let (l, s) = Segment-append m _ (x ∷ xs) (y ∷ ys) x r in
    subst (λ p. Segment m p ((y ∷ ys) ++ (x ∷ xs)) y) (sym (last_or-append y ys (x ∷ xs)))
      (append-Segment m (last_or x xs) (y ∷ ys) (x ∷ xs) y s
        (subst (λ p. Segment m p (x ∷ xs) y) (last_or-append x xs (y ∷ ys)) l))

module _ (m m' : Links) (e x : ℕ) (xs : List ℕ) where
  -- A new element enters a ring before its first element.
  pub Linked-Ring :
      Linked m m' (last_or x xs) e x
      → Ring m (x ∷ xs)
      → Distinct (x ∷ xs)
      → e ≢ nil
      → e ∉ x ∷ xs
      → Ring m' (e ∷ x ∷ xs)
  Linked-Ring w r d ne o =
      let z = nil-not_mem m _ (x ∷ xs) x r in
      (
        ne,
        rw ==_refl at (w.prev e ne),
        rw ==_refl at (w.next e ne),
        relink m m' (last_or x xs) e (x ∷ xs) x e r d
            (λ a i. rw (ne_of_mem a e (x ∷ xs) i o) at (w.next a (ne_of_mem_nil a (x ∷ xs) i z)))
            (λ a i. rw (ne_of_mem a e (x ∷ xs) i o) at (w.prev a (ne_of_mem_nil a (x ∷ xs) i z))),
      )

  -- The first element leaves a ring of more than one.
  pub Unlinked-Ring :
      Unlinked m m' (last_or x xs) e x
      → Ring m (e ∷ x ∷ xs)
      → Distinct (e ∷ x ∷ xs)
      → Ring m' (x ∷ xs)
  Unlinked-Ring w (ne, pe, qe, r) (o, d) =
      let z = nil-not_mem m e (x ∷ xs) e r in
      relink m m' e (last_or x xs) (x ∷ xs) e x r d
        (λ a i. rw (ne_of_mem a e (x ∷ xs) i o) at (w.next a (ne_of_mem_nil a (x ∷ xs) i z)))
        (λ a i. rw (ne_of_mem a e (x ∷ xs) i o) at (w.prev a (ne_of_mem_nil a (x ∷ xs) i z)))

-- The same for a ring that is given with one of its elements.
pub enter-Ring :
    (m m' : Links) (e b : ℕ) (zs : List ℕ)
    → b ∈ zs
    → Linked m m' (last_or nil zs) e (head_or zs nil)
    → Ring m zs
    → Distinct zs
    → e ≢ nil
    → e ∉ zs
    → Ring m' (e ∷ zs)
enter-Ring m m' e b [] i w r d ne o = cc
enter-Ring m m' e b (x ∷ xs) i w r d ne o = Linked-Ring m m' e x xs w r d ne o

pub leave-Ring :
    (m m' : Links) (e b : ℕ) (zs : List ℕ)
    → b ∈ zs
    → Unlinked m m' (last_or nil zs) e (head_or zs nil)
    → Ring m (e ∷ zs)
    → Distinct (e ∷ zs)
    → Ring m' zs
leave-Ring m m' e b [] i w r d = cc
leave-Ring m m' e b (x ∷ xs) i w r d = Unlinked-Ring m m' e x xs w r d

pub Linked-same : (m m' : Links) (l e r : ℕ) → Linked m m' l e r → SameOutside (e ∷ l ∷ r ∷ []) m m'
Linked-same m m' l e r w a n o = (w.next a n ∙ ground arith, w.prev a n ∙ ground arith)

pub Unlinked-same :
    (m m' : Links) (l e r : ℕ) → Unlinked m m' l e r → SameOutside (e ∷ l ∷ r ∷ []) m m'
Unlinked-same m m' l e r w a n o = (w.next a n ∙ ground arith, w.prev a n ∙ ground arith)
