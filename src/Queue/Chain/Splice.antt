-- ===== src/Queue/Chain/Splice.antt =====
-- What the macros of the singly linked lists do to a chain, for any of them: `l` and `r` are the
-- neighbours of the place, or the null index at an end.
use relative_q.Base.{
  refl, ℕ, ◌≡◌, ◌≢◌, List, [], ◌∷◌, ◌++◌, ◌==◌, if◌then◌else◌, ◌∈◌, ◌∉◌, Distinct, head_or, last_or,
  arith, ◌∙◌, mem_self, ne-last_or, Distinct-append, Disjoint, last_or-not_mem, contains_tail,
  ne_of_mem, ne_of_mem_nil, ==_refl,
}
use relative_q.Queue.Links.{nil}
use relative_q.Queue.Chain.{Chain}

pub Chain-append :
    (next : ℕ → ℕ) (xs ys : List ℕ) (q : ℕ)
    → Chain next (xs ++ ys) q
    → Chain next xs (head_or ys q) × Chain next ys q
Chain-append next [] ys q c = (tt, c)
Chain-append next (x ∷ []) ys q (a, b, c) = ((a, b, tt), c)
Chain-append next (x ∷ y ∷ xs) ys q (a, b, c) =
    let (l, r) = Chain-append next (y ∷ xs) ys q c in ((a, b, l), r)

pub append-Chain :
    (next : ℕ → ℕ) (xs ys : List ℕ) (q : ℕ)
    → Chain next xs (head_or ys q)
    → Chain next ys q
    → Chain next (xs ++ ys) q
append-Chain next [] ys q l r = r
append-Chain next (x ∷ []) ys q (a, b, c) r = (a, b, r)
append-Chain next (x ∷ y ∷ xs) ys q (a, b, l) r = (a, b, append-Chain next (y ∷ xs) ys q l r)

pub nil-not_mem_Chain : (next : ℕ → ℕ) (xs : List ℕ) (q : ℕ) → Chain next xs q → nil ∉ xs
nil-not_mem_Chain next [] q s = refl
nil-not_mem_Chain next (x ∷ xs) q (a, b, c) = ground (arith, nil-not_mem_Chain next xs q c)

module _ (next next' : ℕ → ℕ) where
  frame :
      (xs : List ℕ) (q : ℕ)
      → Chain next xs q
      → ((a : ℕ) → a ∈ xs → next' a ≡ next a)
      → Chain next' xs q
  frame [] q c n = tt
  frame (x ∷ xs) q (a, b, c) n =
      (a, n x (mem_self x xs) ∙ b, frame xs q c (λ a i. n a (ground arith)))

  relink :
      (d : ℕ) (xs : List ℕ) (q q' : ℕ)
      → Chain next xs q
      → Distinct xs
      → ((a : ℕ) → a ∈ xs → next' a ≡ (if a == last_or d xs then q' else next a))
      → Chain next' xs q'
  relink d [] q q' c dx n = tt
  relink d (x ∷ []) q q' (a, b, c) dx n = (a, ground (arith, n x), tt)
  relink d (x ∷ y ∷ xs) q q' (a, b, c) (out, dx) n = (
    a,
    rw (ne-last_or x y xs out) at (n x (mem_self x (y ∷ xs))) ∙ b,
    relink x (y ∷ xs) q q' c dx (λ a i. ground (arith, n a)),
  )

  -- A new element `e` enters between `xs` and `ys`.
  pub linked :
      (e : ℕ) (xs ys : List ℕ)
      → ((a : ℕ)
          → a ≢ nil
          → next' a
            ≡ (if a == e then head_or ys nil else if a == last_or nil xs then e else next a))
      → Chain next (xs ++ ys) nil
      → Distinct (xs ++ ys)
      → e ≢ nil
      → e ∉ xs
      → e ∉ ys
      → Chain next' (xs ++ (e ∷ ys)) nil
  linked e xs ys n c d ne ox oy =
      let (cl, cr) = Chain-append next xs ys nil c in
      let (dl, dr, apart) = Distinct-append xs ys d in
      let zl = nil-not_mem_Chain next xs (head_or ys nil) cl in
      let zr = nil-not_mem_Chain next ys nil cr in
      let ly = last_or-not_mem xs ys nil apart zr in
      append-Chain next' xs (e ∷ ys) nil
        (relink nil xs (head_or ys nil) e cl dl
          (λ a i. rw (ne_of_mem a e xs i ox) at (n a (ne_of_mem_nil a xs i zl))))
        (
          ne,
          rw ==_refl at (n e ne),
          frame ys nil cr (λ a i.
              rw (ne_of_mem a e ys i oy, ne_of_mem a _ ys i ly) at (n a (ne_of_mem_nil a ys i zr))),
        )

  -- The chain `ys` is put behind `xs`, whatever `xs` led to before.
  pub joined :
      (xs ys : List ℕ) (q : ℕ)
      → ((a : ℕ) → a ≢ nil → next' a ≡ (if a == last_or nil xs then head_or ys nil else next a))
      → Chain next xs q
      → Chain next ys nil
      → Distinct xs
      → Disjoint xs ys
      → Chain next' (xs ++ ys) nil
  joined xs ys q n cl cr dl apart =
      let zl = nil-not_mem_Chain next xs q cl in
      let zr = nil-not_mem_Chain next ys nil cr in
      let ly = last_or-not_mem xs ys nil apart zr in
      append-Chain next' xs ys nil
        (relink nil xs q (head_or ys nil) cl dl (λ a i. n a (ne_of_mem_nil a xs i zl)))
        (frame ys nil cr (λ a i. rw (ne_of_mem a _ ys i ly) at (n a (ne_of_mem_nil a ys i zr))))

  -- The element `e` leaves from between `xs` and `ys`.
  pub unlinked :
      (e : ℕ) (xs ys : List ℕ)
      → ((a : ℕ) → a ≢ nil → next' a ≡ (if a == last_or nil xs then head_or ys nil else next a))
      → Chain next (xs ++ (e ∷ ys)) nil
      → Distinct (xs ++ (e ∷ ys))
      → Chain next' (xs ++ ys) nil
  unlinked e xs ys n c d =
      let (cl, (ne, qe, cr)) = Chain-append next xs (e ∷ ys) nil c in
      let (dl, dr, apart) = Distinct-append xs (e ∷ ys) d in
      joined xs ys e n cl cr dl (λ a i. contains_tail a e ys (apart a i))

-- `next'` agrees with `next` on every element that is not in `xs`.
abbrev pub SameOutside : List ℕ → (ℕ → ℕ) → (ℕ → ℕ) → Type 0
SameOutside xs next next' = (a : ℕ) → a ≢ nil → a ∉ xs → next' a ≡ next a
