-- ===== src/Queue/Links/Splice.antt =====
-- What the macros do to the links when an element enters a doubly linked list or leaves it, for
-- any of them: `l` and `r` are the neighbours, or the null index at an end.
use relative_q.Base.{
  ℕ, ◌≡◌, ◌≢◌, List, ◌∷◌, ◌++◌, ◌==◌, if◌then◌else◌, ◌∉◌, Distinct, Disjoint, head_or, last_or,
  ne_of_mem, ne_of_mem_nil, Distinct-append, Disjoint-symm, mem_self, ==_refl, contains_tail,
  head_or-not_mem, last_or-not_mem, last_or-mem, head_or-mem, contains-append, arith, false,
}
use relative_q.Queue.Links.{Links, nil}
use relative_q.Queue.Links.Segment.{
  Segment, Segment-append, append-Segment, nil-not_mem, relink_next, relink_prev,
}

pub record Linked (m m' : Links) (l e r : ℕ) : Type 0 where
  pub next : (a : ℕ) → a ≢ nil → m'.next a ≡ (if a == e then r else if a == l then e else m.next a)
  pub prev : (a : ℕ) → a ≢ nil → m'.prev a ≡ (if a == e then l else if a == r then e else m.prev a)

pub record Unlinked (m m' : Links) (l e r : ℕ) : Type 0 where
  pub next :
      (a : ℕ) → a ≢ nil → m'.next a ≡ (if a == e then nil else if a == l then r else m.next a)
  pub prev :
      (a : ℕ) → a ≢ nil → m'.prev a ≡ (if a == e then nil else if a == r then l else m.prev a)

module _ (m m' : Links) (e : ℕ) (xs ys : List ℕ) where
  pub Linked-Segment :
      Linked m m' (last_or nil xs) e (head_or ys nil)
      → Segment m nil (xs ++ ys) nil
      → Distinct (xs ++ ys)
      → e ≢ nil
      → e ∉ xs
      → e ∉ ys
      → Segment m' nil (xs ++ (e ∷ ys)) nil
  Linked-Segment w s d ne ox oy =
      let (sl, sr) = Segment-append m nil xs ys nil s in
      let (dl, dr, apart) = Distinct-append xs ys d in
      let zl = nil-not_mem m nil xs (head_or ys nil) sl in
      let zr = nil-not_mem m (last_or nil xs) ys nil sr in
      let hx = head_or-not_mem xs ys nil apart zl in
      let ly = last_or-not_mem xs ys nil apart zr in
      append-Segment m' nil xs (e ∷ ys) nil
        (relink_next m m' nil xs (head_or ys nil) e sl dl
          (λ a i. rw (ne_of_mem a e xs i ox) at (w.next a (ne_of_mem_nil a xs i zl)))
          (λ a i.
            rw (ne_of_mem a e xs i ox, ne_of_mem a _ xs i hx) at
              (w.prev a (ne_of_mem_nil a xs i zl))))
        (
          ne,
          rw ==_refl at (w.prev e ne),
          rw ==_refl at (w.next e ne),
          relink_prev m m' (last_or nil xs) e ys nil sr dr
              (λ a i.
                rw (ne_of_mem a e ys i oy, ne_of_mem a _ ys i ly) at
                  (w.next a (ne_of_mem_nil a ys i zr)))
              (λ a i. rw (ne_of_mem a e ys i oy) at (w.prev a (ne_of_mem_nil a ys i zr))),
        )

  pub Unlinked-Segment :
      Unlinked m m' (last_or nil xs) e (head_or ys nil)
      → Segment m nil (xs ++ (e ∷ ys)) nil
      → Distinct (xs ++ (e ∷ ys))
      → Segment m' nil (xs ++ ys) nil
  Unlinked-Segment w s d =
      let (sl, (ne, pe, qe, sr)) = Segment-append m nil xs (e ∷ ys) nil s in
      let (dl, (oy, dr), apart) = Distinct-append xs (e ∷ ys) d in
      let zl = nil-not_mem m nil xs e sl in
      let zr = nil-not_mem m e ys nil sr in
      let ox = Disjoint-symm xs (e ∷ ys) apart e (mem_self e ys) in
      let apart' : Disjoint xs ys = λ a i. contains_tail a e ys (apart a i) in
      let hx = head_or-not_mem xs ys nil apart' zl in
      let ly = last_or-not_mem xs ys nil apart' zr in
      append-Segment m' nil xs ys nil
        (relink_next m m' nil xs e (head_or ys nil) sl dl
          (λ a i. rw (ne_of_mem a e xs i ox) at (w.next a (ne_of_mem_nil a xs i zl)))
          (λ a i.
            rw (ne_of_mem a e xs i ox, ne_of_mem a _ xs i hx) at
              (w.prev a (ne_of_mem_nil a xs i zl))))
        (relink_prev m m' e (last_or nil xs) ys nil sr dr
          (λ a i.
            rw (ne_of_mem a e ys i oy, ne_of_mem a _ ys i ly) at
              (w.next a (ne_of_mem_nil a ys i zr)))
          (λ a i. rw (ne_of_mem a e ys i oy) at (w.prev a (ne_of_mem_nil a ys i zr))))

-- `m'` agrees with `m` on every element that is not in `xs`.
abbrev pub SameOutside : List ℕ → Links → Links → Type 0
SameOutside xs m m' = (a : ℕ) → a ≢ nil → a ∉ xs → (m'.next a ≡ m.next a) × (m'.prev a ≡ m.prev a)

module _ (m m' : Links) (e : ℕ) (xs ys : List ℕ) (a : ℕ) (ne : a ≢ nil)
    (out : a ∉ xs ++ (e ∷ ys)) where
  fresh : ((a == e) ≡ false) × ((a == last_or nil xs) ≡ false) × ((a == head_or ys nil) ≡ false)
  fresh = (
    ground (arith, contains-append a xs (e ∷ ys)),
    ground (arith, contains-append a xs (e ∷ ys), last_or-mem nil xs),
    ground (arith, contains-append a xs (e ∷ ys), head_or-mem ys nil),
  )

  pub Linked-same :
      Linked m m' (last_or nil xs) e (head_or ys nil)
      → (m'.next a ≡ m.next a) × (m'.prev a ≡ m.prev a)
  Linked-same w = let (p, l, r) = fresh in (rw (p, l) at (w.next a ne), rw (p, r) at (w.prev a ne))

  pub Unlinked-same :
      Unlinked m m' (last_or nil xs) e (head_or ys nil)
      → (m'.next a ≡ m.next a) × (m'.prev a ≡ m.prev a)
  Unlinked-same w =
      let (p, l, r) = fresh in (rw (p, l) at (w.next a ne), rw (p, r) at (w.prev a ne))
