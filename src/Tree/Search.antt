-- ===== src/Tree/Search.antt =====
-- The searches of the tree, against a search of the list of its elements in order.
use relative_q.Base.{
  not, ◌⊎◌, inl, inr, ℕ, zero, suc, Bool, true, false, ◌≡◌, ◌≢◌, ◌<◌, ◌∙◌, sym, refl, ap, List, [],
  ◌∷◌, ◌++◌, ◌==◌, if◌then◌else◌, ◌&&◌, some, arith, ◌+◌, ◌⊎◌, inl, inr,
}
use relative_q.Tree.{
  Sign, below, equal, above, Tree, left_idx, right_idx, find_loop, nfind_loop, nfind, find,
}

pub data Shape : Type 0 where
  tip : Shape
  fork : Shape → ℕ → Shape → Shape

abbrev pub elements : Shape → List ℕ
elements tip = []
elements (fork l x r) = elements l ++ (x ∷ elements r)

abbrev pub size : Shape → ℕ
size tip = 0
size (fork l x r) = suc (size l + size r)

-- The links below `x` spell the shape.
unfoldable pub Spans : Tree → Shape → ℕ → Type 0
Spans t tip x = x ≡ 0
Spans t (fork l y r) x = (x ≡ y) × (y ≢ 0) × Spans t l (t.left y) × Spans t r (t.right y)

abbrev pub is : Sign → Sign → Bool
is below below = true
is equal equal = true
is above above = true
is a b = false

abbrev pub every : (ℕ → Bool) → List ℕ → Bool
every p [] = true
every p (x ∷ xs) = p x && every p xs

-- Around each element, what is left of it is less than the key if the element is not greater, and
-- what is right of it greater if the element is not less.
unfoldable pub Splits : (ℕ → Sign) → Shape → Type 0
Splits order tip = elements tip ≡ []
Splits order (fork l x r) =
    Splits order l
    × Splits order r
    × (order x ≢ below → every (λ y. is above (order y)) (elements l) ≡ true)
    × (order x ≢ above → every (λ y. is below (order y)) (elements r) ≡ true)

-- The first element that passes, or `d`.
abbrev pub first_or : (ℕ → Bool) → ℕ → List ℕ → ℕ
first_or p d [] = d
first_or p d (x ∷ xs) = if p x then x else first_or p d xs

first_or-stop :
    (p : ℕ → Bool) (d x : ℕ) (xs ys : List ℕ)
    → p x ≡ true
    → first_or p d (xs ++ (x ∷ ys)) ≡ first_or p x xs
first_or-stop p d x [] ys e = rw e refl
first_or-stop p d x (y ∷ xs) ys e = ap (λ n. if p y then y else n) (first_or-stop p d x xs ys e)

first_or-skip :
    (p q : ℕ → Bool) (d : ℕ) (xs ys : List ℕ)
    → ((x : ℕ) → q x ≡ true → p x ≡ false)
    → every q xs ≡ true
    → first_or p d (xs ++ ys) ≡ first_or p d ys
first_or-skip p q d [] ys f e = refl
first_or-skip p q d (x ∷ xs) ys f e =
    let z = f x (ground arith) in rw z (first_or-skip p q d xs ys f (ground arith))

first_or-end :
    (p : ℕ → Bool) (xs ys : List ℕ)
    → first_or p 0 ys ≡ 0
    → first_or p 0 (xs ++ ys) ≡ first_or p 0 xs
first_or-end p [] ys e = e
first_or-end p (x ∷ xs) ys e = ap (λ n. if p x then x else n) (first_or-end p xs ys e)

first_or-none :
    (p q : ℕ → Bool) (xs : List ℕ)
    → ((x : ℕ) → q x ≡ true → p x ≡ false)
    → every q xs ≡ true
    → first_or p 0 xs ≡ 0
first_or-none p q [] f e = refl
first_or-none p q (x ∷ xs) f e =
    let z = f x (ground arith) in rw z (first_or-none p q xs f (ground arith))

true-ne-false : true ≢ false
true-ne-false p = cc

above-ne-below : above ≢ below
above-ne-below p = cc

below-ne-above : below ≢ above
below-ne-above p = cc

equal-ne-below : equal ≢ below
equal-ne-below p = cc

sign-cases : (s : Sign) → (s ≡ below) ⊎ ((s ≡ equal) ⊎ (s ≡ above))
sign-cases below = inl refl
sign-cases equal = inr (inl refl)
sign-cases above = inr (inr refl)

module _ (order : ℕ → Sign) (t : Tree) where
  abbrev pub at_least : ℕ → Bool
  at_least x = not (is above (order x))

  abbrev pub matches : ℕ → Bool
  matches x = is equal (order x)

  left_of : (y : ℕ) → y ≢ 0 → left_idx t y ≡ t.left y
  unfolding left_idx
  left_of y o = let z : (y == 0) ≡ false = ground arith in rw (left_idx, z) refl

  right_of : (y : ℕ) → y ≢ 0 → right_idx t y ≡ t.right y
  unfolding right_idx
  right_of y o = let z : (y == 0) ≡ false = ground arith in rw (right_idx, z) refl

  not_less : (x : ℕ) → is above (order x) ≡ true → at_least x ≡ false
  not_less x e = rw e refl

  not_above : (x : ℕ) → is above (order x) ≡ true → matches x ≡ false
  not_above x e = elim (sign-cases (order x)) [
    | inl w ↦ rw w refl
    | inr (inl w) ↦ absurd (true-ne-false (sym e ∙ rw w refl))
    | inr (inr w) ↦ rw w refl
  ]

  not_below : (x : ℕ) → is below (order x) ≡ true → matches x ≡ false
  not_below x e = elim (sign-cases (order x)) [
    | inl w ↦ rw w refl
    | inr (inl w) ↦ absurd (true-ne-false (sym e ∙ rw w refl))
    | inr (inr w) ↦ rw w refl
  ]

  nfind_loop-first :
      (fuel : ℕ) (s : Shape) (x res : ℕ)
      → Spans t s x
      → Splits order s
      → size s < fuel
      → nfind_loop order t fuel x res ≡ some (first_or at_least res (elements s))
  unfolding nfind_loop Spans Splits
  nfind_loop-first zero s x res h o l = absurd (omega arith)
  nfind_loop-first (suc fuel) tip x res h o l = rw h refl
  nfind_loop-first (suc fuel) (fork a y b) x res (e, ne, ha, hb) (oa, ob, lo, hi) l =
      let z : (x == 0) ≡ false = ground arith in
      let lower = nfind_loop-first fuel a (t.left y) x ha oa (omega arith) in
      let upper = nfind_loop-first fuel b (t.right y) res hb ob (omega arith) in
      let stop = first_or-stop at_least res y (elements a) (elements b) in
      elim (sign-cases (order y)) [
        | inl w ↦
            rw (nfind_loop, z, ap order e ∙ w, ap (left_idx t) e ∙ left_of y ne)
              (lower
                ∙ ap some (ap (λ n. first_or at_least n (elements a)) e ∙ sym (stop (rw w refl))))
        | inr (inl w) ↦
            rw (nfind_loop, z, ap order e ∙ w, ap (left_idx t) e ∙ left_of y ne)
              (lower
                ∙ ap some (ap (λ n. first_or at_least n (elements a)) e ∙ sym (stop (rw w refl))))
        | inr (inr w) ↦
            let skip =
              first_or-skip at_least (λ y. is above (order y)) res (elements a) (y ∷ elements b)
                not_less (lo (λ v. above-ne-below (sym w ∙ v))) in
            let here : at_least y ≡ false = rw w refl in
            let skip' : first_or at_least res (elements a ++ (y ∷ elements b))
                ≡ first_or at_least res (elements b) =
              skip ∙ rw here refl in
            rw (nfind_loop, z, ap order e ∙ w, ap (right_idx t) e ∙ right_of y ne)
              (upper ∙ ap some (sym skip'))
      ]

  find_loop-first :
      (fuel : ℕ) (s : Shape) (x : ℕ)
      → Spans t s x
      → Splits order s
      → size s < fuel
      → find_loop order t fuel x ≡ some (first_or matches 0 (elements s))
  unfolding find_loop Spans Splits
  find_loop-first zero s x h o l = absurd (omega arith)
  find_loop-first (suc fuel) tip x h o l = rw h refl
  find_loop-first (suc fuel) (fork a y b) x (e, ne, ha, hb) (oa, ob, lo, hi) l =
      let z : (x == 0) ≡ false = ground arith in
      let lower = find_loop-first fuel a (t.left y) ha oa (omega arith) in
      let upper = find_loop-first fuel b (t.right y) hb ob (omega arith) in
      let skip : order y ≢ below
          → first_or matches 0 (elements a ++ (y ∷ elements b))
            ≡ first_or matches 0 (y ∷ elements b) =
        λ v.
          first_or-skip matches (λ y. is above (order y)) 0 (elements a) (y ∷ elements b) not_above
            (lo v) in
      elim (sign-cases (order y)) [
        | inl w ↦
            let here : matches y ≡ false = rw w refl in
            let gone : first_or matches 0 (y ∷ elements b) ≡ 0 = rw here (
              first_or-none matches (λ y. is below (order y)) (elements b) not_below
                (hi (λ v. below-ne-above (sym w ∙ v)))) in
            let same = first_or-end matches (elements a) (y ∷ elements b) gone in
            rw (find_loop, z, ap order e ∙ w, ap (left_idx t) e ∙ left_of y ne)
              (lower ∙ ap some (sym same))
        | inr (inl w) ↦
            let here : matches y ≡ true = rw w refl in
            let skip' : first_or matches 0 (elements a ++ (y ∷ elements b)) ≡ y =
              skip (λ v. equal-ne-below (sym w ∙ v)) ∙ rw here refl in
            rw (find_loop, z, ap order e ∙ w) (ap some (e ∙ sym skip'))
        | inr (inr w) ↦
            let here : matches y ≡ false = rw w refl in
            let skip' : first_or matches 0 (elements a ++ (y ∷ elements b))
                ≡ first_or matches 0 (elements b) =
              skip (λ v. above-ne-below (sym w ∙ v)) ∙ rw here refl in
            rw (find_loop, z, ap order e ∙ w, ap (right_idx t) e ∙ right_of y ne)
              (upper ∙ ap some (sym skip'))
      ]

-- With fuel above the number of elements, `find` in a tree that is split by the key gives the first
-- element in order that has the key, or NULL if there is none.
pub find-first :
    (order : ℕ → Sign) (t : Tree) (s : Shape) (fuel : ℕ)
    → Spans t s t.root
    → Splits order s
    → size s < fuel
    → find order fuel t ≡ some (first_or (matches order t) 0 (elements s))
unfolding find
find-first order t s fuel h o l = find_loop-first order t fuel s t.root h o l

-- With fuel above the number of elements, `nfind` in a tree that is split by the key gives the
-- first element in order that is not less than the key, or NULL if there is none.
pub nfind-first :
    (order : ℕ → Sign) (t : Tree) (s : Shape) (fuel : ℕ)
    → Spans t s t.root
    → Splits order s
    → size s < fuel
    → nfind order fuel t ≡ some (first_or (at_least order t) 0 (elements s))
unfolding nfind
nfind-first order t s fuel h o l = nfind_loop-first order t fuel s t.root 0 h o l
