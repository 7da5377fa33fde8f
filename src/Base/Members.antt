-- ===== src/Base/Members.antt =====
-- Lists of indices: membership as a test, distinctness, and the ends with a default.
use Prim.Native.Nat.{ℕ, suc}
use mathlib.Core.Path.{◌≡◌, refl, sym, ap, ◌∙◌}
use mathlib.Core.Logic.{◌≢◌, ◌⊎◌, inl, inr}
use mathlib.Core.Bool.{Bool, true, false, ◌||◌, false≢true}
use mathlib.Core.List.{List, [], ◌∷◌, ◌++◌}
use native.Mathlib.Omega.{arith}
use relative_q.Base.Tests.{◌==◌, if◌then◌else◌, ==_refl, Bool-cases}

abbrev pub contains : ℕ → List ℕ → Bool
contains a [] = false
contains a (x ∷ xs) = (a == x) || contains a xs

infix 40 ◌∈◌ ◌∉◌
abbrev pub ◌∈◌ : ℕ → List ℕ → Type 0
a ∈ xs = contains a xs ≡ true

abbrev pub ◌∉◌ : ℕ → List ℕ → Type 0
a ∉ xs = contains a xs ≡ false

abbrev pub Distinct : List ℕ → Type 0
Distinct [] = Unit
Distinct (x ∷ xs) = (x ∉ xs) × Distinct xs

abbrev pub Disjoint : List ℕ → List ℕ → Type 0
Disjoint xs ys = (a : ℕ) → a ∈ xs → a ∉ ys

abbrev pub length {ℓ} : {A : Type ℓ} → List A → ℕ
length [] = 0
length (x ∷ xs) = suc (length xs)

-- The first item, or `d` behind an empty list.
abbrev pub head_or : List ℕ → ℕ → ℕ
head_or [] d = d
head_or (x ∷ xs) d = x

-- The last item, or `d` before an empty list.
abbrev pub last_or : ℕ → List ℕ → ℕ
last_or d [] = d
last_or d (x ∷ xs) = last_or x xs

pub contains-append :
    (a : ℕ) (xs ys : List ℕ) → contains a (xs ++ ys) ≡ (contains a xs || contains a ys)
contains-append a [] ys = refl
contains-append a (x ∷ xs) ys = ground (arith, contains-append a xs ys)

pub head_or-append : (xs ys : List ℕ) (d : ℕ) → head_or (xs ++ ys) d ≡ head_or xs (head_or ys d)
head_or-append [] ys d = refl
head_or-append (x ∷ xs) ys d = refl

pub last_or-append : (d : ℕ) (xs ys : List ℕ) → last_or d (xs ++ ys) ≡ last_or (last_or d xs) ys
last_or-append d [] ys = refl
last_or-append d (x ∷ xs) ys = last_or-append x xs ys

-- The end of a list that is not empty is one of its items.
pub last_or-mem : (d : ℕ) (xs : List ℕ) → (last_or d xs ≡ d) ⊎ (last_or d xs ∈ xs)
last_or-mem d [] = inl refl
last_or-mem d (x ∷ xs) = ground (arith, last_or-mem x xs)

pub head_or-mem : (xs : List ℕ) (d : ℕ) → (head_or xs d ≡ d) ⊎ (head_or xs d ∈ xs)
head_or-mem [] d = inl refl
head_or-mem (x ∷ xs) d = inr (rw ==_refl)

pub mem_self : (x : ℕ) (xs : List ℕ) → x ∈ x ∷ xs
mem_self x xs = rw ==_refl

pub contains_tail : (a x : ℕ) (xs : List ℕ) → a ∉ x ∷ xs → a ∉ xs
contains_tail a x xs o = ground arith

pub ne-last_or : (x y : ℕ) (xs : List ℕ) → x ∉ y ∷ xs → (x == last_or y xs) ≡ false
ne-last_or x y [] out = ground arith
ne-last_or x y (z ∷ xs) out = ne-last_or x z xs (ground arith)

pub last_or-mem_of_mem : (d a : ℕ) (xs : List ℕ) → a ∈ xs → last_or d xs ∈ xs
last_or-mem_of_mem d a (x ∷ xs) i = ground (arith, last_or-mem x xs)
last_or-mem_of_mem d a [] i = cc

pub head_or-mem_of_mem : (d a : ℕ) (xs : List ℕ) → a ∈ xs → head_or xs d ∈ xs
head_or-mem_of_mem d a (x ∷ xs) i = mem_self x xs
head_or-mem_of_mem d a [] i = cc

-- Two items of which only one is in the list are different.
pub ne_of_mem : (a b : ℕ) (xs : List ℕ) → a ∈ xs → b ∉ xs → (a == b) ≡ false
ne_of_mem a b xs i o = ground arith

pub Distinct-append :
    (xs ys : List ℕ) → Distinct (xs ++ ys) → Distinct xs × Distinct ys × Disjoint xs ys
Distinct-append [] ys h = (tt, h, λ a i. ground arith)
Distinct-append (x ∷ xs) ys (out, h) =
    let (p, q, r) = Distinct-append xs ys h in
    (
      (ground (arith, contains-append x xs ys), p),
      q,
      λ a i. ground (arith, r a, contains-append x xs ys),
    )

pub append-Distinct :
    (xs ys : List ℕ) → Distinct xs → Distinct ys → Disjoint xs ys → Distinct (xs ++ ys)
append-Distinct [] ys p q r = q
append-Distinct (x ∷ xs) ys (out, p) q r = (
  ground (arith, contains-append x xs ys, r x),
  append-Distinct xs ys p q (λ a i. ground (arith, r a)),
)

pub ne_of_not_mem : (a b : ℕ) (xs : List ℕ) → a ∉ xs → b ∈ xs → (a == b) ≡ false
ne_of_not_mem a b xs o i = ground arith

pub Disjoint-symm : (xs ys : List ℕ) → Disjoint xs ys → Disjoint ys xs
Disjoint-symm xs ys h a i = elim (Bool-cases (contains a xs)) [
  | inl e ↦ absurd (false≢true (sym (h a e) ∙ i))
  | inr e ↦ e
]

pub head_or-not_mem : (xs ys : List ℕ) (d : ℕ) → Disjoint xs ys → d ∉ xs → head_or ys d ∉ xs
head_or-not_mem xs [] d h o = o
head_or-not_mem xs (y ∷ ys) d h o = Disjoint-symm xs (y ∷ ys) h y (mem_self y ys)

pub last_or-not_mem : (xs ys : List ℕ) (d : ℕ) → Disjoint xs ys → d ∉ ys → last_or d xs ∉ ys
last_or-not_mem [] ys d h o = o
last_or-not_mem (x ∷ xs) ys d h o = h _ (last_or-mem_of_mem d x (x ∷ xs) (mem_self x xs))

pub ne_of_mem_nil : (a : ℕ) (xs : List ℕ) → a ∈ xs → 0 ∉ xs → a ≢ 0
ne_of_mem_nil a xs i o = ground arith

pub Distinct-insert :
    (e : ℕ) (xs ys : List ℕ) → Distinct (xs ++ ys) → e ∉ xs → e ∉ ys → Distinct (xs ++ (e ∷ ys))
Distinct-insert e [] ys d ox oy = (oy, d)
Distinct-insert e (x ∷ xs) ys (o, d) ox oy = (
  ground (arith, contains-append x xs ys, contains-append x xs (e ∷ ys)),
  Distinct-insert e xs ys d (ground arith) oy,
)

pub Distinct-remove : (e : ℕ) (xs ys : List ℕ) → Distinct (xs ++ (e ∷ ys)) → Distinct (xs ++ ys)
Distinct-remove e [] ys (o, d) = d
Distinct-remove e (x ∷ xs) ys (o, d) = (
  ground (arith, contains-append x xs ys, contains-append x xs (e ∷ ys)),
  Distinct-remove e xs ys d,
)

-- An item outside a list is neither of its ends.
pub ne-head_or : (e : ℕ) (xs : List ℕ) (d : ℕ) → e ≢ d → e ∉ xs → (head_or xs d == e) ≡ false
ne-head_or e [] d ne o = ground arith
ne-head_or e (x ∷ xs) d ne o = ground arith

pub ne-last_or_out : (e d : ℕ) (xs : List ℕ) → e ≢ d → e ∉ xs → (last_or d xs == e) ≡ false
ne-last_or_out e d [] ne o = ground arith
ne-last_or_out e d (x ∷ xs) ne o = ne-last_or_out e x xs (ground arith) (ground arith)

-- A test for the null index tells whether a list of elements is empty.
pub if-head_or :
    (e d : ℕ) (xs : List ℕ)
    → 0 ∉ xs
    → (if head_or xs 0 == 0 then e else last_or d xs) ≡ last_or e xs
if-head_or e d [] o = refl
if-head_or e d (x ∷ xs) o = ground arith

pub last_or-ne_zero : (x : ℕ) (xs : List ℕ) → 0 ∉ x ∷ xs → (last_or x xs == 0) ≡ false
last_or-ne_zero x [] o = ground arith
last_or-ne_zero x (y ∷ xs) o = last_or-ne_zero y xs (contains_tail 0 x (y ∷ xs) o)

pub if-last_or :
    (e d : ℕ) (xs : List ℕ)
    → 0 ∉ xs
    → (if last_or 0 xs == 0 then e else head_or xs d) ≡ head_or xs e
if-last_or e d [] o = refl
if-last_or e d (x ∷ xs) o = rw (last_or-ne_zero x xs o)

pub not-mem-append : (a : ℕ) (xs ys : List ℕ) → a ∉ xs ++ ys → (a ∉ xs) × (a ∉ ys)
not-mem-append a xs ys o = ground (arith, contains-append a xs ys)

-- A list that is not empty is its initial part and its last item.
abbrev pub init_of : ℕ → List ℕ → List ℕ
init_of x [] = []
init_of x (y ∷ ys) = x ∷ init_of y ys

pub init_of-append : (x : ℕ) (xs zs : List ℕ) → init_of x xs ++ (last_or x xs ∷ zs) ≡ x ∷ (xs ++ zs)
init_of-append x [] zs = refl
init_of-append x (y ∷ ys) zs = ap (λ l. x ∷ l) (init_of-append y ys zs)

pub Distinct-rotate : (xs ys : List ℕ) → Distinct (xs ++ ys) → Distinct (ys ++ xs)
Distinct-rotate xs ys d =
    let (p, q, apart) = Distinct-append xs ys d in
    append-Distinct ys xs q p (Disjoint-symm xs ys apart)

pub not-mem-rotate : (a : ℕ) (xs ys : List ℕ) → a ∉ xs ++ ys → a ∉ ys ++ xs
not-mem-rotate a xs ys o = ground (arith, contains-append a xs ys, contains-append a ys xs)

pub mem_middle : (a : ℕ) (xs ys : List ℕ) → a ∈ xs ++ (a ∷ ys)
mem_middle a xs ys = ground (arith, contains-append a xs (a ∷ ys), mem_self a ys)

pub ne_of_not_mem_symm : (a b : ℕ) (xs : List ℕ) → a ∉ xs → b ∈ xs → (b == a) ≡ false
ne_of_not_mem_symm a b xs o i = ground arith

pub if-first :
    (e at : ℕ) (xs : List ℕ)
    → at ∉ xs
    → (if head_or xs at == at then e else head_or xs at) ≡ head_or xs e
if-first e at [] o = rw ==_refl
if-first e at (x ∷ xs) o = ground arith
