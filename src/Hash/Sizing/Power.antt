-- ===== src/Hash/Sizing/Power.antt =====
-- The shifts of `nb_bk_hint`, and the power of 2 that they make.
use Prim.Native.Nat.{bit_or}
use relative_q.Base.{
  ◌==◌, ℕ, zero, suc, ◌+◌, ◌*◌, ◌-◌, ◌/◌, ◌%◌, ◌^◌, ◌≡◌, ◌≤◌, ◌<◌, ◌⊎◌, inl, inr, refl, sym, ap,
  ◌∙◌, arith, ltb, if◌then◌else◌, Bool-cases,
}
use relative_q.Base.Bits.{power_add_one}
use relative_q.Base.Bits.Or.{bit_or_half, bit_or_even}
use relative_q.Hash.Sizing.{or_shift, nb_bk_hint}

-- Division by `d` may be done before or after `g`.
abbrev Commutes : (ℕ → ℕ) → ℕ → Type 0
Commutes g d = (n : ℕ) → g n / d ≡ g (n / d)

-- The last digit of `g n` is 0 only where `w` divides `n`.
abbrev Detects : (ℕ → ℕ) → ℕ → Type 0
Detects g w = (n : ℕ) → g n % 2 ≡ 0 → n % w ≡ 0

-- A shift by as many digits as are spread already spreads twice as many.
module _ (g : ℕ → ℕ) (w : ℕ) where
  shift-Commutes :
      Commutes g 2 → ((n : ℕ) → n / w / 2 ≡ n / 2 / w) → Commutes (λ n. or_shift w (g n)) 2
  unfolding or_shift
  shift-Commutes c swap n =
      bit_or_half (g n) (g n / w) ∙ (λ i. bit_or (c n i) ((swap (g n) ∙ ap (λ x. x / w) (c n)) i))

  shift-Detects :
      Commutes g w
      → Detects g w
      → (n : ℕ) → or_shift w (g n) % 2 ≡ 0
      → (n % w ≡ 0) × (n / w % w ≡ 0)
  unfolding or_shift
  shift-Detects c z n e =
      let (p, q) = bit_or_even (g n) (g n / w) e in
      (z n p, z (n / w) (ap (λ x. x % 2) (sym (c n)) ∙ q))

-- The five steps.
abbrev g1 : ℕ → ℕ
g1 n = or_shift 2 n

abbrev g2 : ℕ → ℕ
g2 n = or_shift 4 (g1 n)

abbrev g3 : ℕ → ℕ
g3 n = or_shift 16 (g2 n)

abbrev g4 : ℕ → ℕ
g4 n = or_shift 256 (g3 n)

abbrev g5 : ℕ → ℕ
g5 n = or_shift 65536 (g4 n)

g1-Commutes : Commutes g1 2
g1-Commutes = shift-Commutes (λ n. n) 2 (λ n. refl) (λ n. omega arith)

g2-Commutes : Commutes g2 2
g2-Commutes = shift-Commutes g1 4 g1-Commutes (λ n. omega arith)

g3-Commutes : Commutes g3 2
g3-Commutes = shift-Commutes g2 16 g2-Commutes (λ n. omega arith)

g4-Commutes : Commutes g4 2
g4-Commutes = shift-Commutes g3 256 g3-Commutes (λ n. omega arith)

g5-Commutes : Commutes g5 2
g5-Commutes = shift-Commutes g4 65536 g4-Commutes (λ n. omega arith)

twice-Commutes : (g : ℕ → ℕ) (d e : ℕ) → ((n : ℕ) → n / d / d ≡ n / e) → Commutes g d → Commutes g e
twice-Commutes g d e div c n = sym (div (g n)) ∙ ap (λ x. x / d) (c n) ∙ c (n / d) ∙ ap g (div n)

by4 : (g : ℕ → ℕ) → Commutes g 2 → Commutes g 4
by4 g c = twice-Commutes g 2 4 (λ n. omega arith) c

by16 : (g : ℕ → ℕ) → Commutes g 2 → Commutes g 16
by16 g c = twice-Commutes g 4 16 (λ n. omega arith) (by4 g c)

by256 : (g : ℕ → ℕ) → Commutes g 2 → Commutes g 256
by256 g c = twice-Commutes g 16 256 (λ n. omega arith) (by16 g c)

by65536 : (g : ℕ → ℕ) → Commutes g 2 → Commutes g 65536
by65536 g c = twice-Commutes g 256 65536 (λ n. omega arith) (by256 g c)

g1-Detects : Detects g1 4
g1-Detects n e = let (p, q) = shift-Detects (λ n. n) 2 (λ n. refl) (λ n e. e) n e in omega arith

g2-Detects : Detects g2 16
g2-Detects n e = let (p, q) = shift-Detects g1 4 (by4 g1 g1-Commutes) g1-Detects n e in omega arith

g3-Detects : Detects g3 256
g3-Detects n e =
    let (p, q) = shift-Detects g2 16 (by16 g2 g2-Commutes) g2-Detects n e in omega arith

g4-Detects : Detects g4 65536
g4-Detects n e =
    let (p, q) = shift-Detects g3 256 (by256 g3 g3-Commutes) g3-Detects n e in omega arith

g5-Detects : (n : ℕ) → n < 4294967296 → g5 n % 2 ≡ 0 → n ≡ 0
g5-Detects n l e =
    let (p, q) = shift-Detects g4 65536 (by65536 g4 g4-Commutes) g4-Detects n e in omega arith

-- The steps fill all digits below the highest.
fill :
    (m n : ℕ)
    → n ≤ m
    → n < 4294967296
    → ((k : ℕ) × (g5 n + 1 ≡ 2 ^ k)) × (n ≤ g5 n) × (0 < n → g5 n + 1 ≤ 2 * n)
unfolding or_shift
fill zero zero h l = ((0, refl), omega arith, λ z. omega arith)
fill zero (suc n) h l = absurd (omega arith)
fill (suc m) zero h l = ((0, refl), omega arith, λ z. omega arith)
fill (suc m) (suc n) h l =
    let ((k, e), low, high) = fill m (suc n / 2) (omega arith) (omega arith) in
    let c = g5-Commutes (suc n) in
    let odd : g5 (suc n) % 2 ≡ 1 = elim (Bool-cases (g5 (suc n) % 2 == 0)) [
      | inl z ↦ absurd (let w = g5-Detects (suc n) l (ground arith) in omega arith)
      | inr z ↦ ground arith
    ] in
    let p = power_add_one k in
    let twice : g5 (suc n) + 1 ≡ 2 ^ (k + 1) = omega arith in
    let tight : g5 (suc n) + 1 ≤ 2 * suc n = elim (Bool-cases (suc n / 2 == 0)) [
      | inl z ↦
          let z' : suc n / 2 ≡ 0 = ground arith in
          let base : g5 (suc n / 2) ≡ 0 = ap g5 z' in omega arith
      | inr z ↦ let hi = high (ground arith) in omega arith
    ] in
    ((k + 1, twice), omega arith, λ z. tight)

-- The number that is rounded up to a power of 2.
abbrev wanted : ℕ → ℕ
wanted x = if ltb ((x + 7) % 2 ^ 32 / 8) 2 then 2 else (x + 7) % 2 ^ 32 / 8

wanted-cases :
    (x : ℕ)
    → x + 7 < 2 ^ 32
    → ((wanted x ≡ 2) × (x ≤ 16)) ⊎ ((wanted x ≡ (x + 7) / 8) × (16 ≤ x + 7))
wanted-cases x h =
    let w : (x + 7) % 2 ^ 32 ≡ x + 7 = omega arith in
    elim (Bool-cases (ltb ((x + 7) / 8) 2)) [
      | inl z ↦ inl (rw (w, z) refl, (let l : (x + 7) / 8 < 2 = ground arith in omega arith))
      | inr z ↦ inr (rw (w, z) refl, (let l : 2 ≤ (x + 7) / 8 = ground arith in omega arith))
    ]

-- The number of buckets for a number of entries that does not overflow when it is rounded up: a
-- power of 2, at least 2, with at least one bucket for eight entries, and the least such.
pub nb_bk_hint-least :
    (max_entries : ℕ)
    → max_entries + 7 < 2 ^ 32
    → ((k : ℕ) × (nb_bk_hint max_entries ≡ 2 ^ k))
      × (2 ≤ nb_bk_hint max_entries)
      × (max_entries ≤ 8 * nb_bk_hint max_entries)
      × ((nb_bk_hint max_entries ≡ 2) ⊎ (4 * nb_bk_hint max_entries < max_entries))
unfolding nb_bk_hint
nb_bk_hint-least x h =
    let n = wanted x in
    let bounds : (2 ≤ n) × (n ≤ 536870911) × (x ≤ 8 * n) × ((n ≡ 2) ⊎ (8 * n ≤ x + 7)) =
      elim (wanted-cases x h) [
        | inl (e, l) ↦ (omega arith, omega arith, omega arith, inl e)
        | inr (e, l) ↦ (omega arith, omega arith, omega arith, inr (omega arith))
      ] in
    let (b0, b1, b2, b3) = bounds in
    let ((k, e), low, high) = fill (n - 1) (n - 1) (omega arith) (omega arith) in
    let hi = high (omega arith) in
    let whole : (g5 (n - 1) + 1) % 2 ^ 32 ≡ g5 (n - 1) + 1 = omega arith in
    (
      (k, whole ∙ e),
      omega arith,
      omega arith,
      elim b3 [ inl f ↦ inl (omega arith) | inr f ↦ inr (omega arith) ],
    )
