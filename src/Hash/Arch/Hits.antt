-- ===== src/Hash/Arch/Hits.antt =====
-- The loop over the bits of a mask of hits, `while (hits) { bit = ctz(hits); hits &= hits - 1; ...`.
use relative_q.Base.{
  ==_iff, ℕ, zero, suc, ◌+◌, ◌*◌, ◌^◌, ◌-◌, ◌%◌, ◌/◌, ◌<◌, ◌≤◌, ◌==◌, if◌then◌else◌, Option, none,
  some, ◌≡◌, ◌≢◌, refl, ◌∙◌, Bool, true, false, ◌&&◌, Bool-cases, inl, inr, arith, ap, sym,
}
use relative_q.Base.Bits.{clear_lowest, power_add_one, power-pos}
use Prim.Native.Nat.{bit_and}
use relative_q.Hash.Arch.{IsFind, ctz, ctz_loop, find_u32x16_gen}
use relative_q.Hash.Arch.First.{bits, find_loop-bits}

-- The first bit of the mask, in the order of the loop, that passes the test. A word has 32 bits.
unfoldable pub hits_loop : (ℕ → Bool) → ℕ → ℕ → Option ℕ
hits_loop test zero hits = none
hits_loop test (suc n) hits =
    let bit = ctz hits in
    let rest = hits_loop test n (bit_and hits (hits - 1)) in
    if hits == 0 then none else if test bit then some bit else rest

-- The first of the slots `i` to `i + n - 1` that holds the value and passes the test.
pub search : (ℕ → ℕ) → ℕ → (ℕ → Bool) → ℕ → ℕ → Option ℕ
search arr val test zero i = none
search arr val test (suc n) i =
    let rest = search arr val test n (i + 1) in if (arr i == val) && test i then some i else rest

ctz_loop-shift : (i k b : ℕ) → i < k → ctz_loop k (2 ^ i * (1 + 2 * b)) ≡ i
unfolding ctz_loop
ctz_loop-shift i zero b h = absurd (omega arith)
ctz_loop-shift zero (suc k) b h =
    let e : ((1 * (1 + 2 * b)) % 2 == 1) ≡ true = ground arith in rw e refl
ctz_loop-shift (suc i) (suc k) b h =
    let v = 2 ^ i * (1 + 2 * b) in
    let p : 2 ^ suc i * (1 + 2 * b) ≡ 2 * v = grind arith in
    let q : (2 * v % 2 == 1) ≡ false = ground arith in
    let r : 2 * v / 2 ≡ v = omega arith in
    rw (p, q, r) (ap suc (ctz_loop-shift i k b (omega arith)))

ctz-shift : (i b : ℕ) → i < 32 → ctz (2 ^ i * (1 + 2 * b)) ≡ i
unfolding ctz
ctz-shift i b h = ctz_loop-shift i 32 b h

module _ (arr : ℕ → ℕ) (val : ℕ) (test : ℕ → Bool) where
  hits_loop_zero : (k : ℕ) → hits_loop test k 0 ≡ none
  unfolding hits_loop
  hits_loop_zero zero = refl
  hits_loop_zero (suc k) = refl

  hits_loop_step :
      (k i hits rest : ℕ)
      → (hits == 0) ≡ false
      → ctz hits ≡ i
      → bit_and hits (hits - 1) ≡ rest
      → hits_loop test (suc k) hits ≡ (if test i then some i else hits_loop test k rest)
  unfolding hits_loop
  hits_loop_step k i hits rest e f g = rw (e, f, g) refl

  hits_loop-search :
      (n k i : ℕ)
      → n ≤ k
      → i + n ≤ 32
      → hits_loop test k (2 ^ i * bits arr val n i) ≡ search arr val test n i
  unfolding bits search
  hits_loop-search zero k i h u = let e : 2 ^ i * 0 ≡ 0 = omega arith in rw e (hits_loop_zero k)
  hits_loop-search (suc n) zero i h u = absurd (omega arith)
  hits_loop-search (suc n) (suc k) i h u = elim (Bool-cases (arr i == val)) [
    | inl e ↦
        let r = bits arr val n (i + 1) in
        let w = 2 ^ i * (1 + 2 * r) in
        let p = power-pos i in
        let pos : 0 < w = grind arith in
        let nz : (w == 0) ≡ false = ground arith in
        let step =
          hits_loop_step k i w (2 ^ (i + 1) * r) nz (ctz-shift i r (omega arith))
            (clear_lowest i r) in
        rw e (step ∙ rw (hits_loop-search n k (i + 1) (omega arith) (omega arith)) refl)
    | inr e ↦
        let r = bits arr val n (i + 1) in
        let q = ap (λ (t : ℕ). t * r) (power_add_one i) in
        let p : 2 ^ i * (0 + 2 * r) ≡ 2 ^ (i + 1) * r = omega (arith, q) in
        rw (e, p) (hits_loop-search n (suc k) (i + 1) (omega arith) (omega arith))
  ]

-- The loop over the hits of a scan finds the first of the sixteen slots that holds the value and
-- passes the test, or none.
pub find-search :
    {find : (ℕ → ℕ) → ℕ → ℕ} (law : IsFind find) (arr : ℕ → ℕ) (val : ℕ) (test : ℕ → Bool)
    → hits_loop test 32 (find arr val) ≡ search arr val test 16 0
unfolding find_u32x16_gen
find-search law arr val test =
    let e : find_u32x16_gen arr val ≡ 2 ^ 0 * bits arr val 16 0 =
      find_loop-bits arr val 16 0 0 ∙ omega arith in
    rw (law arr val, e) (hits_loop-search arr val test 16 32 0 (omega arith) (omega arith))

pub none-ne-some : {x : ℕ} → none ≢ some x
none-ne-some p = cc

and_false : (a b : Bool) → a ≡ true → (a && b) ≡ false → b ≡ false
and_false true b e h = h
and_false false b e h = cc

pub search-some :
    (arr : ℕ → ℕ) (val : ℕ) (test : ℕ → Bool) (n i s : ℕ)
    → search arr val test n i ≡ some s
    → (i ≤ s) × (s < i + n) × (arr s ≡ val) × (test s ≡ true)
unfolding search
search-some arr val test zero i s h = cc
search-some arr val test (suc n) i s h = elim (Bool-cases ((arr i == val) && test i)) [
  | inl e ↦ ground arith
  | inr e ↦ ground (arith, search-some arr val test n (i + 1) s)
]

pub search-none :
    (arr : ℕ → ℕ) (val : ℕ) (test : ℕ → Bool) (n i s : ℕ)
    → search arr val test n i ≡ none
    → i ≤ s
    → s < i + n
    → arr s ≡ val
    → test s ≡ false
unfolding search
search-none arr val test zero i s h l u e = absurd (omega arith)
search-none arr val test (suc n) i s h l u e =
    let ih = search-none arr val test n (i + 1) s in
    elim (Bool-cases ((arr i == val) && test i)) [
      | inl w ↦ absurd (none-ne-some (sym (rw w at h)))
      | inr w ↦ elim (Bool-cases (i == s)) [
        | inl q ↦ rw ((==_iff i s).0 q) at (and_false (arr i == val) (test i) (ground arith) w)
        | inr q ↦ ih (rw w at h) (ground arith) (omega arith) e
      ]
    ]
