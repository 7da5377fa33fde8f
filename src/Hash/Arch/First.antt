-- ===== src/Hash/Arch/First.antt =====
-- `find_u32x16` and `ctz`, against a plain search of the slots.
use relative_q.Base.{
  ℕ, ◌≡◌, Option, ◌≤◌, suc, ◌+◌, none, if◌then◌else◌, ◌^◌, ◌==◌, ◌*◌, some, arith, ap, Bool-cases,
  inl, inr, ◌<◌, false, zero, ◌%◌, ◌≢◌, sym, true, ◌∙◌, ◌/◌, refl,
}
use relative_q.Hash.Arch.{IsFind, find_loop, find_u32x16_gen, ctz_loop, ctz, first_hit}
use native.Mathlib.Numerals.{towards_suc}

-- The first of the slots `i` to `i + n - 1` that holds the value.
pub first : (ℕ → ℕ) → ℕ → ℕ → ℕ → Option ℕ
first arr val zero i = none
first arr val (suc n) i =
    let rest = first arr val n (i + 1) in if arr i == val then some i else rest

-- The mask of those slots, from bit 0.
unfoldable pub bits : (ℕ → ℕ) → ℕ → ℕ → ℕ → ℕ
bits arr val zero i = 0
bits arr val (suc n) i = (if arr i == val then 1 else 0) + 2 * bits arr val n (i + 1)

module _ (arr : ℕ → ℕ) (val : ℕ) where
  pub find_loop-bits : (n i mask : ℕ) → find_loop arr val n i mask ≡ mask + 2 ^ i * bits arr val n i
  unfolding find_loop bits
  find_loop-bits zero i mask = omega arith
  find_loop-bits (suc n) i mask =
      let p : 2 ^ (i + 1) ≡ 2 * 2 ^ i = simp towards_suc (omega arith) in
      let q = ap (λ (t : ℕ). t * bits arr val n (i + 1)) p in
      elim (Bool-cases (arr i == val)) [
        | inl e ↦ rw e (omega (arith, find_loop-bits n (i + 1) (mask + 2 ^ i), q))
        | inr e ↦ rw e (omega (arith, find_loop-bits n (i + 1) mask, q))
      ]

  -- With at least `n` rounds `ctz` finds the lowest bit.
  ctz_loop-bits :
      (n k i : ℕ)
      → n ≤ k
      → (if bits arr val n i == 0 then none else some (i + ctz_loop k (bits arr val n i)))
        ≡ first arr val n i
  unfolding ctz_loop bits first
  ctz_loop-bits zero k i h = refl
  ctz_loop-bits (suc n) zero i h = absurd (omega arith)
  ctz_loop-bits (suc n) (suc k) i h =
      let rest = bits arr val n (i + 1) in
      let ih = ctz_loop-bits n k (i + 1) (omega arith) in
      elim (Bool-cases (arr i == val)) [
        | inl e ↦
            let a : (1 + 2 * rest == 0) ≡ false = ground arith in
            let b : ((1 + 2 * rest) % 2 == 1) ≡ true = ground arith in
            rw (e, a, b) (ap some (omega arith))
        | inr e ↦
            let b : ((0 + 2 * rest) % 2 == 1) ≡ false = ground arith in
            let c : (0 + 2 * rest) / 2 ≡ rest = omega arith in
            let d : (0 + 2 * rest == 0) ≡ (rest == 0) = ground arith in
            rw (e, b, c, d) (ground (arith, ih))
      ]

-- What the first hit says of the array: it is at the value, or no slot is.
pub first-some :
    (arr : ℕ → ℕ) (val n i s : ℕ)
    → first arr val n i ≡ some s
    → (i ≤ s) × (s < i + n) × (arr s ≡ val)
unfolding first
first-some arr val zero i s h = cc
first-some arr val (suc n) i s h = elim (Bool-cases (arr i == val)) [
  | inl e ↦ ground arith
  | inr e ↦ ground (arith, first-some arr val n (i + 1) s)
]

pub first-none :
    (arr : ℕ → ℕ) (val n i s : ℕ) → first arr val n i ≡ none → i ≤ s → s < i + n → arr s ≢ val
unfolding first
first-none arr val zero i s h l u = absurd (omega arith)
first-none arr val (suc n) i s h l u = ground (arith, first-none arr val n (i + 1) s)

module _ {find : (ℕ → ℕ) → ℕ → ℕ} (law : IsFind find) (arr : ℕ → ℕ) (val : ℕ) where
  -- The handler's mask and `ctz` give the first slot of the sixteen that holds the value.
  pub first_hit-first : first_hit find arr val ≡ first arr val 16 0
  unfolding first_hit find_u32x16_gen ctz
  first_hit-first =
      let e : find arr val ≡ bits arr val 16 0 =
        law arr val ∙ find_loop-bits arr val 16 0 0 ∙ omega arith in
      let z : 0 + ctz_loop 32 (bits arr val 16 0) ≡ ctz_loop 32 (bits arr val 16 0) = omega arith in
      rw e (rw z at (ctz_loop-bits arr val 16 32 0 (omega arith)))

  pub first_hit-some : (s : ℕ) → first_hit find arr val ≡ some s → (s < 16) × (arr s ≡ val)
  first_hit-some s h = let (l, u, e) = first-some arr val 16 0 s (sym first_hit-first ∙ h) in (u, e)

  pub first_hit-none : (s : ℕ) → first_hit find arr val ≡ none → s < 16 → arr s ≢ val
  first_hit-none s h u = first-none arr val 16 0 s (sym first_hit-first ∙ h) (omega arith) u
