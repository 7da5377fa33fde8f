-- ===== src/Hash/Arch/Stale.antt =====
-- The loop over the bits of a mask of hits that need not be those of the present array.
use relative_q.Base.{
  ℕ, zero, suc, ◌≡◌, ◌+◌, ◌-◌, ◌*◌, ◌/◌, ◌%◌, ◌^◌, ◌<◌, ◌∙◌, sym, ap, inl, inr, Bool, true,
  Bool-cases, ◌==◌, some, arith,
}
use Prim.Native.Nat.{bit_and}
use relative_q.Base.Bits.{bit_and-le}
use relative_q.Hash.Arch.{ctz, ctz_loop, find_u32x16_gen}
use relative_q.Hash.Arch.First.{bits, find_loop-bits}
use relative_q.Hash.Arch.Hits.{hits_loop, none-ne-some}

power_suc : (m : ℕ) → 2 ^ suc m ≡ 2 * 2 ^ m
power_suc m = grind arith

ctz_loop-lt : (n m w : ℕ) → 0 < w → w < 2 ^ m → ctz_loop n w < m
unfolding ctz_loop
ctz_loop-lt n zero w p l = absurd (omega arith)
ctz_loop-lt zero (suc m) w p l = omega arith
ctz_loop-lt (suc n) (suc m) w p l = elim (Bool-cases (w % 2 == 1)) [
  | inl e ↦ rw e (omega arith)
  | inr e ↦
      let q = power_suc m in
      let odd : w % 2 ≡ 0 = ground arith in
      let ih = ctz_loop-lt n m (w / 2) (omega arith) (omega (arith, q)) in rw e (omega (arith, ih))
]

ctz-lt : (w : ℕ) → 0 < w → w < 2 ^ 16 → ctz w < 16
unfolding ctz
ctz-lt w p l = ctz_loop-lt 32 16 w p l

some_inj : {a b : ℕ} → some a ≡ some b → a ≡ b
some_inj p = cc

-- A bit that the loop gives is one of a sixteen-bit mask and passes the test.
pub hits_loop-lt :
    (test : ℕ → Bool) (k hits s : ℕ)
    → hits < 2 ^ 16
    → hits_loop test k hits ≡ some s
    → (s < 16) × (test s ≡ true)
unfolding hits_loop
hits_loop-lt test zero hits s l e = cc
hits_loop-lt test (suc k) hits s l e = elim (Bool-cases (hits == 0)) [
  | inl z ↦ absurd (none-ne-some (rw z at e))
  | inr z ↦ elim (Bool-cases (test (ctz hits))) [
    | inl t ↦
        let q : ctz hits ≡ s = some_inj (rw (z, t) at e) in
        let u = ctz-lt hits (ground arith) l in (omega arith, ap test (sym q) ∙ t)
    | inr t ↦
        let le = bit_and-le hits (hits - 1) in
        hits_loop-lt test k (bit_and hits (hits - 1)) s (omega arith) (rw (z, t) at e)
  ]
]

bits-lt : (arr : ℕ → ℕ) (val n i : ℕ) → bits arr val n i < 2 ^ n
unfolding bits
bits-lt arr val zero i = omega arith
bits-lt arr val (suc n) i =
    let ih = bits-lt arr val n (i + 1) in let q = power_suc n in ground (arith, ih, q)

-- A scan gives a mask of sixteen bits.
pub find_gen-lt : (arr : ℕ → ℕ) (val : ℕ) → find_u32x16_gen arr val < 2 ^ 16
unfolding find_u32x16_gen
find_gen-lt arr val =
    let e = find_loop-bits arr val 16 0 0 in let l = bits-lt arr val 16 0 in omega (arith, e, l)
