-- ===== src/FlowCache/Bounds.antt =====
-- samples/fcache/src/fc_cache_generate.h: the range of the adaptive timeout.
use relative_q.Base.{
  ℕ, ◌≡◌, ◌≢◌, ◌≤◌, ◌<◌, ◌+◌, ◌-◌, ◌*◌, ◌/◌, ◌^◌, ◌%◌, inl, inr, false, Bool-cases, ◌==◌, arith,
  ltb, not, ◌||◌,
}
use native.Mathlib.Nat.{div-le_of_le-mul}
use relative_q.FlowCache.{Cache}
use relative_q.FlowCache.Timeout.{eff_timeout, scaled_timeout, update_eff_timeout}

mul_mono : (a b c : ℕ) → a ≤ b → a * c ≤ b * c
mul_mono a b c l = grind arith

-- A part of a span that is no larger than the whole one.
part-le : (used span n : ℕ) → used < n → used * span / n ≤ span
part-le used span n l = div-le_of_le-mul n (mul_mono used n span (omega arith))

module _ {Key : Type 0} (fc : Cache Key) (t : fc.timeout_tsc ≢ 0) (u : fc.timeout_tsc < 2 ^ 64)
    (m : 0 < fc.timeout_min_tsc) (le : fc.timeout_min_tsc ≤ fc.timeout_tsc)
    (fits : (fc.store.head.nb - fc.timeout_lo_entries) * (fc.timeout_tsc - fc.timeout_min_tsc)
      < 2 ^ 64) where
  abbrev InRange : ℕ → Type 0
  InRange x = (fc.timeout_min_tsc ≤ x) × (x ≤ fc.timeout_tsc)

  scaled-InRange : InRange (scaled_timeout fc)
  unfolding scaled_timeout
  scaled-InRange =
      let live = fc.store.head.nb in
      let (lo, hi) : ℕ × ℕ = (fc.timeout_lo_entries, fc.timeout_hi_entries) in
      let span = fc.timeout_tsc - fc.timeout_min_tsc in
      elim (Bool-cases (not (ltb lo live))) [
        | inl e ↦ rw (scaled_timeout, e) (le, omega arith)
        | inr e ↦ elim (Bool-cases (not (ltb live hi))) [
          | inl e' ↦ rw (scaled_timeout, e, e') (omega arith, le)
          | inr e' ↦
              let p = part-le (live - lo) span (hi - lo) (ground arith) in
              let es : (fc.timeout_tsc + (2 ^ 64 - fc.timeout_min_tsc)) % 2 ^ 64 ≡ span =
                omega arith in
              let ep : ((live - lo) * span) % 2 ^ 64 ≡ (live - lo) * span = omega (arith, fits) in
              rw (scaled_timeout, e, e', es, ep) (omega (arith, p), omega (arith, p))
        ]
      ]

  -- `update_eff_timeout` sets the timeout in force to one from the least timeout to the full one.
  -- The table has slots, the full timeout is a 64-bit word that is not 0 and no smaller than the
  -- least one, which is positive, and the product that scales it does not overflow.
  pub eff_timeout-InRange :
      fc.total_slots ≢ 0
      → (fc.timeout_min_tsc ≤ (update_eff_timeout fc).eff_timeout_tsc)
        × ((update_eff_timeout fc).eff_timeout_tsc ≤ fc.timeout_tsc)
  unfolding update_eff_timeout eff_timeout
  eff_timeout-InRange o =
      let (a, b) = scaled-InRange in
      let e : ((fc.total_slots == 0) || (fc.timeout_tsc == 0)) ≡ false = ground arith in
      let z : (scaled_timeout fc == 0) ≡ false = ground arith in rw (eff_timeout, e, z) (a, b)
