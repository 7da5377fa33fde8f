-- ===== src/FlowCache/Runs.antt =====
-- samples/fcache/src/fc_cache_generate.h: the loops of the bulk operations, which end after every
-- stage has seen every key in order, each behind the stage before it.
use relative_q.Base.{
  ℕ, zero, suc, ◌≡◌, ◌+◌, ◌-◌, ◌*◌, ◌%◌, ◌^◌, ◌≤◌, ◌<◌, ◌∙◌, subst, inl, inr, false, refl, arith,
  Bool-cases, if◌then◌else◌, not, ◌&&◌, ltb, Option, some, true, sym,
}
use relative_q.FlowCache.Pipeline.{stage_loop, stage, rounds, step_keys, ahead_keys}

-- How many keys a stage has seen when round `i` starts.
abbrev upto : ℕ → ℕ → ℕ → ℕ
upto nb i offset = if ltb (i - offset) nb then i - offset else nb

module _ {S : Type 0} where
  stage_loop-Inv :
      (body : ℕ → S → S) (Q : ℕ → S → Type 0) (n i : ℕ) (s : S)
      → ((m : ℕ) (s : S) → m < i + n → Q m s → Q (m + 1) (body m s))
      → Q i s
      → Q (i + n) (stage_loop body n i s)
  unfolding stage_loop
  stage_loop-Inv body Q zero i s step q = subst (λ m. Q m s) (omega arith) q
  stage_loop-Inv body Q (suc n) i s step q =
      subst (λ m. Q m (stage_loop body n (i + 1) (body i s))) (omega arith)
        (stage_loop-Inv body Q n (i + 1) (body i s) (λ m s l. step m s (omega arith))
          (step i s (omega arith) q))

  module _ (nb : ℕ) (w : nb + 104 < 2 ^ 32) where
    stage-Inv :
        (body : ℕ → S → S) (Q : ℕ → S → Type 0) (j k : ℕ) (s : S)
        → 8 * k < nb + 104
        → ((m : ℕ) (s : S) → m < nb → m + 8 * j < 8 * k + 8 → Q m s → Q (m + 1) (body m s))
        → Q (upto nb (8 * k) (8 * j)) s
        → Q (upto nb (8 * k + 8) (8 * j)) (stage body (8 * j) nb (8 * k) s)
    unfolding stage
    stage-Inv body Q j k s l step q =
        let base = 8 * k - 8 * j in
        let n = if ltb nb ((base + step_keys) % 2 ^ 32) then nb - base else step_keys in
        elim (Bool-cases (not (ltb (8 * k) (8 * j)) && ltb base nb)) [
          | inl e ↦
              let start : upto nb (8 * k) (8 * j) ≡ base = ground arith in
              let end : base + n ≡ upto nb (8 * k + 8) (8 * j) = ground arith in
              rw (stage, e)
                (subst (λ m. Q m (stage_loop body n base s)) end
                  (stage_loop-Inv body Q n base s (λ m s l. step m s (ground arith) (ground arith))
                    (subst (λ m. Q m s) start q)))
          | inr e ↦
              let same : upto nb (8 * k) (8 * j) ≡ upto nb (8 * k + 8) (8 * j) = ground arith in
              rw (stage, e) (subst (λ m. Q m s) same q)
        ]

  module _ (round : ℕ → S → S) (total : ℕ) (w : total + 8 < 2 ^ 32) (P : ℕ → S → Type 0)
      (step : (k : ℕ) (s : S) → 8 * k < total → P k s → P (suc k) (round (8 * k) s)) where
    -- The loop ends, in a round behind the last.
    abbrev Ends : Option S → Type 0
    Ends r = (s : S) × (r ≡ some s) × (k : ℕ) × (total ≤ 8 * k) × P k s

    rounds-true :
        (n i : ℕ) (s : S)
        → ltb i total ≡ true
        → rounds round total (suc n) i s
          ≡ rounds round total n ((i + step_keys) % 2 ^ 32) (round i s)
    unfolding rounds
    rounds-true n i s e = rw (rounds, e) refl

    rounds-Ends :
        (n k : ℕ) (s : S) → total ≤ 8 * k + n → P k s → Ends (rounds round total (suc n) (8 * k) s)
    unfolding rounds
    rounds-Ends zero k s l p =
        let e : ltb (8 * k) total ≡ false = ground arith in
        rw (rounds, e) (s, refl, k, omega (arith, l), p)
    rounds-Ends (suc n) k s l p = elim (Bool-cases (ltb (8 * k) total)) [
      | inr e ↦ rw (rounds, e) (s, refl, k, ground arith, p)
      | inl e ↦
          let u : 8 * k < total = ground arith in
          let next : (8 * k + step_keys) % 2 ^ 32 ≡ 8 * suc k = omega arith in
          subst Ends (sym (rounds-true (suc n) (8 * k) s e)) (
            subst (λ i. Ends (rounds round total (suc n) i (round (8 * k) s))) (sym next)
              (rounds-Ends n (suc k) (round (8 * k) s) (omega arith) (step k s u p)))
    ]

  -- The last two stages of a pipeline are 32 and 96 keys behind the first. `Inv a b c` holds when
  -- they have seen `a`, `b` and `c` keys.
  module _ (nb : ℕ) (w : nb + 104 < 2 ^ 32) (Inv : ℕ → ℕ → ℕ → S → Type 0) (f g h : ℕ → S → S)
      (first : (a b c : ℕ) (s : S) → a < nb → Inv a b c s → Inv (a + 1) b c (f a s))
      (second : (a b c : ℕ) (s : S) → b < a → b < nb → Inv a b c s → Inv a (b + 1) c (g b s))
      (third : (a b c : ℕ) (s : S) → c < b → c < nb → Inv a b c s → Inv a b (c + 1) (h c s)) where
    abbrev round3 : ℕ → S → S
    round3 i s = stage h (3 * ahead_keys) nb i (stage g ahead_keys nb i (stage f 0 nb i s))

    abbrev At : ℕ → S → Type 0
    At k s = Inv (upto nb (8 * k) 0) (upto nb (8 * k) 32) (upto nb (8 * k) 96) s

    round3-At : (k : ℕ) (s : S) → 8 * k < nb + 96 → At k s → At (suc k) (round3 (8 * k) s)
    round3-At k s l p =
        let s1 = stage f 0 nb (8 * k) s in
        let s2 = stage g 32 nb (8 * k) s1 in
        let p1 =
          stage-Inv nb w f (λ m. Inv m (upto nb (8 * k) 32) (upto nb (8 * k) 96)) 0 k s
            (omega arith) (λ m s u v q. first m _ _ s u q) p in
        let p2 =
          stage-Inv nb w g (λ m. Inv (upto nb (8 * k + 8) 0) m (upto nb (8 * k) 96)) 4 k s1
            (omega arith) (λ m s u v q. second _ m _ s (ground arith) u q) p1 in
        let p3 =
          stage-Inv nb w h (λ m. Inv (upto nb (8 * k + 8) 0) (upto nb (8 * k + 8) 32) m) 12 k s2
            (omega arith) (λ m s u v q. third _ _ m s (ground arith) u q) p2 in
        let next : 8 * k + 8 ≡ 8 * suc k = omega arith in
        subst (λ i. Inv (upto nb i 0) (upto nb i 32) (upto nb i 96) (round3 (8 * k) s)) next p3

    -- A pipeline of three stages ends after each has seen every key.
    pub pipeline3-Inv :
        (fuel : ℕ) (s : S)
        → nb + 96 < fuel
        → Inv 0 0 0 s
        → (s' : S) × (rounds round3 ((nb + 96) % 2 ^ 32) fuel 0 s ≡ some s') × Inv nb nb nb s'
    pipeline3-Inv fuel s l p =
        let total : (nb + 96) % 2 ^ 32 ≡ nb + 96 = omega arith in
        let n : fuel ≡ suc (fuel - 1) = omega arith in
        let z0 : 0 ≡ upto nb 0 0 = ground arith in
        let z1 : 0 ≡ upto nb 0 32 = ground arith in
        let z2 : 0 ≡ upto nb 0 96 = ground arith in
        let start : At 0 s = subst (λ q. q) (λ i. Inv (z0 i) (z1 i) (z2 i) s) p in
        let (s', e, k, end, q) =
          rounds-Ends round3 (nb + 96) (omega arith) At (λ k s. round3-At k s) (fuel - 1) 0 s
            (omega arith) start in
        let y0 : upto nb (8 * k) 0 ≡ nb = ground arith in
        let y1 : upto nb (8 * k) 32 ≡ nb = ground arith in
        let y2 : upto nb (8 * k) 96 ≡ nb = ground arith in
        (
          s',
          (λ i. rounds round3 (total i) (n i) 0 s) ∙ e,
          subst (λ q. q) (λ i. Inv (y0 i) (y1 i) (y2 i) s') q,
        )

  -- A pipeline of two stages, the second 32 keys behind the first.
  module _ (nb : ℕ) (w : nb + 104 < 2 ^ 32) (Inv : ℕ → ℕ → S → Type 0) (f g : ℕ → S → S)
      (first : (a b : ℕ) (s : S) → a < nb → Inv a b s → Inv (a + 1) b (f a s))
      (second : (a b : ℕ) (s : S) → b < a → b < nb → Inv a b s → Inv a (b + 1) (g b s)) where
    abbrev round2 : ℕ → S → S
    round2 i s = stage g ahead_keys nb i (stage f 0 nb i s)

    abbrev At2 : ℕ → S → Type 0
    At2 k s = Inv (upto nb (8 * k) 0) (upto nb (8 * k) 32) s

    round2-At : (k : ℕ) (s : S) → 8 * k < nb + 32 → At2 k s → At2 (suc k) (round2 (8 * k) s)
    round2-At k s l p =
        let p1 =
          stage-Inv nb w f (λ m. Inv m (upto nb (8 * k) 32)) 0 k s (omega arith)
            (λ m s u v q. first m _ s u q) p in
        let p2 =
          stage-Inv nb w g (λ m. Inv (upto nb (8 * k + 8) 0) m) 4 k (stage f 0 nb (8 * k) s)
            (omega arith) (λ m s u v q. second _ m s (ground arith) u q) p1 in
        let next : 8 * k + 8 ≡ 8 * suc k = omega arith in
        subst (λ i. Inv (upto nb i 0) (upto nb i 32) (round2 (8 * k) s)) next p2

    -- The pipeline ends after both stages have seen every key.
    pub pipeline2-Inv :
        (fuel : ℕ) (s : S)
        → nb + 32 < fuel
        → Inv 0 0 s
        → (s' : S) × (rounds round2 ((nb + 32) % 2 ^ 32) fuel 0 s ≡ some s') × Inv nb nb s'
    pipeline2-Inv fuel s l p =
        let total : (nb + 32) % 2 ^ 32 ≡ nb + 32 = omega arith in
        let n : fuel ≡ suc (fuel - 1) = omega arith in
        let z0 : 0 ≡ upto nb 0 0 = ground arith in
        let z1 : 0 ≡ upto nb 0 32 = ground arith in
        let start : At2 0 s = subst (λ q. q) (λ i. Inv (z0 i) (z1 i) s) p in
        let (s', e, k, end, q) =
          rounds-Ends round2 (nb + 32) (omega arith) At2 (λ k s. round2-At k s) (fuel - 1) 0 s
            (omega arith) start in
        let y0 : upto nb (8 * k) 0 ≡ nb = ground arith in
        let y1 : upto nb (8 * k) 32 ≡ nb = ground arith in
        (
          s',
          (λ i. rounds round2 (total i) (n i) 0 s) ∙ e,
          subst (λ q. q) (λ i. Inv (y0 i) (y1 i) s') q,
        )
