-- ===== src/FlowCache/Scan.antt =====
-- samples/fcache/src/fc_cache_generate.h: what `scan_bucket_slots` finds in a bucket.
use relative_q.Base.{
  ℕ, zero, suc, ◌≡◌, ◌+◌, ◌∙◌, ap, inl, inr, refl, ◌==◌, arith, Bool, Bool-cases, contains, List,
  [], ◌∷◌, ==_iff, ltb, not, ◌&&◌, Option, sym, ◌≤◌, Distinct, some, ◌∉◌, ◌⊎◌, ◌≢◌, ◌∈◌, none, true,
  false, ◌<◌, ◌^◌, Option-cases,
}
use relative_q.Hash.Arch.Hits.{none-ne-some}
use relative_q.FlowCache.{Store}
use relative_q.FlowCache.Entries.{used_slots, scan_loop, scan_bucket_slots}

some_inj : {a b : ℕ} → some a ≡ some b → a ≡ b
some_inj p = cc

module _ {Key : Type 0} (st : Store Key) (bk : ℕ) where
  abbrev entry : ℕ → ℕ
  entry s = st.fields.table.idx bk s

  used_slots-mem :
      (x n s : ℕ)
      → contains x (used_slots n s bk st) ≡ (not (ltb x s) && ltb x (s + n) && not (entry x == 0))
  unfolding used_slots
  used_slots-mem x zero s = ground arith
  used_slots-mem x (suc n) s =
      let q : (x ≡ s) → entry x ≡ entry s = λ e. ap entry e in
      let ih = used_slots-mem x n (s + 1) in
      elim (Bool-cases (x == s)) [
        | inl e ↦
            let same = q (ground arith) in
            elim (Bool-cases (entry s == 0)) [
              | inl z ↦ rw z (ground (arith, ih))
              | inr z ↦ rw z (ground (arith, ih))
            ]
        | inr e ↦ elim (Bool-cases (entry s == 0)) [
          | inl z ↦ rw z (ground (arith, ih))
          | inr z ↦ rw z (ground (arith, ih))
        ]
      ]

  abbrev expired : ℕ → ℕ → Bool
  expired eb s = ltb (st.last_ts (entry s)) eb

  module _ (eb : ℕ) where
    scan_loop-mem :
        (x : ℕ) (slots : List ℕ) (ts : ℕ) (o : Option ℕ)
        → contains x ((scan_loop bk eb st slots ts o).0) ≡ (contains x slots && expired eb x)
    unfolding scan_loop
    scan_loop-mem x [] ts o = refl
    scan_loop-mem x (s ∷ slots) ts o =
        let ih = scan_loop-mem x slots in
        let same : (x ≡ s) → expired eb x ≡ expired eb s = λ e. ap (expired eb) e in
        elim (Bool-cases (expired eb s)) [
          | inl e ↦ elim (Bool-cases (x == s)) [
            | inl q ↦ let w = same ((==_iff x s).0 q) in rw (e, q, w) (sym e)
            | inr q ↦ rw (e, q) (ih _ _)
          ]
          | inr e ↦ elim (Bool-cases (x == s)) [
            | inl q ↦
                let w = same ((==_iff x s).0 q) in rw (e, q) (ih _ _ ∙ rw (w, e) (ground arith))
            | inr q ↦ rw (e, q) (ih _ _)
          ]
        ]

    -- The expired entries of the bucket are the ones that are found.
    scan_loop-Distinct :
        (slots : List ℕ) (ts : ℕ) (o : Option ℕ)
        → Distinct slots
        → Distinct ((scan_loop bk eb st slots ts o).0)
    unfolding scan_loop
    scan_loop-Distinct [] ts o d = tt
    scan_loop-Distinct (s ∷ slots) ts o (out, d) =
        let ih = scan_loop-Distinct slots in
        elim (Bool-cases (expired eb s)) [
          | inl e ↦ rw e (scan_loop-mem s slots _ _ ∙ rw (out) refl, ih _ _ d)
          | inr e ↦ rw e (ih _ _ d)
        ]

    abbrev IsVictim : Option ℕ → List ℕ → Option ℕ → Type 0
    IsVictim o slots r = (v : ℕ) → r ≡ some v → (o ≡ some v) ⊎ ((v ∈ slots) × (expired eb v ≡ true))

    scan_loop-IsVictim :
        (slots : List ℕ) (ts : ℕ) (o : Option ℕ)
        → IsVictim o slots ((scan_loop bk eb st slots ts o).1)
    unfolding scan_loop
    scan_loop-IsVictim [] ts o v e = inl e
    scan_loop-IsVictim (s ∷ slots) ts o v e =
        let older = expired eb s && ltb (st.last_ts (entry s)) ts in
        elim (scan_loop-IsVictim slots _ _ v e) [
          | inr (i, x) ↦ inr (ground arith, x)
          | inl p ↦ elim (Bool-cases older) [
            | inr w ↦ inl (rw w at p)
            | inl w ↦
                let q : s ≡ v = some_inj (rw w at p) in
                inr (ground arith, ap (expired eb) (sym q) ∙ ground arith)
          ]
        ]

    scan_loop-keeps :
        (slots : List ℕ) (ts : ℕ) (o : Option ℕ)
        → o ≢ none
        → (scan_loop bk eb st slots ts o).1 ≢ none
    unfolding scan_loop
    scan_loop-keeps [] ts o h = h
    scan_loop-keeps (s ∷ slots) ts o h =
        let older = expired eb s && ltb (st.last_ts (entry s)) ts in
        scan_loop-keeps slots _ _
          (elim (Bool-cases older) [ inl w ↦ rw w (λ e. none-ne-some (sym e)) | inr w ↦ rw w h ])

    -- A scan that finds an expired entry has a victim.
    scan_loop-some :
        (slots : List ℕ) (ts : ℕ) (o : Option ℕ) (x : ℕ)
        → eb ≤ ts
        → x ∈ (scan_loop bk eb st slots ts o).0
        → (scan_loop bk eb st slots ts o).1 ≢ none
    unfolding scan_loop
    scan_loop-some [] ts o x l i = cc
    scan_loop-some (s ∷ slots) ts o x l i =
        let older = expired eb s && ltb (st.last_ts (entry s)) ts in
        elim (Bool-cases (expired eb s)) [
          | inl e ↦
              let w : older ≡ true = ground arith in
              rw w (scan_loop-keeps slots _ _ (λ e. none-ne-some (sym e)))
          | inr e ↦
              let w : older ≡ false = ground arith in
              rw w (scan_loop-some slots ts o x l (rw e at i))
        ]

  used_slots-Distinct : (n s : ℕ) → Distinct (used_slots n s bk st)
  unfolding used_slots
  used_slots-Distinct zero s = tt
  used_slots-Distinct (suc n) s =
      let ih = used_slots-Distinct n (s + 1) in
      let out : s ∉ used_slots n (s + 1) bk st = used_slots-mem s n (s + 1) ∙ ground arith in
      elim (Bool-cases (entry s == 0)) [ inl z ↦ rw z ih | inr z ↦ rw z (out, ih) ]

  -- Where `scan_bucket_slots` lists a slot: it has an entry, whose time is before the limit.
  pub scan-mem :
      (eb s : ℕ)
      → contains s ((scan_bucket_slots bk eb st).0)
        ≡ ((ltb s 16 && not (entry s == 0)) && expired eb s)
  unfolding scan_bucket_slots
  scan-mem eb s =
      scan_loop-mem eb s _ _ _ ∙ ap (λ b. b && expired eb s) (used_slots-mem s 16 0 ∙ ground arith)

  pub scan-Distinct : (eb : ℕ) → Distinct ((scan_bucket_slots bk eb st).0)
  unfolding scan_bucket_slots
  scan-Distinct eb = scan_loop-Distinct eb _ _ _ (used_slots-Distinct 16 0)

  -- A scan that lists a slot gives one of the listed slots as the oldest.
  pub scan-victim :
      (eb s : ℕ)
      → eb < 2 ^ 64
      → s ∈ (scan_bucket_slots bk eb st).0
      → (v : ℕ) × ((scan_bucket_slots bk eb st).1 ≡ some v) × (v ∈ (scan_bucket_slots bk eb st).0)
  unfolding scan_bucket_slots
  scan-victim eb s l i = elim (Option-cases ((scan_bucket_slots bk eb st).1)) [
    | inl e ↦ absurd (scan_loop-some eb _ _ _ s (omega arith) i e)
    | inr (v, e) ↦ elim (scan_loop-IsVictim eb _ _ _ v e) [
      | inl p ↦ absurd (none-ne-some p)
      | inr (j, x) ↦ (v, e, scan_loop-mem eb v _ _ _ ∙ rw (j, x) refl)
    ]
  ]
