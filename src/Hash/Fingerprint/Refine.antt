-- ===== src/Hash/Fingerprint/Refine.antt =====
-- `kickout` with the hash of the nodes, against `kickout` of rix_hash_keyonly.h.
use relative_q.Base.{
  ℕ, Bool, ◌≡◌, ◌⊎◌, inl, inr, sym, refl, ◌==◌, Bool-cases, Option-cases, Option, none, some, arith,
  ◌≤◌, ◌<◌, ◌+◌, ◌≢◌, if◌then◌else◌, not, ◌||◌, ◌∙◌, ap, suc, zero, subst,
}
use relative_q.Hash.Cuckoo.{Buckets, move_entry}
use relative_q.Hash.Cuckoo as Cuckoo
use relative_q.Hash.Cuckoo.Valid.{IsValid}
use relative_q.Hash.Cuckoo.Frees.{Frees, find_empty-none}
use relative_q.Hash.Cuckoo.Kickout.{kickout-Frees}
use relative_q.Hash.Fingerprint.{FpOps}
use relative_q.Hash.Fingerprint.Laws.{FpLaws, fp_nodes, IsHome-le, alt_bucket-IsHome}
use relative_q.Hash.Fingerprint.KeyOnly.{scheme, find_empty, alt_bucket}
use relative_q.Hash.Fingerprint.Fields.{
  Fields, other_bucket, move_node, flipflop, pass1, pass2, kickout,
}
use relative_q.Hash.Fingerprint.Flip.{flip-cases, flipflop-some}
use relative_q.Hash.Fingerprint.Marked.{IsMarked, other_bucket-alt_bucket, move_node-IsMarked}

module _ {Key : Type 0} (with_slot : Bool) (ops : FpOps Key) (node_key : ℕ → Key) (mask : ℕ)
    (laws : FpLaws ops mask) (new value : ℕ) where
  -- The same buckets and slot, with the nodes marked.
  abbrev pub Refines : Fields × Option ℕ → Buckets × Option ℕ → Type 0
  Refines r q = (((r.0).table, r.1) ≡ q) × IsMarked with_slot ops node_key mask new value (r.0)

  abbrev Valid : Buckets → Type 0
  Valid t = IsValid (fp_nodes ops node_key mask laws) t

  module _ (b : ℕ) (h : b ≤ mask) where
    abbrev c : Cuckoo.Scheme
    c = scheme ops node_key

    -- The first loops end at the same slot, or both find none.
    pass1-cases :
        (n s : ℕ)
        → s + n ≡ 16
        → (st : Fields) → Valid st.table
        → IsMarked with_slot ops node_key mask new value st
        → ((pass1 with_slot ops node_key mask b n s st ≡ none)
            × (Cuckoo.pass1 c mask b n s st.table ≡ none))
          ⊎ ((r : Fields × ℕ) × (pass1 with_slot ops node_key mask b n s st ≡ some r)
              × (Cuckoo.pass1 c mask b n s st.table ≡ some ((r.0).table, r.1))
              × IsMarked with_slot ops node_key mask new value (r.0))
    unfolding pass1 Cuckoo.pass1
    pass1-cases zero s e st valid marked = inl (refl, refl)
    pass1-cases (suc n) s e st valid marked =
        elim (flip-cases with_slot ops node_key mask laws new value b s st valid marked
          (h, omega arith)) [
            | inl (f, f') ↦
                rw (pass1, Cuckoo.pass1, f, f')
                  (pass1-cases n (s + 1) (omega arith) st valid marked)
            | inr (st', f, f', m) ↦
                inr ((st', s), rw (pass1, f) refl, rw (Cuckoo.pass1, f') refl, m)
          ]

    module _ (kick : ℕ → Fields → Fields × Option ℕ) (kick' : ℕ → Buckets → Buckets × Option ℕ)
        (refines : (b : ℕ) (st : Fields)
          → b ≤ mask
          → Valid st.table
          → IsMarked with_slot ops node_key mask new value st
          → Refines (kick b st) (kick' b st.table))
        (frees : (b : ℕ) (t : Buckets)
          → b ≤ mask
          → Valid t
          → Frees (fp_nodes ops node_key mask laws) b t (kick' b t)) where
      -- What a round of the second loop does after its `kickout`.
      abbrev after : ℕ → ℕ → Fields → Fields × Option ℕ → Fields × Option ℕ
      after n s st (st', freed) =
          let t = st.table in
          let t' = st'.table in
          let rest = pass2 with_slot ops node_key kick mask b n (s + 1) st' in
          elim freed as (λ _. Fields × Option ℕ) [
            | none ↦ rest
            | some _ ↦
                if not (t'.key b s == t.key b s) || not (t'.idx b s == t.idx b s)
                then elim (find_empty ops node_key b t') as (λ _. Fields × Option ℕ) [
                  | some fs ↦ (st', some fs)
                  | none ↦ rest
                ]
                else elim (flipflop with_slot ops node_key mask b s st')
                    as (λ _. Fields × Option ℕ) [
                      | some st'' ↦ (st'', some s)
                      | none ↦ (st', some s)
                    ]
          ]

      abbrev after' : ℕ → ℕ → ℕ → Buckets → Buckets × Option ℕ → Buckets × Option ℕ
      after' alt n s t (t', freed) =
          let rest = Cuckoo.pass2 c kick' mask b n (s + 1) t' in
          elim freed as (λ _. Buckets × Option ℕ) [
            | none ↦ rest
            | some _ ↦
                if not (t'.key b s == t.key b s) || not (t'.idx b s == t.idx b s)
                then elim (find_empty ops node_key b t') as (λ _. Buckets × Option ℕ) [
                  | some fs ↦ (t', some fs)
                  | none ↦ rest
                ]
                else elim (find_empty ops node_key alt t') as (λ _. Buckets × Option ℕ) [
                  | some es ↦ (move_entry c b s alt es t', some s)
                  | none ↦ (t', none)
                ]
          ]

      after-Refines :
          (n s : ℕ)
          → s < 16
          → (st st' : Fields) (freed : Option ℕ) → st.table.idx b s ≢ 0
          → IsMarked with_slot ops node_key mask new value st'
          → Frees
              (fp_nodes ops node_key mask laws)
              (alt_bucket ops node_key mask b (st.table.idx b s))
              st.table
              (st'.table, freed)
          → Refines
              (pass2 with_slot ops node_key kick mask b n (s + 1) st')
              (Cuckoo.pass2 c kick' mask b n (s + 1) st'.table)
          → Refines (after n s st (st', freed)) (
              after'
                (alt_bucket ops node_key mask b (st.table.idx b s))
                n
                s
                st.table
                (st'.table, freed))
      unfolding move_node
      after-Refines n s u st st' none o marked f rest = rest
      after-Refines n s u st st' (some fs) o marked (keeps, f) rest =
          let (t, t') : Buckets × Buckets = (st.table, st'.table) in
          let w0 = not (t'.key b s == t.key b s) || not (t'.idx b s == t.idx b s) in
          elim (Bool-cases w0) [
            | inl w ↦ elim (Option-cases (find_empty ops node_key b t')) [
              | inl g ↦ rw (w, g) rest
              | inr (es, g) ↦ rw (w, g) (refl, marked)
            ]
            | inr w ↦
                let i : t'.idx b s ≡ t.idx b s = ground arith in
                let ne : t'.idx b s ≢ 0 = λ z. o (sym i ∙ z) in
                let alt = alt_bucket ops node_key mask b (t.idx b s) in
                let e : other_bucket mask b s st' ≡ alt =
                  other_bucket-alt_bucket with_slot ops node_key mask new value laws st' keeps.0
                    marked b s (h, u) ne
                  ∙ ap (alt_bucket ops node_key mask b) i in
                let m =
                  move_node-IsMarked with_slot ops node_key mask new value laws st' keeps.0 marked b
                    s (h, u) ne in
                let ((l, v), free) = f fs refl in
                elim (Option-cases (find_empty ops node_key alt t')) [
                  | inl g ↦ absurd (
                      find_empty-none (fp_nodes ops node_key mask laws) t' alt fs keeps.0 l g v
                        free)
                  | inr (es, g) ↦
                      let moved =
                        flipflop-some with_slot ops node_key mask laws new value b s es st' ne
                          (ap (λ a. find_empty ops node_key a t') e ∙ g) in
                      rw (w, g, moved) (ap (λ a. (move_entry c b s a es t', some s)) e, m es)
                ]
          ]

      pass2-Refines :
          (n s : ℕ)
          → s + n ≡ 16
          → (st : Fields) → Valid st.table
          → IsMarked with_slot ops node_key mask new value st
          → Refines
              (pass2 with_slot ops node_key kick mask b n s st)
              (Cuckoo.pass2 c kick' mask b n s st.table)
      unfolding pass2 Cuckoo.pass2
      pass2-Refines zero s e st valid marked = (refl, marked)
      pass2-Refines (suc n) s e st valid marked = elim (Bool-cases (st.table.idx b s == 0)) [
        | inl z ↦
            rw (pass2, Cuckoo.pass2, z) (pass2-Refines n (s + 1) (omega arith) st valid marked)
        | inr z ↦
            let o : st.table.idx b s ≢ 0 = ground arith in
            let alt = alt_bucket ops node_key mask b (st.table.idx b s) in
            let l : alt ≤ mask =
              IsHome-le ops mask (node_key (st.table.idx b s)) alt
                (alt_bucket-IsHome ops node_key mask b (st.table.idx b s)) in
            let e' =
              other_bucket-alt_bucket with_slot ops node_key mask new value laws st valid marked b s
                (h, omega arith) o in
            let r = kick (other_bucket mask b s st) st in
            let (q, m) =
              subst (λ a. Refines (kick a st) (kick' alt st.table)) (sym e')
                (refines alt st l valid marked) in
            let f =
              subst (λ q. Frees (fp_nodes ops node_key mask laws) alt st.table q) (sym q)
                (frees alt st.table l valid) in
            let rest = pass2-Refines n (s + 1) (omega arith) r.0 f.0.0 m in
            let step = after-Refines n s (omega arith) st r.0 r.1 o m f rest in
            rw (pass2, Cuckoo.pass2, z)
              (subst (λ q. Refines (after n s st r) (after' alt n s st.table q)) q step)
      ]

  kickout-suc-Refines :
      (depth b : ℕ) (st : Fields)
      → ((pass1 with_slot ops node_key mask b 16 0 st ≡ none)
          × (Cuckoo.pass1 (scheme ops node_key) mask b 16 0 st.table ≡ none))
        ⊎ ((r : Fields × ℕ) × (pass1 with_slot ops node_key mask b 16 0 st ≡ some r)
            × (Cuckoo.pass1 (scheme ops node_key) mask b 16 0 st.table ≡ some ((r.0).table, r.1))
            × IsMarked with_slot ops node_key mask new value (r.0))
      → Refines
          (pass2 with_slot ops node_key (kickout with_slot ops node_key depth mask) mask b 16 0 st)
          (Cuckoo.pass2
            (scheme ops node_key)
            (Cuckoo.kickout (scheme ops node_key) depth mask)
            mask
            b
            16
            0
            st.table)
      → Refines
          (kickout with_slot ops node_key (suc depth) mask b st)
          (Cuckoo.kickout (scheme ops node_key) (suc depth) mask b st.table)
  unfolding kickout Cuckoo.kickout
  kickout-suc-Refines depth b st first deep = elim first [
    | inl (f, f') ↦ rw (kickout, Cuckoo.kickout, f, f') deep
    | inr (r, f, f', m) ↦ rw (kickout, Cuckoo.kickout, f, f') (refl, m)
  ]

  -- `kickout` of rix_hash_fp.h and of rix_hash_slot.h, at any depth and from any bucket of a
  -- valid table of marked nodes: the buckets and the slot are those that `kickout` of
  -- rix_hash_keyonly.h gives, and the nodes are marked afterwards. A node `new` outside the table
  -- that keeps the hash `value`, if `new` is not NULL, is still that.
  pub kickout-Refines :
      (depth b : ℕ) (st : Fields)
      → b ≤ mask
      → IsValid (fp_nodes ops node_key mask laws) st.table
      → IsMarked with_slot ops node_key mask new value st
      → Refines
          (kickout with_slot ops node_key depth mask b st)
          (Cuckoo.kickout (scheme ops node_key) depth mask b st.table)
  unfolding kickout Cuckoo.kickout
  kickout-Refines zero b st h valid marked = (refl, marked)
  kickout-Refines (suc depth) b st h valid marked =
      kickout-suc-Refines depth b st (pass1-cases b h 16 0 (omega arith) st valid marked) (
        pass2-Refines b h (kickout with_slot ops node_key depth mask)
          (Cuckoo.kickout (scheme ops node_key) depth mask)
          (λ b st h v m. kickout-Refines depth b st h v m)
          (λ b t h v. kickout-Frees (fp_nodes ops node_key mask laws) depth b t h v) 16 0
          (omega arith) st valid marked)
