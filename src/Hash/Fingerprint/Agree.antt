-- ===== src/Hash/Fingerprint/Agree.antt =====
-- `insert` with the hash of the nodes, against `insert` of rix_hash_keyonly.h.
use Prim.Native.Nat.{bit_and}
use relative_q.Base.{
  ℕ, Bool, ◌≡◌, ◌≢◌, ◌+◌, ◌%◌, ◌^◌, inl, inr, ◌∙◌, sym, refl, ap, Option, none, some, subst,
}
use relative_q.Hash.Arch.{first_hit}
use relative_q.Hash.Cuckoo.{Head, Buckets}
use relative_q.Hash.Cuckoo.Valid.{IsValid}
use relative_q.Hash.Cuckoo.Kickout.{kickout-Keeps}
use relative_q.Hash.Fingerprint.{FpOps, duplicate}
use relative_q.Hash.Fingerprint.Laws.{FpLaws, fp_nodes, bucket0, bucket1, fp_of, IsHome-le}
use relative_q.Hash.Fingerprint.KeyOnly.{scheme, find_empty}
use relative_q.Hash.Fingerprint.KeyOnly as KeyOnly
use relative_q.Hash.Fingerprint.Fields.{Fields, insert, kickout, place}
use relative_q.Hash.Fingerprint.Find.{Holds}
use relative_q.Hash.Fingerprint.Marked.{IsMarked, val0, val1, set_field-same}
use relative_q.Hash.Fingerprint.Place.{start, start-IsMarked, forget, place-IsMarked}
use relative_q.Hash.Fingerprint.Refine.{kickout-Refines}
use relative_q.Hash.Fingerprint.Search as Search
use relative_q.Hash.Fingerprint.Search.{insert_hashed-search}

module _ {Key : Type 0} (with_slot : Bool) (ops : FpOps Key) (node_key : ℕ → Key) (h : Head)
    (laws : FpLaws ops h.mask) (elm : ℕ) (o : elm ≢ 0) where
  -- The same result, head and buckets, with the nodes marked.
  abbrev pub Agrees : ℕ × Head × Fields → ℕ × Head × Buckets → Type 0
  Agrees r q = ((r.0, r.1, (r.2).table) ≡ q) × IsMarked with_slot ops node_key h.mask 0 0 (r.2)

  abbrev b0 : ℕ
  b0 = bucket0 ops h.mask (node_key elm)

  abbrev b1 : ℕ
  b1 = bucket1 ops h.mask (node_key elm)

  abbrev fp : ℕ
  fp = fp_of ops h.mask (node_key elm)

  abbrev v0 : ℕ
  v0 = val0 ops node_key h.mask elm

  abbrev v1 : ℕ
  v1 = val1 ops node_key h.mask elm

  abbrev put : ℕ → ℕ → Option ℕ → Fields → Fields
  put b s hash st = place with_slot ops node_key elm b s fp hash st

  -- `elm` keeps its first hash in a slot of its first bucket, and its second one in the second.
  put-first :
      (st : Fields) (s : ℕ)
      → IsMarked with_slot ops node_key h.mask elm v0 st
      → IsMarked with_slot ops node_key h.mask 0 0 (put b0 s none st)
  unfolding place
  put-first st s marked =
      let e = marked.kept o in
      place-IsMarked with_slot ops node_key h.mask st elm b0 s fp o marked none
        (ap (λ x. bit_and x h.mask) e) (inl e)

  put-second :
      (st : Fields) (s : ℕ)
      → IsMarked with_slot ops node_key h.mask elm v0 st
      → IsMarked with_slot ops node_key h.mask 0 0 (put b1 s (some v1) st)
  unfolding place
  put-second st s marked =
      let e = set_field-same st.hash_field elm v1 elm refl in
      place-IsMarked with_slot ops node_key h.mask st elm b1 s fp o marked (some v1)
        (ap (λ x. bit_and x h.mask) e) (inr e)

  abbrev h' : Head
  h' = record h { nb = (h.nb + 1) % 2 ^ 32 }

  abbrev room : Fields × Option ℕ → Fields × Option ℕ → ℕ × Head × Fields
  room r1 r2 = elim (r1.1) as (λ _. ℕ × Head × Fields) [
    | some s ↦ (0, h', put b0 s none (r1.0))
    | none ↦ elim (r2.1) as (λ _. ℕ × Head × Fields) [
      | some s ↦ (0, h', put b1 s (some v1) (r2.0))
      | none ↦ (elm, h, r2.0)
    ]
  ]

  abbrev room' : Buckets × Option ℕ → Buckets × Option ℕ → ℕ × Head × Buckets
  room' q1 q2 = elim (q1.1) as (λ _. ℕ × Head × Buckets) [
    | some s ↦ (0, h', KeyOnly.place ops node_key elm b0 s fp none (q1.0))
    | none ↦ elim (q2.1) as (λ _. ℕ × Head × Buckets) [
      | some s ↦ (0, h', KeyOnly.place ops node_key elm b1 s fp (some v1) (q2.0))
      | none ↦ (elm, h, q2.0)
    ]
  ]

  room-Agrees :
      (r1 r2 : Fields × Option ℕ)
      → IsMarked with_slot ops node_key h.mask elm v0 (r1.0)
      → IsMarked with_slot ops node_key h.mask elm v0 (r2.0)
      → Agrees (room r1 r2) (room' ((r1.0).table, r1.1) ((r2.0).table, r2.1))
  unfolding place
  room-Agrees (st1, some s) r2 m1 m2 = (refl, put-first st1 s m1)
  room-Agrees (st1, none) (st2, some s) m1 m2 = (refl, put-second st2 s m2)
  room-Agrees (st1, none) (st2, none) m1 m2 =
      (refl, forget with_slot ops node_key h.mask elm v0 st2 m2)

  module _ (st : Fields) (valid : IsValid (fp_nodes ops node_key h.mask laws) st.table)
      (marked : IsMarked with_slot ops node_key h.mask 0 0 st)
      (fresh : ¬ Holds ops node_key h.mask st.table elm) where
    abbrev st0 : Fields
    st0 = start with_slot ops node_key h.mask elm st

    abbrev kick : ℕ → Fields → Fields × Option ℕ
    kick = kickout with_slot ops node_key 4 h.mask

    abbrev kick' : ℕ → Buckets → Buckets × Option ℕ
    kick' = KeyOnly.kickout ops node_key 4 h.mask

    started : IsMarked with_slot ops node_key h.mask elm v0 st0
    started = start-IsMarked with_slot ops node_key h.mask laws st elm valid marked fresh

    make_room-Agrees :
        Agrees
          (room (kick b0 st0) (kick b1 ((kick b0 st0).0)))
          (room' (kick' b0 st.table) (kick' b1 ((kick' b0 st.table).0)))
    make_room-Agrees =
        let l0 = IsHome-le ops h.mask (node_key elm) b0 (inl refl) in
        let l1 = IsHome-le ops h.mask (node_key elm) b1 (inr refl) in
        let (e1, m1) =
          kickout-Refines with_slot ops node_key h.mask laws elm v0 4 b0 st0 l0 valid started in
        let keeps = kickout-Keeps (fp_nodes ops node_key h.mask laws) 4 b0 st.table l0 valid in
        let v = subst (λ q. IsValid (fp_nodes ops node_key h.mask laws) (q.0)) (sym e1) (keeps.0) in
        let (e2, m2) =
          kickout-Refines with_slot ops node_key h.mask laws elm v0 4 b1 ((kick b0 st0).0) l1 v
            m1 in
        let (e, m) = room-Agrees (kick b0 st0) (kick b1 ((kick b0 st0).0)) m1 m2 in
        (e ∙ (λ i. room' (e1 i) ((e2 ∙ ap (λ q. kick' b1 (q.0)) e1) i)), m)

    abbrev same_key : ℕ → Option ℕ
    same_key b = duplicate ops node_key st.table b (node_key elm) (
        Search.hits ops node_key (λ t. t) kick' (KeyOnly.place ops node_key elm) elm
          (ops.hash_fn (node_key elm) h.mask) h st.table b)

    search-Agrees :
        (d0 d1 f0 f1 : Option ℕ)
        → Agrees
            (elim d0 as (λ _. ℕ × Head × Fields) [
              | some n ↦ (n, h, st0)
              | none ↦ elim d1 as (λ _. ℕ × Head × Fields) [
                | some n ↦ (n, h, st0)
                | none ↦
                    Search.slots_then ops node_key
                      (λ (st : Fields). st.table)
                      kick
                      (place with_slot ops node_key elm)
                      elm
                      (ops.hash_fn (node_key elm) h.mask)
                      h
                      st0
                      f0
                      f1
              ]
            ])
            (elim d0 as (λ _. ℕ × Head × Buckets) [
              | some n ↦ (n, h, st.table)
              | none ↦ elim d1 as (λ _. ℕ × Head × Buckets) [
                | some n ↦ (n, h, st.table)
                | none ↦
                    Search.slots_then ops node_key
                      (λ t. t)
                      kick'
                      (KeyOnly.place ops node_key elm)
                      elm
                      (ops.hash_fn (node_key elm) h.mask)
                      h
                      st.table
                      f0
                      f1
              ]
            ])
    unfolding place
    search-Agrees (some n) d1 f0 f1 =
        (refl, forget with_slot ops node_key h.mask elm v0 st0 started)
    search-Agrees none (some n) f0 f1 =
        (refl, forget with_slot ops node_key h.mask elm v0 st0 started)
    search-Agrees none none (some s) f1 = (refl, put-first st0 s started)
    search-Agrees none none none (some s) = (refl, put-second st0 s started)
    search-Agrees none none none none = make_room-Agrees

    -- `insert` of rix_hash_fp.h and of rix_hash_slot.h in a valid table of marked nodes, for a
    -- node that is neither NULL nor in the table: the result, the head and the buckets are those
    -- that `insert` of rix_hash_keyonly.h gives, and the nodes are marked afterwards.
    pub insert-Agrees :
        Agrees (insert with_slot ops node_key elm h st) (KeyOnly.insert ops node_key elm h st.table)
    unfolding insert KeyOnly.insert
    insert-Agrees =
        let hash = ops.hash_fn (node_key elm) h.mask in
        let e =
          insert_hashed-search ops node_key (λ (st : Fields). st.table) kick
            (place with_slot ops node_key elm) elm hash h st0 laws.find_lem laws.find_2_lem in
        let e' =
          insert_hashed-search ops node_key (λ t. t) kick' (KeyOnly.place ops node_key elm) elm hash
            h st.table laws.find_lem laws.find_2_lem in
        let s =
          search-Agrees (same_key b0) (same_key b1) (first_hit ops.find (st.table.key b0) 0)
            (first_hit ops.find (st.table.key b1) 0) in
        subst (λ r. Agrees r (KeyOnly.insert ops node_key elm h st.table)) (sym e)
          (subst (Agrees _) (sym e') s)
