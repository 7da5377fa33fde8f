-- ===== src/Hash/Fingerprint/Marked.antt =====
-- The hash and the slot that a node of the table keeps.
use Prim.Native.Nat.{bit_and, bit_xor}
use relative_q.Base.{
  ℕ, Bool, true, false, ◌≡◌, ◌≢◌, ◌⊎◌, inl, inr, ◌∙◌, sym, refl, ap, ◌==◌, arith, Bool-cases,
}
use relative_q.Base.Bits.Xor.{bit_xor_back, bit_xor_comm}
use relative_q.Hash.Cuckoo.{move_entry}
use relative_q.Hash.Cuckoo.Slots.{moved-cases, absurd-at}
use relative_q.Hash.Cuckoo.Valid.{IsValid, InTable}
use relative_q.Hash.Fingerprint.{FpOps}
use relative_q.Hash.Fingerprint.Laws.{FpLaws, fp_nodes, bucket0}
use relative_q.Hash.Fingerprint.KeyOnly.{alt_bucket}
use relative_q.Hash.Fingerprint.Fields.{Fields, set_field, other_bucket, move_node}

pub set_field-same : (f : ℕ → ℕ) (n v m : ℕ) → m ≡ n → set_field f n v m ≡ v
set_field-same f n v m e = let z : (m == n) ≡ true = ground arith in rw z refl

pub set_field-other : (f : ℕ → ℕ) (n v m : ℕ) → m ≢ n → set_field f n v m ≡ f m
set_field-other f n v m e = let z : (m == n) ≡ false = ground arith in rw z refl

module _ {Key : Type 0} (ops : FpOps Key) (node_key : ℕ → Key) (mask : ℕ) where
  abbrev pub val0 : ℕ → ℕ
  val0 n = (ops.hash_fn (node_key n) mask).val0

  abbrev pub val1 : ℕ → ℕ
  val1 n = (ops.hash_fn (node_key n) mask).val1

module _ {Key : Type 0} (with_slot : Bool) (ops : FpOps Key) (node_key : ℕ → Key) (mask : ℕ)
    (new value : ℕ) where
  -- The node of an occupied slot keeps one of its two hash values, which says the bucket, and in
  -- rix_hash_slot.h the slot. If `new` is not NULL, it is a node outside the table that keeps
  -- the hash `value`.
  pub record IsMarked (st : Fields) : Type 0 where
    pub bucket_of :
        (b s : ℕ)
        → InTable mask b s
        → st.table.idx b s ≢ 0
        → bit_and (st.hash_field (st.table.idx b s)) mask ≡ b
    pub hash_of :
        (b s : ℕ)
        → InTable mask b s
        → st.table.idx b s ≢ 0
        → (st.hash_field (st.table.idx b s) ≡ val0 ops node_key mask (st.table.idx b s))
          ⊎ (st.hash_field (st.table.idx b s) ≡ val1 ops node_key mask (st.table.idx b s))
    pub slot_of :
        (b s : ℕ)
        → InTable mask b s
        → st.table.idx b s ≢ 0
        → with_slot ≡ true
        → st.slot_field (st.table.idx b s) ≡ s
    pub apart : (b s : ℕ) → InTable mask b s → new ≢ 0 → st.table.idx b s ≢ new
    pub kept : new ≢ 0 → st.hash_field new ≡ value

  module _ (laws : FpLaws ops mask) (st : Fields)
      (valid : IsValid (fp_nodes ops node_key mask laws) (st.table)) (marked : IsMarked st)
      (b s : ℕ) (r : InTable mask b s) (o : st.table.idx b s ≢ 0) where
    abbrev n : ℕ
    n = st.table.idx b s

    abbrev flipped : ℕ
    flipped = bit_xor (st.table.key b s) (st.hash_field n)

    -- The fingerprint turns each of the two hash values into the other.
    flipped-cases :
        ((st.hash_field n ≡ val0 ops node_key mask n) × (flipped ≡ val1 ops node_key mask n))
        ⊎ ((st.hash_field n ≡ val1 ops node_key mask n) × (flipped ≡ val0 ops node_key mask n))
    flipped-cases =
        let k = valid.owned b s r o in
        elim (marked.hash_of b s r o) [
          | inl e ↦
              inl
                (e, rw (k, e) (bit_xor_back (val0 ops node_key mask n) (val1 ops node_key mask n)))
          | inr e ↦ inr (
            e,
            rw (k, e)
                (ap (λ x. bit_xor x (val1 ops node_key mask n))
                    (bit_xor_comm (val0 ops node_key mask n) (val1 ops node_key mask n))
                  ∙ bit_xor_back (val1 ops node_key mask n) (val0 ops node_key mask n)),
          )
        ]

    -- The bucket from the fingerprint and the kept hash is the one from the hash of the key.
    pub other_bucket-alt_bucket : other_bucket mask b s st ≡ alt_bucket ops node_key mask b n
    unfolding other_bucket alt_bucket
    other_bucket-alt_bucket =
        let at = marked.bucket_of b s r o in
        elim flipped-cases [
          | inl (e, f) ↦
              let z : (b == bucket0 ops mask (node_key n)) ≡ true =
                let w = sym at ∙ ap (λ h. bit_and h mask) e in ground (arith, w) in
              rw (f, z) refl
          | inr (e, f) ↦
              let z : (b == bucket0 ops mask (node_key n)) ≡ false =
                let w = sym at ∙ ap (λ h. bit_and h mask) e in
                let d = laws.distinct (node_key n) in ground (arith, w, d) in
              rw (f, z) refl
        ]

    module _ (es : ℕ) where
      abbrev alt : ℕ
      alt = other_bucket mask b s st

      abbrev after : Fields
      after = move_node with_slot ops node_key b s alt es st

      -- An occupied slot after the move is the target, or as before with the same marks.
      after-cases :
          (b' s' : ℕ)
          → InTable mask b' s'
          → after.table.idx b' s' ≢ 0
          → ((b' ≡ alt)
              × (after.table.idx b' s' ≡ n)
              × (after.hash_field (after.table.idx b' s') ≡ flipped)
              × (with_slot ≡ true → after.slot_field (after.table.idx b' s') ≡ s'))
            ⊎ ((after.table.idx b' s' ≡ st.table.idx b' s')
                × (after.hash_field (after.table.idx b' s') ≡ st.hash_field (st.table.idx b' s'))
                × (with_slot ≡ true
                    → after.slot_field (after.table.idx b' s')
                      ≡ st.slot_field (st.table.idx b' s')))
      unfolding move_node move_entry
      after-cases b' s' r' o' = elim (moved-cases b s alt es 0 (st.table) b' s' o') [
        | inl (a, p, q, k, i) ↦ inl (
          p,
          i,
          set_field-same st.hash_field n flipped _ i,
          λ w. rw w (set_field-same st.slot_field n es _ i ∙ sym q),
        )
        | inr (a, a', k, i) ↦
            let ne : st.table.idx b' s' ≢ 0 = λ z. o' (i ∙ z) in
            let other : after.table.idx b' s' ≢ n = λ e.
              let (p, q) = valid.unique b s b' s' r r' o ne (ap node_key (sym e ∙ i)) in
              absurd-at a p q in
            inr (
              i,
              set_field-other st.hash_field n flipped _ other ∙ ap st.hash_field i,
              λ w. rw w (set_field-other st.slot_field n es _ other ∙ ap st.slot_field i),
            )
      ]

      moved-apart : (b' s' : ℕ) → InTable mask b' s' → new ≢ 0 → after.table.idx b' s' ≢ new
      unfolding move_node move_entry
      moved-apart b' s' r' x e = elim (Bool-cases (after.table.idx b' s' == 0)) [
        | inl z ↦ x (ground (arith, e))
        | inr z ↦ elim (after-cases b' s' r' (ground arith)) [
          | inl (p, i, h, w) ↦ marked.apart b s r x (sym i ∙ e)
          | inr (i, h, w) ↦ marked.apart b' s' r' x (sym i ∙ e)
        ]
      ]

      moved-kept : new ≢ 0 → after.hash_field new ≡ value
      unfolding move_node
      moved-kept x =
          set_field-other st.hash_field n flipped new (λ e. marked.apart b s r x (sym e))
          ∙ marked.kept x

      -- A move of the node marks it with where it is now, and no other node.
      pub move_node-IsMarked : IsMarked after
      unfolding other_bucket
      move_node-IsMarked = record {
        bucket_of = λ b' s' r' o'. elim (after-cases b' s' r' o') [
          | inl (p, i, h, w) ↦ ap (λ x. bit_and x mask) h ∙ sym p
          | inr (i, h, w) ↦ ap (λ x. bit_and x mask) h ∙ marked.bucket_of b' s' r' (λ z. o' (i ∙ z))
        ];
        hash_of = λ b' s' r' o'. elim (after-cases b' s' r' o') [
          | inl (p, i, h, w) ↦ elim flipped-cases [
            | inl (e, f) ↦ inr (h ∙ f ∙ ap (val1 ops node_key mask) (sym i))
            | inr (e, f) ↦ inl (h ∙ f ∙ ap (val0 ops node_key mask) (sym i))
          ]
          | inr (i, h, w) ↦ elim (marked.hash_of b' s' r' (λ z. o' (i ∙ z))) [
            | inl e ↦ inl (h ∙ e ∙ ap (val0 ops node_key mask) (sym i))
            | inr e ↦ inr (h ∙ e ∙ ap (val1 ops node_key mask) (sym i))
          ]
        ];
        slot_of = λ b' s' r' o' with. elim (after-cases b' s' r' o') [
          | inl (p, i, h, w) ↦ w with
          | inr (i, h, w) ↦ w with ∙ marked.slot_of b' s' r' (λ z. o' (i ∙ z)) with
        ];
        apart = moved-apart;
        kept = moved-kept;
      }
