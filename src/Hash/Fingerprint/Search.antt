-- ===== src/Hash/Fingerprint/Search.antt =====
-- `insert_hashed` as its search: for the key in two buckets, then for a free slot, then `kickout`.
use relative_q.Base.{
  ℕ, ◌≡◌, ◌+◌, ◌%◌, ◌^◌, refl, Option, none, some, ◌==◌, Bool-cases, inl, inr, if◌then◌else◌, ◌∙◌,
  ap, not,
}
use Prim.Native.Nat.{bit_and, bit_xor}
use relative_q.Hash.Arch.{Hash, first_hit, find_u32x16_gen, IsFind, ctz}
use relative_q.Hash.Cuckoo.{Head, Buckets}
use relative_q.Hash.Fingerprint.{FpOps, duplicate, insert_hashed, buckets}

module _ {Key : Type 0} (ops : FpOps Key) (node_key : ℕ → Key) {S : Type 0} (table : S → Buckets)
    (kick : ℕ → S → S × Option ℕ) (place : ℕ → ℕ → ℕ → Option ℕ → S → S) (elm : ℕ) (hash : Hash)
    (h : Head) (st : S) where
  abbrev pub b0 : ℕ
  b0 = bit_and hash.val0 h.mask

  abbrev pub b1 : ℕ
  b1 = bit_and hash.val1 h.mask

  abbrev pub fp : ℕ
  fp = bit_xor hash.val0 hash.val1

  abbrev pub h' : Head
  h' = record h { nb = (h.nb + 1) % 2 ^ 32 }

  -- What follows when both buckets are full.
  abbrev pub make_room : ℕ × Head × S
  make_room = elim ((kick b0 st).1) as (λ _. ℕ × Head × S) [
    | some s ↦ (0, h', place b0 s fp none ((kick b0 st).0))
    | none ↦ elim ((kick b1 ((kick b0 st).0)).1) as (λ _. ℕ × Head × S) [
      | some s ↦ (0, h', place b1 s fp (some hash.val1) ((kick b1 ((kick b0 st).0)).0))
      | none ↦ (elm, h, (kick b1 ((kick b0 st).0)).0)
    ]
  ]

  abbrev pub same_key : ℕ → Option ℕ
  same_key b =
      duplicate ops node_key (table st) b (node_key elm) (find_u32x16_gen ((table st).key b) fp)

  abbrev pub free_slot : ℕ → Option ℕ
  free_slot b = first_hit ops.find ((table st).key b) 0

  -- The search, from the masks of the hits and what follows the search for the key.
  abbrev pub keys_then : ℕ → ℕ → ℕ × Head × S → ℕ × Head × S
  keys_then hits0 hits1 rest =
      elim (duplicate ops node_key (table st) b0 (node_key elm) hits0) as (λ _. ℕ × Head × S) [
        | some n ↦ (n, h, st)
        | none ↦
            elim (duplicate ops node_key (table st) b1 (node_key elm) hits1)
              as (λ _. ℕ × Head × S) [ some n ↦ (n, h, st) | none ↦ rest ]
      ]

  abbrev pub slots_then : Option ℕ → Option ℕ → ℕ × Head × S
  slots_then free0 free1 = elim free0 as (λ _. ℕ × Head × S) [
    | some s ↦ (0, h', place b0 s fp none st)
    | none ↦ elim free1 as (λ _. ℕ × Head × S) [
      | some s ↦ (0, h', place b1 s fp (some hash.val1) st)
      | none ↦ make_room
    ]
  ]

  masks_then : ℕ → ℕ → ℕ × Head × S
  masks_then zero0 zero1 =
      if not (zero0 == 0)
      then (0, h', place b0 (ctz zero0) fp none st)
      else if not (zero1 == 0)
      then (0, h', place b1 (ctz zero1) fp (some hash.val1) st)
      else make_room

  abbrev pub hits : ℕ → ℕ
  hits b = find_u32x16_gen ((table st).key b) fp

  -- The scan for empty slots.
  abbrev empties : ℕ → ℕ
  empties b = find_u32x16_gen ((table st).key b) 0

  abbrev pub search : ℕ × Head × S
  search = keys_then (hits b0) (hits b1) (slots_then (free_slot b0) (free_slot b1))

  module _ (find_lem : IsFind ops.find) where
    free_slot-first :
        (b : ℕ) → free_slot b ≡ (if empties b == 0 then none else some (ctz (empties b)))
    unfolding first_hit
    free_slot-first b = rw (find_lem ((table st).key b) 0) refl

    masks-slots : masks_then (empties b0) (empties b1) ≡ slots_then (free_slot b0) (free_slot b1)
    unfolding masks_then
    masks-slots = elim (Bool-cases (empties b0 == 0)) [
      | inl z ↦ elim (Bool-cases (empties b1 == 0)) [
        | inl z' ↦ rw (free_slot-first b0, free_slot-first b1, z, z') refl
        | inr z' ↦ rw (free_slot-first b0, free_slot-first b1, z, z') refl
      ]
      | inr z ↦ rw (free_slot-first b0, z) refl
    ]

    pub insert_hashed-search :
        ((arr : ℕ → ℕ) (val0 val1 : ℕ)
          → ops.find_2 arr val0 val1 ≡ (find_u32x16_gen arr val0, find_u32x16_gen arr val1))
        → insert_hashed ops node_key table kick place elm hash h st ≡ search
    unfolding insert_hashed buckets masks_then
    insert_hashed-search find_2_lem =
        let l0 = find_2_lem ((table st).key b0) fp 0 in
        let l1 = find_2_lem ((table st).key b1) fp 0 in
        (λ i. keys_then ((l0 i).0) ((l1 i).0) (masks_then ((l0 i).1) ((l1 i).1)))
        ∙ ap (keys_then (hits b0) (hits b1)) masks-slots
