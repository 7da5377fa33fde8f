-- ===== src/Hash/Fingerprint.antt =====
-- include/rix/rix_hash_common.h, and what rix_hash_fp.h, rix_hash_slot.h and rix_hash_keyonly.h
-- share: the hash tables that keep fingerprints in the buckets and compare keys through the nodes.
-- `Buckets.key` is their `hash[]`, and the key type and its comparison are the caller's.
pub mod Laws
pub mod Find
pub mod KeyOnly
pub mod Duplicate
pub mod Search
pub mod Insert
pub mod Fields
pub mod Marked
pub mod Flip
pub mod Refine
pub mod Place
pub mod Agree
pub mod Unmark
pub mod RoundTrip
pub mod Reinsert
pub mod Zeroed
pub mod SlotTable
pub mod Remove
use Prim.Native.Nat.{bit_and, bit_xor}
use relative_q.Base.{
  ℕ, zero, suc, ◌+◌, ◌-◌, ◌%◌, ◌^◌, ◌==◌, if◌then◌else◌, not, ◌&&◌, Option, none, some, List, map,
  [], ◌∷◌, Bool, ltb,
}
use relative_q.Hash.Arch.{Hash, ctz}
use relative_q.Hash.Arch.Hits.{hits_loop}
use relative_q.Hash.Cuckoo.{Head, Buckets, set_slot}

-- The scans of the dispatch handle, and the caller's `hash_fn` and `cmp_fn`.
pub record FpOps (Key : Type 0) : Type 0 where
  pub find : (ℕ → ℕ) → ℕ → ℕ
  pub find_2 : (ℕ → ℕ) → ℕ → ℕ → ℕ × ℕ
  pub hash_fn : Key → ℕ → Hash
  pub cmp_fn : Key → Key → ℕ

-- `struct rix_hash_find_ctx_s`.
pub record FpCtx (Key : Type 0) : Type 0 where
  pub hash : Hash
  pub bk0 : ℕ
  pub bk1 : ℕ
  pub key : Key
  pub fp : ℕ
  pub fp_hits0 : ℕ
  pub fp_hits1 : ℕ
  pub empties0 : ℕ
  pub empties1 : ℕ

-- `rix_hash_buckets`: the two candidate buckets and the fingerprint.
unfoldable pub buckets : Hash → ℕ → ℕ × ℕ × ℕ
buckets h mask = (bit_and h.val0 mask, bit_and h.val1 mask, bit_xor h.val0 h.val1)

-- `init` leaves the buckets to the caller.
unfoldable pub init : ℕ → Head
init nb_bk = record { mask = (nb_bk + (2 ^ 32 - 1)) % 2 ^ 32; nb = 0 }

module _ {Key : Type 0} (ops : FpOps Key) (node_key : ℕ → Key) where
  unfoldable pub hash_key : Head → Key → FpCtx Key → FpCtx Key
  hash_key h key ctx =
      let hash = ops.hash_fn key h.mask in
      let (bk0, bk1, fp) = buckets hash h.mask in
      record ctx { hash = hash; fp = fp; key = key; bk0 = bk0; bk1 = bk1 }

  unfoldable pub scan_bk : Buckets → FpCtx Key → FpCtx Key
  scan_bk t ctx = record ctx { fp_hits0 = ops.find (t.key ctx.bk0) ctx.fp; fp_hits1 = 0 }

  -- The loop of `cmp_key` over the hits of one bucket: the first node with the key, or NULL.
  unfoldable pub match_node : Buckets → ℕ → Key → ℕ → ℕ
  match_node t b key hits =
      elim (hits_loop
        (λ bit. not (t.idx b bit == 0) && (ops.cmp_fn key (node_key (t.idx b bit)) == 0)) 32 hits) [
          | some bit ↦ t.idx b bit
          | none ↦ 0
        ]

  unfoldable pub cmp_key : Buckets → FpCtx Key → ℕ
  cmp_key t ctx =
      let node = match_node t ctx.bk0 ctx.key ctx.fp_hits0 in
      let second = match_node t ctx.bk1 ctx.key (ops.find (t.key ctx.bk1) ctx.fp) in
      if node == 0 then second else node

  -- The local context of `find` is not initialised.
  unfoldable pub find : FpCtx Key → Head → Buckets → Key → ℕ
  find ctx h t key = cmp_key t (scan_bk t (hash_key h key ctx))

  -- The same pipeline with the masks of the empty slots.
  unfoldable pub hash_key_2bk : Head → Key → FpCtx Key → FpCtx Key
  hash_key_2bk h key ctx =
      let hash = ops.hash_fn key h.mask in
      let (bk0, bk1, fp) = buckets hash h.mask in
      record ctx { hash = hash; fp = fp; key = key; bk0 = bk0; bk1 = bk1 }

  unfoldable pub scan_bk_empties : Buckets → FpCtx Key → FpCtx Key
  scan_bk_empties t ctx =
      let (hits, empties) = ops.find_2 (t.key ctx.bk0) ctx.fp 0 in
      record ctx { fp_hits0 = hits; empties0 = empties; fp_hits1 = 0; empties1 = 0 }

  unfoldable pub cmp_key_empties : Buckets → FpCtx Key → ℕ × FpCtx Key
  cmp_key_empties t ctx =
      let node = match_node t ctx.bk0 ctx.key ctx.fp_hits0 in
      let (hits, empties) = ops.find_2 (t.key ctx.bk1) ctx.fp 0 in
      if node == 0
      then (match_node t ctx.bk1 ctx.key hits, record ctx { fp_hits1 = hits; empties1 = empties })
      else (node, ctx)

  -- The bulk stages over the same number of contexts and keys.
  unfoldable pub hash_key_n : Head → List Key → List (FpCtx Key) → List (FpCtx Key)
  hash_key_n h (k ∷ keys) (c ∷ ctx) = hash_key h k c ∷ hash_key_n h keys ctx
  hash_key_n h [] ctx = ctx
  hash_key_n h (k ∷ keys) [] = []

  unfoldable pub scan_bk_n : Buckets → List (FpCtx Key) → List (FpCtx Key)
  scan_bk_n t ctx = map (scan_bk t) ctx

  unfoldable pub cmp_key_n : Buckets → List (FpCtx Key) → List ℕ
  cmp_key_n t ctx = map (cmp_key t) ctx

  -- The loop of `insert` over the hits of one bucket; a hit is no empty slot there.
  unfoldable pub duplicate : Buckets → ℕ → Key → ℕ → Option ℕ
  duplicate t b key hits =
      elim (hits_loop (λ bit. ops.cmp_fn key (node_key (t.idx b bit)) == 0) 32 hits) [
        | some bit ↦ some (t.idx b bit)
        | none ↦ none
      ]

  -- `insert` of `elm` with hash `hash`, over what a variant keeps besides the buckets: `kick` is
  -- its `kickout` at the full depth, and `place` stores a fingerprint in a slot, with the hash of
  -- the second bucket if that is where the slot is.
  unfoldable pub insert_hashed :
      {S : Type 0} (table : S → Buckets) (kick : ℕ → S → S × Option ℕ)
      (place : ℕ → ℕ → ℕ → Option ℕ → S → S)
      → ℕ
      → Hash
      → Head
      → S
      → ℕ × Head × S
  insert_hashed table kick place elm hash h st =
      let (bk0, bk1, fp) = buckets hash h.mask in
      let (hits0, zero0) = ops.find_2 ((table st).key bk0) fp 0 in
      let (hits1, zero1) = ops.find_2 ((table st).key bk1) fp 0 in
      let h' : Head = record h { nb = (h.nb + 1) % 2 ^ 32 } in
      elim (duplicate (table st) bk0 (node_key elm) hits0) [
        | some n ↦ (n, h, st)
        | none ↦ elim (duplicate (table st) bk1 (node_key elm) hits1) [
          | some n ↦ (n, h, st)
          | none ↦
              if not (zero0 == 0)
              then (0, h', place bk0 (ctz zero0) fp none st)
              else if not (zero1 == 0)
              then (0, h', place bk1 (ctz zero1) fp (some hash.val1) st)
              else (let (st1, s1) = kick bk0 st in
                  elim s1 [
                    | some s ↦ (0, h', place bk0 s fp none st1)
                    | none ↦
                        let (st2, s2) = kick bk1 st1 in
                        elim s2 [
                          | some s ↦ (0, h', place bk1 s fp (some hash.val1) st2)
                          | none ↦ (elm, h, st2)
                        ]
                  ])
        ]
      ]

-- Clears a slot of a bucket, and gives the node that was there.
unfoldable pub remove_at : ℕ → ℕ → Head × Buckets → ℕ × Head × Buckets
remove_at bk slot (h, t) =
    if not (ltb slot 16)
    then (0, h, t)
    else if t.idx bk slot == 0
    then (0, h, t)
    else (t.idx bk slot, record h { nb = (h.nb + (2 ^ 32 - 1)) % 2 ^ 32 }, set_slot bk slot 0 0 t)
